-- ===== src/Buffers/Samples.antt =====
-- Addresses for the tests.
use rfdts.Buffers.{Bases}

abbrev pub bases : Bases
bases = record {
  addr_base = 4096;
  wrs_base = 8192;
  sg_lists_base = 12288;
  rq_base = 16384;
  flags_base = 20480;
}
