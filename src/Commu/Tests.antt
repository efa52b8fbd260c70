-- ===== src/Commu/Tests.antt =====
-- Connections by src/commu.cpp on concrete devices.
use rfdts.Base.{ℕ, ◌≡◌, refl, List, [], ◌∷◌, some, ok, exited, fault, errno, Exit, ◌⊎◌, arith}
use rfdts.Commu.{
  Commu, Args, construct, destroy, open_context, query_attr, query_device, query_port, check_mtu,
  alloc_pd, reg_mr, create_comp_channel, create_cq, create_basic_resource, create_qp,
}
use rfdts.Commu.Release.{object}
use rfdts.Commu.Stacked.{stacked, some_device, some_port}
use rfdts.Commu.SetUp.{Ending, construct-Ending, construct-destroy_kept, construct_tiny}

abbrev args : ℕ → Args
args elesize = record {
  dev_name = some (97 ∷ []);
  ib_port = 1;
  elenum = 10;
  elesize = elesize;
  mrs_addr = 4096;
  mrs_length = 50;
}

abbrev whole : Commu × List (List ℕ)
whole = (
  object 1 (some 2) (some 3) (some 4) (some 5) (some 6) some_device some_port,
  (2 ∷ 5 ∷ []) ∷ (1 ∷ 4 ∷ []) ∷ (1 ∷ []) ∷ (2 ∷ []) ∷ (1 ∷ []) ∷ [] ∷ [],
)

constructed : construct stacked (args 5) [] ≡ ok whole
unfolding construct open_context query_attr query_device query_port check_mtu create_basic_resource
    alloc_pd reg_mr create_comp_channel create_cq create_qp
constructed = refl

construct-Ending_example : Ending stacked (args 5) []
construct-Ending_example = construct-Ending stacked (args 5) []

construct-destroy_kept_example : (e : _) × (destroy stacked (whole.0) (whole.1) ≡ exited (errno e))
construct-destroy_kept_example = construct-destroy_kept stacked (args 5) [] whole constructed

construct_tiny_example :
    ((e : Exit) × (construct stacked (args 48) [] ≡ exited e))
    ⊎ (construct stacked (args 48) [] ≡ fault)
construct_tiny_example = construct_tiny stacked (args 48) [] (omega arith)
