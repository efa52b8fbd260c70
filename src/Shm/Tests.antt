-- ===== src/Shm/Tests.antt =====
-- `posix_shm` of src/shm.hpp on a mapping of four bytes.
use rfdts.Base.{
  ℕ, ◌+◌, ◌-◌, ◌≤◌, ◌≡◌, refl, true, false, [], ◌∷◌, ok, exited, errno, einval, arith, ltb,
  if◌then◌else◌, Array,
}
use rfdts.Shm.{PosixShm, seek, seek_set, seek_cur, seek_end, other_whence, set_cur, access, write}
use rfdts.Shm.Access.{Mapped}
use rfdts.Shm.Cursor.{minus, seek_lem, seek_cur-eq-seek_end, seek_cur-then-write}
use rfdts.Shm.RoundTrip.{Echoed, write-write-Echoed, Cleared, clear-Cleared}
use rfdts.Shm.Verdict.{verdict, Meets, access-Meets}

abbrev four : PosixShm
four = record {
  addr = record { base = 4096; cells = 9 ∷ 8 ∷ 7 ∷ 6 ∷ [] };
  length = 4;
  cur = 1;
  protect = record { prot_read = true; prot_write = true };
}

four-Mapped : Mapped four
four-Mapped = record { size = refl; small = omega arith; inside = omega arith }

abbrev three_bytes : Array ℕ
three_bytes = record { base = 64; cells = 1 ∷ 2 ∷ 3 ∷ [] }

abbrev one_byte : Array ℕ
one_byte = record { base = 96; cells = 5 ∷ [] }

abbrev out : Array ℕ
out = record { base = 128; cells = 0 ∷ 0 ∷ 0 ∷ 0 ∷ 0 ∷ [] }

write-write-Echoed_example : Echoed four three_bytes one_byte out 3 1 5 3 1
write-write-Echoed_example =
    write-write-Echoed four three_bytes one_byte out 3 1 5 3 1
      (record {
        mapped = four-Mapped;
        allowed = refl;
        real = omega arith;
        buffer_size = omega arith;
        some_bytes = omega arith;
        fits_buffer = omega arith;
        fits_mapping = omega arith;
      })
      refl (omega arith) (omega arith) (omega arith) (omega arith) (omega arith) (omega arith)
      (omega arith) (omega arith)

clear-Cleared_example : Cleared four
clear-Cleared_example = clear-Cleared four four-Mapped

access-Meets_example :
    Meets
      (verdict four three_bytes 3 3 false true)
      four
      three_bytes
      3
      3
      false
      true
      (access four three_bytes 3 3 false true)
access-Meets_example =
    access-Meets four three_bytes 3 3 false true four-Mapped (omega arith) (omega arith)

seek_lem_example :
    (seek four 2 seek_set ≡ (if ltb 2 4 then set_cur four 2 else exited (errno einval)))
    × (seek four (minus 2) seek_set ≡ exited (errno einval))
    × (seek four (minus 2) seek_end
        ≡ (if ltb 2 4 then set_cur four (4 - 1 - 2) else exited (errno einval)))
    × (seek four 2 seek_end ≡ exited (errno einval))
    × (seek four 2 other_whence ≡ exited (errno einval))
seek_lem_example = seek_lem four 2 (omega arith) (omega arith) (omega arith)

abbrev at_two : ℕ × PosixShm
at_two = (2, record four { cur = 2 })

by_cur : seek four (minus 1) seek_cur ≡ ok at_two
unfolding seek
by_cur = refl

by_end : seek four (minus 1) seek_end ≡ ok at_two
unfolding seek
by_end = refl

-- One step back from the place 1 leads to the place 2, as one step back from the end does.
seek_cur-eq-seek_end_example : at_two ≡ at_two
seek_cur-eq-seek_end_example = seek_cur-eq-seek_end four (minus 1) at_two at_two by_cur by_end

abbrev past_end : PosixShm
past_end = record four { cur = four.length - 1 + 1 }

seek_cur-then-write_example :
    (seek four 1 seek_cur ≡ ok (past_end.cur, past_end))
    × (4 ≤ past_end.cur)
    × (write past_end one_byte 1 1 false ≡ exited (errno einval))
seek_cur-then-write_example =
    seek_cur-then-write four 1 one_byte 1 1 (omega arith) refl (omega arith) (omega arith)
      (omega arith) (omega arith)
