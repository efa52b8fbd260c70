-- ===== src/Shm/Cursor.antt =====
-- `seek` of src/shm.hpp.
use rfdts.Base.{
  ℕ, ◌+◌, ◌-◌, ◌^◌, ◌≤◌, ◌<◌, ◌≡◌, refl, ◌∙◌, ap, true, false, ok, exited, errno, einval, arith,
  ltb, if◌then◌else◌, Array,
}
use rfdts.Base.Words.{u64}
use rfdts.Shm.{
  PosixShm, seek_set, seek_cur, seek_end, other_whence, set_cur, seek, write, wipe, rewind,
  transfer, from_end,
}

-- `offset`, `-offset` as an off_t.
abbrev pub minus : ℕ → ℕ
minus offset = u64 (2 ^ 64 - offset)

-- Of a shared memory of less than 2 ^ 63 bytes, by a positive offset below 2 ^ 63: SEEK_SET goes
-- forward from the start and SEEK_END back from the last byte to every place inside; both refuse
-- all other places, on the far side too, and every other `whence` is refused.
pub seek_lem :
    (p : PosixShm) (offset : ℕ)
    → p.length < 2 ^ 63
    → 0 < offset
    → offset < 2 ^ 63
    → (seek p offset seek_set
        ≡ (if ltb offset p.length then set_cur p offset else exited (errno einval)))
      × (seek p (minus offset) seek_set ≡ exited (errno einval))
      × (seek p (minus offset) seek_end ≡ (
          if ltb offset p.length then set_cur p (p.length - 1 - offset) else exited (errno einval)))
      × (seek p offset seek_end ≡ exited (errno einval))
      × (seek p offset other_whence ≡ exited (errno einval))
unfolding seek
seek_lem p offset small pos h = (ground arith, ground arith, ground arith, ground arith, refl)

-- `seek` with SEEK_CUR, when it and SEEK_END are not refused, leaves the cursor where SEEK_END
-- would, wherever it stood before.
pub seek_cur-eq-seek_end :
    (p : PosixShm) (offset : ℕ) (r s : ℕ × PosixShm)
    → seek p offset seek_cur ≡ ok r
    → seek p offset seek_end ≡ ok s
    → r ≡ s
unfolding seek
seek_cur-eq-seek_end p offset r s e f = ground arith

-- A step forward by `seek` with SEEK_CUR to a place inside a writable shared memory of less than
-- 2 ^ 62 bytes is accepted and leaves the cursor past its end: every `write` of a positive number
-- of bytes, less than 2 ^ 62, that goes on from there ends the program with EINVAL.
pub seek_cur-then-write :
    (p : PosixShm) (offset : ℕ) (buf : Array ℕ) (buf_len nbytes : ℕ)
    → p.length < 2 ^ 62
    → p.protect.prot_write ≡ true
    → 0 < offset
    → p.cur + offset < p.length
    → 0 < nbytes
    → nbytes < 2 ^ 62
    → let there = record p { cur = p.length - 1 + offset } in
      (seek p offset seek_cur ≡ ok (there.cur, there))
      × (p.length ≤ there.cur)
      × (write there buf buf_len nbytes false ≡ exited (errno einval))
unfolding seek write rewind wipe transfer
seek_cur-then-write p offset buf buf_len nbytes small allowed pos inside some_bytes few =
    let to : from_end p offset ≡ p.length - 1 + offset = omega arith in
    let accepted : seek p offset seek_cur ≡ set_cur p (from_end p offset) = ground arith in
    (accepted ∙ ap (set_cur p) to, omega arith, rw allowed (ground arith))
