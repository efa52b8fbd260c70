-- ===== src/Shm/Verdict.antt =====
-- How `read` and `write` of src/shm.hpp end, whatever they are given.
use rfdts.Base.{
  ℕ, ◌+◌, ◌^◌, ◌≤◌, ◌<◌, ◌≡◌, ◌≢◌, refl, ◌∙◌, inl, inr, Bool, true, false, ◌||◌, not, Errno, ok,
  exited, errno, einval, eperm, put_cells, ◌>>=◌, arith, ltb, leb, ◌==◌, ne→==, eq→==, not-lt→ltb,
  lt→ltb, if◌then◌else◌, Array, length, memset-Filled, Bool-cases,
}
use native.Mathlib.Decide.{dec_le, ℕ_discrete}
use rfdts.Shm.{PosixShm, Accessed, seek, rewind, wipe, transfer, access, read, write}
use rfdts.Shm.Access.{Mapped, Admitted, start, permitted, Wrote, Fetched, write-Wrote, read-Fetched}

-- What a caller may expect of a call.
pub data Verdict : Type 0 where
  refuses : Errno → Verdict
  does_nothing moves : Verdict

-- A call is refused with EPERM if the protection does not allow it; with EINVAL for a null or too
-- short a buffer, or when the mapping ends before the bytes do; nothing happens for no bytes.
unfoldable pub verdict : PosixShm → Array ℕ → ℕ → ℕ → Bool → Bool → Verdict
verdict p buf buf_len nbytes reset is_read =
    if not (permitted is_read p.protect)
    then refuses eperm
    else if buf.base == 0
    then refuses einval
    else if ltb buf_len nbytes
    then refuses einval
    else if nbytes == 0
    then does_nothing
    else if leb (start reset p + nbytes) p.length
    then moves
    else refuses einval

-- What a call that moves its bytes does: a `read` as in `Fetched`, a `write` as in `Wrote`.
abbrev pub Moved : Bool → PosixShm → Array ℕ → ℕ → ℕ → Bool → Accessed → Type 0
Moved true p buf buf_len nbytes reset call =
    (f : Fetched p buf buf_len nbytes reset) × (call ≡ ok (f.buffer, f.after))
Moved false p buf buf_len nbytes reset call =
    (f : Wrote p buf buf_len nbytes reset) × (call ≡ ok (buf, f.after))

abbrev pub Meets : Verdict → PosixShm → Array ℕ → ℕ → ℕ → Bool → Bool → Accessed → Type 0
Meets (refuses e) p buf buf_len nbytes reset is_read call = call ≡ exited (errno e)
Meets does_nothing p buf buf_len nbytes reset is_read call = call ≡ ok (buf, p)
Meets moves p buf buf_len nbytes reset is_read call = Moved is_read p buf buf_len nbytes reset call

access_refused :
    (p : PosixShm) (buf : Array ℕ) (buf_len nbytes : ℕ) (reset is_read : Bool)
    → permitted is_read p.protect ≡ false
    → access p buf buf_len nbytes reset is_read ≡ exited (errno eperm)
unfolding access
access_refused p buf buf_len nbytes reset true e = rw e refl
access_refused p buf buf_len nbytes reset false e = rw e refl

access-permitted :
    (p : PosixShm) (buf : Array ℕ) (buf_len nbytes : ℕ) (reset is_read : Bool)
    → permitted is_read p.protect ≡ true
    → access p buf buf_len nbytes reset is_read ≡ (
        if buf.base == 0 || ltb buf_len nbytes
        then exited (errno einval)
        else if nbytes == 0
        then ok (buf, p)
        else (wipe buf buf_len is_read >>= λ b.
            rewind reset p >>= λ q. transfer b nbytes is_read q))
unfolding access
access-permitted p buf buf_len nbytes reset true e = rw e refl
access-permitted p buf buf_len nbytes reset false e = rw e refl

wipe_ok :
    (buf : Array ℕ) (buf_len : ℕ) (is_read : Bool)
    → buf_len ≤ length buf.cells
    → (b : Array ℕ) × (wipe buf buf_len is_read ≡ ok b)
unfolding wipe
wipe_ok buf buf_len true h =
    let f = memset-Filled buf_len buf.cells 0 0 (omega arith) in
    (put_cells buf f.after, rw (f.returns) refl)
wipe_ok buf buf_len false h = (buf, refl)

past_end :
    (p : PosixShm) (b : Array ℕ) (nbytes : ℕ) (reset is_read : Bool)
    → Mapped p
    → nbytes < 2 ^ 63
    → p.length < start reset p + nbytes
    → (rewind reset p >>= λ q. transfer b nbytes is_read q) ≡ exited (errno einval)
unfolding rewind seek transfer
past_end p b nbytes true is_read m h w = ground (arith, m.small)
past_end p b nbytes false is_read m h w = ground (arith, m.small, m.inside)

access-Moved :
    (p : PosixShm) (buf : Array ℕ) (buf_len nbytes : ℕ) (reset is_read : Bool)
    → Admitted p buf buf_len nbytes reset is_read
    → Moved is_read p buf buf_len nbytes reset (access p buf buf_len nbytes reset is_read)
unfolding read write
access-Moved p buf buf_len nbytes reset true a =
    let r = read-Fetched p buf buf_len nbytes reset a in (r, r.returns)
access-Moved p buf buf_len nbytes reset false a =
    let w = write-Wrote p buf buf_len nbytes reset a in (w, w.returns)

module _ (p : PosixShm) (buf : Array ℕ) (buf_len nbytes : ℕ) (reset is_read : Bool) where
  sized :
      Mapped p
      → buf_len ≤ length buf.cells
      → buf_len < 2 ^ 63
      → permitted is_read p.protect ≡ true
      → buf.base ≢ 0
      → nbytes ≤ buf_len
      → access p buf buf_len nbytes reset is_read ≡ (
          if nbytes == 0
          then ok (buf, p)
          else (wipe buf buf_len is_read >>= λ b.
              rewind reset p >>= λ q. transfer b nbytes is_read q))
      → Meets
          (if nbytes == 0
            then does_nothing
            else if leb (start reset p + nbytes) p.length
            then moves
            else refuses einval)
          p
          buf
          buf_len
          nbytes
          reset
          is_read
          (access p buf buf_len nbytes reset is_read)
  sized m size small allowed real enough called = elim (ℕ_discrete nbytes 0) [
    | yes none_asked ↦ let e = eq→== nbytes 0 none_asked in rw e (called ∙ rw e refl)
    | no some_asked ↦
        let e = ne→== nbytes 0 some_asked in
        elim (dec_le (start reset p + nbytes) p.length) [
          | yes room ↦
              let f : leb (start reset p + nbytes) p.length ≡ true = ground arith in
              rw (e, f)
                (access-Moved p buf buf_len nbytes reset is_read (record {
                  mapped = m;
                  allowed = allowed;
                  real = real;
                  buffer_size = size;
                  some_bytes = omega arith;
                  fits_buffer = enough;
                  fits_mapping = room;
                }))
          | no over ↦
              let f : leb (start reset p + nbytes) p.length ≡ false = ground arith in
              let (b, wiped) = wipe_ok buf buf_len is_read size in
              rw (e, f)
                (called
                  ∙ rw (e, wiped) (past_end p b nbytes reset is_read m (omega arith) (omega arith)))
        ]
  ]

  -- On a shared memory of less than 2 ^ 63 bytes with its cursor inside, and a buffer at least as
  -- long as is said, which is less than 2 ^ 63, every `read` and `write` is refused, does nothing
  -- or moves its bytes as an independent verdict on its arguments says; none touches memory
  -- outside. A `read` that moves bytes gives the mapping's from where it begins, clears the rest
  -- of the buffer's given length and changes no byte of the mapping; a `write` stores the
  -- buffer's there and changes no other byte of the mapping; both keep the mapping sound and
  -- leave the cursor behind the bytes.
  pub access-Meets :
      Mapped p
      → buf_len ≤ length buf.cells
      → buf_len < 2 ^ 63
      → Meets
          (verdict p buf buf_len nbytes reset is_read)
          p
          buf
          buf_len
          nbytes
          reset
          is_read
          (access p buf buf_len nbytes reset is_read)
  unfolding verdict
  access-Meets m size small = elim (Bool-cases (permitted is_read p.protect)) [
    | inr refused ↦ rw refused (access_refused p buf buf_len nbytes reset is_read refused)
    | inl allowed ↦
        let called = access-permitted p buf buf_len nbytes reset is_read allowed in
        elim (ℕ_discrete buf.base 0) [
          | yes null ↦ let e = eq→== buf.base 0 null in rw (allowed, e) (called ∙ rw e refl)
          | no real ↦
              let e = ne→== buf.base 0 real in
              elim (dec_le nbytes buf_len) [
                | no short ↦
                    let f = lt→ltb buf_len nbytes (omega arith) in
                    rw (allowed, e, f) (called ∙ rw (e, f) refl)
                | yes enough ↦
                    let f = not-lt→ltb buf_len nbytes enough in
                    rw (allowed, e, f)
                      (sized m size small allowed real enough (called ∙ rw (e, f) refl))
              ]
        ]
  ]
