-- ===== src/Shm/Access.antt =====
-- What `__access` of src/shm.hpp copies, where from and where to.
use rfdts.Base.{
  ◌>>=◌, ◌&&◌, ◌||◌, not, ℕ, ◌+◌, ◌^◌, ◌≤◌, ◌<◌, ◌≡◌, refl, ◌≢◌, ◌⊎◌, ◌∙◌, ap, inr, Bool, true,
  false, ok, arith, ne→==, not-lt→ltb, if◌then◌else◌, Array, length, get_elem?, put_cells,
  memcpy-Copied, memset-Filled, some,
}
use rfdts.Base.Words.{u64}
use rfdts.Shm.{PosixShm, Protection, seek, rewind, wipe, transfer, access, read, write}

-- The object holds a mapping of its length, less than 2 ^ 63 bytes, and its cursor is inside.
pub record Mapped (p : PosixShm) : Type 0 where
  pub size : length p.addr.cells ≡ p.length
  pub small : p.length < 2 ^ 63
  pub inside : p.cur ≤ p.length

-- Where a call of `read` or `write` begins.
abbrev pub start : Bool → PosixShm → ℕ
start reset p = if reset then 0 else p.cur

abbrev pub permitted : Bool → Protection → Bool
permitted is_read protect = if is_read then protect.prot_read else protect.prot_write

-- A call that gets past every check: it may move a positive number of bytes, has a buffer for as
-- many, and finds as many between where it begins and the end of the mapping.
pub record Admitted (p : PosixShm) (buf : Array ℕ) (buf_len nbytes : ℕ) (reset is_read : Bool)
    : Type 0 where
  pub mapped : Mapped p
  pub allowed : permitted is_read p.protect ≡ true
  pub real : buf.base ≢ 0
  pub buffer_size : buf_len ≤ length buf.cells
  pub some_bytes : 0 < nbytes
  pub fits_buffer : nbytes ≤ buf_len
  pub fits_mapping : start reset p + nbytes ≤ p.length

rewind_lem :
    (reset : Bool) (p : PosixShm)
    → p.length < 2 ^ 63
    → 0 < p.length
    → rewind reset p ≡ ok (record p { cur = start reset p })
unfolding rewind seek
rewind_lem true p h w = ground arith
rewind_lem false p h w = refl

admitted :
    (p : PosixShm) (buf : Array ℕ) (buf_len nbytes : ℕ) (reset is_read : Bool)
    → Admitted p buf buf_len nbytes reset is_read
    → access p buf buf_len nbytes reset is_read
      ≡ wipe buf buf_len is_read >>= λ b.
          transfer b nbytes is_read (record p { cur = start reset p })
unfolding access
admitted p buf buf_len nbytes reset is_read a =
    rw
      (
        ne→== buf.base 0 a.real,
        not-lt→ltb buf_len nbytes a.fits_buffer,
        ne→== nbytes 0 (omega (arith, a.some_bytes)),
        rewind_lem reset p a.mapped.small (omega (arith, a.fits_mapping, a.some_bytes)),
      )
      (passed is_read p.protect _ _ a.allowed)
  where
    passed :
        {A : Type 0} (is_read : Bool) (protect : Protection) (x y : A)
        → permitted is_read protect ≡ true
        → (if (is_read && not protect.prot_read) || (not is_read && not protect.prot_write)
            then x
            else y)
          ≡ y
    passed true protect x y e = rw e refl
    passed false protect x y e = rw e refl

no_wrap :
    (p : PosixShm) (buf : Array ℕ) (buf_len nbytes : ℕ) (reset is_read : Bool)
    → Admitted p buf buf_len nbytes reset is_read
    → u64 (start reset p + nbytes) ≡ start reset p + nbytes
no_wrap p buf buf_len nbytes reset is_read a = omega (arith, a.fits_mapping, a.mapped.small)

-- An admitted `write`.
pub record Wrote (p : PosixShm) (buf : Array ℕ) (buf_len nbytes : ℕ) (reset : Bool) : Type 0 where
  pub after : PosixShm
  pub returns : write p buf buf_len nbytes reset ≡ ok (buf, after)
  pub mapped : Mapped after
  pub length_eq : after.length ≡ p.length
  pub protect_eq : after.protect ≡ p.protect
  pub cur_eq : after.cur ≡ start reset p + nbytes
  pub stored :
      (k : ℕ) → k < nbytes → get_elem? after.addr.cells (start reset p + k) ≡ get_elem? buf.cells k
  pub kept :
      (j : ℕ)
      → (j < start reset p) ⊎ (start reset p + nbytes ≤ j)
      → get_elem? after.addr.cells j ≡ get_elem? p.addr.cells j

-- It stores the buffer's bytes from where it begins, changes no other byte of the mapping, and
-- leaves the cursor behind them.
pub write-Wrote :
    (p : PosixShm) (buf : Array ℕ) (buf_len nbytes : ℕ) (reset : Bool)
    → Admitted p buf buf_len nbytes reset false
    → Wrote p buf buf_len nbytes reset
unfolding write wipe transfer
write-Wrote p buf buf_len nbytes reset a =
    let c =
      memcpy-Copied nbytes p.addr.cells (start reset p) buf.cells 0
        (omega (arith, a.fits_mapping, a.mapped.size))
        (omega (arith, a.fits_buffer, a.buffer_size)) in
    record {
      after = record p { addr = put_cells p.addr c.after; cur = start reset p + nbytes };
      returns =
          rw
            (
              admitted p buf buf_len nbytes reset false a,
              no_wrap p buf buf_len nbytes reset false a,
              not-lt→ltb p.length (start reset p + nbytes) a.fits_mapping,
              c.returns,
            )
            refl;
      mapped = record {
        size = c.size ∙ a.mapped.size;
        small = a.mapped.small;
        inside = a.fits_mapping;
      };
      length_eq = refl;
      protect_eq = refl;
      cur_eq = refl;
      stored = λ k l. c.copied k l ∙ ap (get_elem? buf.cells) (omega arith);
      kept = c.kept;
    }

-- An admitted `read`.
pub record Fetched (p : PosixShm) (buf : Array ℕ) (buf_len nbytes : ℕ) (reset : Bool) : Type 0 where
  pub buffer : Array ℕ
  pub after : PosixShm
  pub returns : read p buf buf_len nbytes reset ≡ ok (buffer, after)
  pub mapped : Mapped after
  pub mapping_eq : after.addr ≡ p.addr
  pub cur_eq : after.cur ≡ start reset p + nbytes
  pub got :
      (k : ℕ) → k < nbytes → get_elem? buffer.cells k ≡ get_elem? p.addr.cells (start reset p + k)
  pub wiped : (k : ℕ) → nbytes ≤ k → k < buf_len → get_elem? buffer.cells k ≡ some 0

-- It gives the mapping's bytes from where it begins, clears the rest of the buffer's given length,
-- changes nothing of the mapping, and leaves the cursor behind the bytes.
pub read-Fetched :
    (p : PosixShm) (buf : Array ℕ) (buf_len nbytes : ℕ) (reset : Bool)
    → Admitted p buf buf_len nbytes reset true
    → Fetched p buf buf_len nbytes reset
unfolding read wipe transfer
read-Fetched p buf buf_len nbytes reset a =
    let w = memset-Filled buf_len buf.cells 0 0 (omega (arith, a.buffer_size)) in
    let c =
      memcpy-Copied nbytes w.after 0 p.addr.cells (start reset p)
        (omega (arith, a.fits_buffer, a.buffer_size, w.size))
        (omega (arith, a.fits_mapping, a.mapped.size)) in
    record {
      buffer = put_cells buf c.after;
      after = record p { cur = start reset p + nbytes };
      returns =
          rw
            (
              admitted p buf buf_len nbytes reset true a,
              w.returns,
              no_wrap p buf buf_len nbytes reset true a,
              not-lt→ltb p.length (start reset p + nbytes) a.fits_mapping,
              c.returns,
            )
            refl;
      mapped = record { size = a.mapped.size; small = a.mapped.small; inside = a.fits_mapping };
      mapping_eq = refl;
      cur_eq = refl;
      got = λ k l. ap (get_elem? c.after) (omega arith) ∙ c.copied k l;
      wiped = λ k h l.
          c.kept k (inr (omega arith)) ∙ ap (get_elem? w.after) (omega arith) ∙ w.filled k l;
    }
