-- ===== src/Shm/RoundTrip.antt =====
-- What `write` of src/shm.hpp stores, `read` gives back.
use rfdts.Base.{
  ℕ, ◌+◌, ◌≤◌, ◌<◌, ◌≡◌, refl, ◌≢◌, ◌∙◌, ap, inl, true, false, some, ok, arith, Array, length,
  get_elem?, put_cells, memset-Filled,
}
use rfdts.Shm.{PosixShm, clear}
use rfdts.Shm.Access.{Mapped, Admitted, Wrote, Fetched, write-Wrote, read-Fetched}

-- Two writes, the second where the first ended, and one read of all their bytes.
pub record Echoed (p : PosixShm) (buf1 buf2 out : Array ℕ) (len1 len2 out_len n1 n2 : ℕ)
    : Type 0 where
  pub first : Wrote p buf1 len1 n1 true
  pub second : Wrote first.after buf2 len2 n2 false
  pub last : Fetched second.after out out_len (n1 + n2) true
  pub front : (k : ℕ) → k < n1 → get_elem? last.buffer.cells k ≡ get_elem? buf1.cells k
  pub back : (k : ℕ) → k < n2 → get_elem? last.buffer.cells (n1 + k) ≡ get_elem? buf2.cells k

-- After an admitted `write` from the start of a readable shared memory and one that goes on where
-- it ended, with room for both, a `read` from the start gives the bytes of the first buffer
-- followed by those of the second.
pub write-write-Echoed :
    (p : PosixShm) (buf1 buf2 out : Array ℕ) (len1 len2 out_len n1 n2 : ℕ)
    → Admitted p buf1 len1 n1 true false
    → p.protect.prot_read ≡ true
    → buf2.base ≢ 0
    → len2 ≤ length buf2.cells
    → 0 < n2
    → n2 ≤ len2
    → out.base ≢ 0
    → out_len ≤ length out.cells
    → n1 + n2 ≤ out_len
    → n1 + n2 ≤ p.length
    → Echoed p buf1 buf2 out len1 len2 out_len n1 n2
write-write-Echoed p buf1 buf2 out len1 len2 out_len n1 n2 a readable real2 size2 some2 fits2 real
      size fits room =
    let w1 = write-Wrote p buf1 len1 n1 true a in
    let w2 = write-Wrote w1.after buf2 len2 n2 false (record {
      mapped = w1.mapped;
      allowed = ap (λ z. z.prot_write) w1.protect_eq ∙ a.allowed;
      real = real2;
      buffer_size = size2;
      some_bytes = some2;
      fits_buffer = fits2;
      fits_mapping = omega (arith, w1.cur_eq, w1.length_eq);
    }) in
    let r = read-Fetched w2.after out out_len (n1 + n2) true (record {
      mapped = w2.mapped;
      allowed = ap (λ z. z.prot_read) (w2.protect_eq ∙ w1.protect_eq) ∙ readable;
      real = real;
      buffer_size = size;
      some_bytes = omega arith;
      fits_buffer = fits;
      fits_mapping = omega (arith, w1.length_eq, w2.length_eq);
    }) in
    record {
      first = w1;
      second = w2;
      last = r;
      front = λ k l.
          r.got k (omega arith)
          ∙ ap (get_elem? w2.after.addr.cells) (omega arith)
          ∙ w2.kept k (inl (omega (arith, w1.cur_eq)))
          ∙ ap (get_elem? w1.after.addr.cells) (omega arith)
          ∙ w1.stored k l;
      back = λ k l.
          r.got (n1 + k) (omega arith)
          ∙ ap (get_elem? w2.after.addr.cells) (omega (arith, w1.cur_eq))
          ∙ w2.stored k l;
    }

pub record Cleared (p : PosixShm) : Type 0 where
  pub after : PosixShm
  pub returns : clear p ≡ ok after
  pub mapped : Mapped after
  pub length_eq : after.length ≡ p.length
  pub at_start : after.cur ≡ 0
  pub zeros : (k : ℕ) → k < p.length → get_elem? after.addr.cells k ≡ some 0

-- `clear` sets every byte to 0 and the cursor to the start.
pub clear-Cleared : (p : PosixShm) → Mapped p → Cleared p
unfolding clear
clear-Cleared p m =
    let f = memset-Filled p.length p.addr.cells 0 0 (omega (arith, m.size)) in
    record {
      after = record p { addr = put_cells p.addr f.after; cur = 0 };
      returns = rw (f.returns) refl;
      mapped = record { size = f.size ∙ m.size; small = m.small; inside = omega arith };
      length_eq = refl;
      at_start = refl;
      zeros = λ k l. ap (get_elem? f.after) (omega arith) ∙ f.filled k l;
    }
