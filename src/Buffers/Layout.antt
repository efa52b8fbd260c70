-- ===== src/Buffers/Layout.antt =====
-- The layout that the constructors set up and that no later operation changes.
use rfdts.Base.{
  ℕ, suc, ◌+◌, ◌*◌, ◌^◌, ◌≤◌, ◌<◌, ◌≡◌, refl, ◌∙◌, sym, none, some, ok, fault, arith, length,
  get_elem?, set, length-set, length-replicate, get_elem?-some, get_elem?-set_self,
  get_elem?-set_ne, read_lem, store_lem, put_cells,
}
use native.Mathlib.Decide.{ℕ_discrete}
use rfdts.Base.Words.{u32, u64}
use rfdts.Buffers.{
  Buffers, Bases, Sge, WorkRequest, Opcode, element_addr, initial_buffers, prepare, stamp,
}

-- Work request `j` describes element `j` alone.
pub record Describes (j : ℕ) (w : WorkRequest) : Type 0 where
  pub alone : w.next ≡ none
  pub entry : w.sg_list ≡ some j
  pub single : w.num_sge ≡ 1

-- The first `m` elements are laid out.
pub record Laid (m : ℕ) (b : Buffers) : Type 0 where
  pub wrs_size : length b.wrs.cells ≡ b.elenum
  pub sg_size : length b.sg_lists.cells ≡ b.elenum
  pub sge :
      (j : ℕ)
      → j < m
      → get_elem? b.sg_lists.cells j
        ≡ some (record { addr = element_addr b j; length = u32 b.elesize })
  pub wr : (j : ℕ) (w : WorkRequest) → j < m → get_elem? b.wrs.cells j ≡ some w → Describes j w

-- `b'` is `b` but for the work requests, the entries and the id counter.
pub record SameShape (b b' : Buffers) : Type 0 where
  pub elesize_eq : b'.elesize ≡ b.elesize
  pub elenum_eq : b'.elenum ≡ b.elenum
  pub length_eq : b'.length ≡ b.length
  pub addr_eq : b'.addr ≡ b.addr

pub SameShape-refl : (b : Buffers) → SameShape b b
SameShape-refl b = record { elesize_eq = refl; elenum_eq = refl; length_eq = refl; addr_eq = refl }

pub SameShape-trans : {a b c : Buffers} → SameShape a b → SameShape b c → SameShape a c
SameShape-trans p q = record {
  elesize_eq = q.elesize_eq ∙ p.elesize_eq;
  elenum_eq = q.elenum_eq ∙ p.elenum_eq;
  length_eq = q.length_eq ∙ p.length_eq;
  addr_eq = q.addr_eq ∙ p.addr_eq;
}

pub initial-Laid :
    (elesize elenum : ℕ) (bases : Bases) → Laid 0 (initial_buffers elesize elenum bases)
unfolding initial_buffers
initial-Laid elesize elenum bases = record {
  wrs_size = length-replicate elenum _;
  sg_size = length-replicate elenum _;
  sge = λ j h. elim h [ ];
  wr = λ j w h e. elim h [ ];
}

abbrev pub Prepared : (Opcode → Opcode) → Buffers → ℕ → Type 0
Prepared opcode b i =
    (b' : Buffers) × (prepare opcode b i ≡ ok b')
    × SameShape b b'
    × Laid (suc i) b'
    × (b'.wr_id ≡ b.wr_id)

-- Preparing the next element succeeds and lays it out.
pub prepare-Laid :
    (opcode : Opcode → Opcode) (b : Buffers) (i : ℕ) → i < b.elenum → Laid i b → Prepared opcode b i
unfolding prepare
prepare-Laid opcode b i h l =
    let (s, es) = get_elem?-some b.sg_lists.cells i (omega (arith, l.sg_size)) in
    let (w, ew) = get_elem?-some b.wrs.cells i (omega (arith, l.wrs_size)) in
    (
      record b {
        wrs = put_cells b.wrs (set b.wrs.cells i (made w));
        sg_lists = put_cells b.sg_lists (set b.sg_lists.cells i there);
      },
      rw
          (
            read_lem b.sg_lists.cells i es,
            store_lem b.sg_lists i there (omega (arith, l.sg_size)),
            read_lem b.wrs.cells i ew,
            store_lem b.wrs i (made w) (omega (arith, l.wrs_size)),
          )
          refl,
      record { elesize_eq = refl; elenum_eq = refl; length_eq = refl; addr_eq = refl },
      record {
        wrs_size = length-set b.wrs.cells i (made w) ∙ l.wrs_size;
        sg_size = length-set b.sg_lists.cells i there ∙ l.sg_size;
        sge = λ j p. elim (ℕ_discrete i j) [
          | yes e ↦
              rw (← e) (get_elem?-set_self b.sg_lists.cells i there (omega (arith, l.sg_size)))
          | no d ↦ get_elem?-set_ne b.sg_lists.cells i j there d ∙ l.sge j (omega arith)
        ];
        wr = λ j v p e. elim (ℕ_discrete i j) [
          | yes q ↦ described w j v q e
          | no d ↦ l.wr j v (omega arith) (sym (get_elem?-set_ne b.wrs.cells i j (made w) d) ∙ e)
        ];
      },
      refl,
    )
  where
    there : Sge
    there = record { addr = element_addr b i; length = u32 b.elesize }

    made : WorkRequest → WorkRequest
    made w = record w { next = none; sg_list = some i; num_sge = 1; opcode = opcode w.opcode }

    described :
        (w : WorkRequest) (j : ℕ) (v : WorkRequest)
        → i ≡ j
        → get_elem? (set b.wrs.cells i (made w)) j ≡ some v
        → Describes j v
    described w j v q e = ground (arith, get_elem?-set_self b.wrs.cells i (made w), l.wrs_size)

abbrev pub Stamped : ℕ → Buffers → ℕ → Type 0
Stamped m b i =
    (b' : Buffers) × (stamp b (some i) ≡ ok b')
    × SameShape b b'
    × Laid m b'
    × (b'.wr_id ≡ u64 (b.wr_id + 1))
    × ((w : WorkRequest) × (get_elem? b'.wrs.cells i ≡ some w) × (w.wr_id ≡ b'.wr_id))

-- Stamping a work request of the pool succeeds, and changes its id alone.
pub stamp-Laid : (m : ℕ) (b : Buffers) (i : ℕ) → i < b.elenum → Laid m b → Stamped m b i
unfolding stamp
stamp-Laid m b i h l =
    let (w, ew) = get_elem?-some b.wrs.cells i (omega (arith, l.wrs_size)) in
    (
      record b { wrs = put_cells b.wrs (set b.wrs.cells i (made w)); wr_id = id },
      rw (read_lem b.wrs.cells i ew, store_lem b.wrs i (made w) (omega (arith, l.wrs_size))) refl,
      record { elesize_eq = refl; elenum_eq = refl; length_eq = refl; addr_eq = refl },
      record {
        wrs_size = length-set b.wrs.cells i (made w) ∙ l.wrs_size;
        sg_size = l.sg_size;
        sge = l.sge;
        wr = λ j v p e. elim (ℕ_discrete i j) [
          | yes q ↦ described w j v q p ew e
          | no d ↦ l.wr j v p (sym (get_elem?-set_ne b.wrs.cells i j (made w) d) ∙ e)
        ];
      },
      refl,
      (made w, get_elem?-set_self b.wrs.cells i (made w) (omega (arith, l.wrs_size)), refl),
    )
  where
    id : ℕ
    id = u64 (b.wr_id + 1)

    made : WorkRequest → WorkRequest
    made w = record w { wr_id = id }

    described :
        (w : WorkRequest) (j : ℕ) (v : WorkRequest)
        → i ≡ j
        → j < m
        → get_elem? b.wrs.cells i ≡ some w
        → get_elem? (set b.wrs.cells i (made w)) j ≡ some v
        → Describes j v
    described w j v q p ew e =
        ground (arith, get_elem?-set_self b.wrs.cells i (made w), l.wrs_size, l.wr i w)

pub stamp_null : (b : Buffers) → stamp b none ≡ fault
unfolding stamp
stamp_null b = refl

-- The region does not reach past the address space, and an element fits an entry's length field.
pub record Fits (b : Buffers) : Type 0 where
  pub length_eq : b.length ≡ b.elesize * b.elenum
  pub in_space : b.addr + b.elesize * b.elenum < 2 ^ 64
  pub entry_fits : b.elesize < 2 ^ 32

element_addr_lem :
    (b : Buffers) (i : ℕ) → Fits b → i < b.elenum → element_addr b i ≡ b.addr + b.elesize * i
element_addr_lem b i f h = ground (arith, below i h, f.in_space)
  where
    below : (i : ℕ) → i < b.elenum → b.elesize * i + b.elesize ≤ b.elesize * b.elenum
    below i h = grind arith

-- In laid out buffers that fit the address space, with elements of fewer than 2 ^ 32 bytes and a
-- length that is theirs together, the scatter-gather regions of two elements lie in the pool's
-- region, in order and without overlap.
pub regions_disjoint :
    (b : Buffers) (i j : ℕ) (s t : Sge)
    → Laid b.elenum b
    → Fits b
    → i < j
    → j < b.elenum
    → get_elem? b.sg_lists.cells i ≡ some s
    → get_elem? b.sg_lists.cells j ≡ some t
    → (b.addr ≤ s.addr) × (s.addr + s.length ≤ t.addr) × (t.addr + t.length ≤ b.addr + b.length)
regions_disjoint b i j s t l f h k es et = ground (
  arith,
  l.sge i,
  l.sge j,
  element_addr_lem b i f,
  element_addr_lem b j f,
  f.length_eq,
  f.entry_fits,
  before i j h,
  before j b.elenum k,
)
  where
    before : (i j : ℕ) → i < j → b.elesize * i + b.elesize ≤ b.elesize * j
    before i j h = grind arith
