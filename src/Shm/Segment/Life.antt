-- ===== src/Shm/Segment/Life.antt =====
-- A shared memory of src/shm.hpp from its constructor on, through a move to its destructor.
use rfdts.Base.{
  ℕ, ◌+◌, ◌^◌, ◌≤◌, ◌<◌, ◌≡◌, refl, sym, ◌∙◌, ap, List, ◌∷◌, Outcome, ok, exited, errno, length,
  ◌⊎◌, inl, inr, ne→==, Array, arith, ◌≢◌, ok_inj, subst,
}
use rfdts.Shm
use rfdts.Shm.Access.{Mapped}
use rfdts.Shm.Segment.{
  ShmApi, Result, done, failed, Segment, Args, construct, destroy, move, opened, truncated,
  mapped_at,
}

module _ (api : ShmApi) where
  open api use {W, descriptors, mappings}

  -- Which call of the constructor fails, and the error that ends the program: the one of that call,
  -- or of the `close` after it.
  pub data Failing (args : Args) (w : W) (o : Outcome (Segment × W)) : Type 0 where
    not_opened :
        (w1 : W)
        → api.shm_open args.name args.oflag args.mode w ≡ failed w1
        → o ≡ exited (errno (api.last_error w1))
        → Failing args w o
    not_truncated :
        (fd : ℕ) (w1 w2 : W)
        → api.shm_open args.name args.oflag args.mode w ≡ done fd w1
        → api.ftruncate fd args.size w1 ≡ failed w2
        → o ≡ exited (errno (api.last_error (api.close fd w2)))
        → Failing args w o
    not_mapped :
        (fd : ℕ) (w1 w2 w3 : W)
        → api.shm_open args.name args.oflag args.mode w ≡ done fd w1
        → api.ftruncate fd args.size w1 ≡ done tt w2
        → api.mmap args.size args.prot args.flags fd args.offset w2 ≡ failed w3
        → o ≡ exited (errno (api.last_error (api.close fd w3)))
        → Failing args w o

  -- What the constructor returns.
  pub record Made (args : Args) (w : W) (o : Outcome (Segment × W)) : Type 0 where
    pub segment : Segment
    pub after : W
    pub returns : o ≡ ok (segment, after)
    pub length_eq : segment.shm.length ≡ args.size
    pub protect_eq : segment.shm.protect ≡ args.prot
    pub cur_eq : segment.shm.cur ≡ 0
    pub real : segment.shm.addr.base ≢ 0
    pub descriptors_eq : descriptors after ≡ segment.fd ∷ descriptors w
    pub mappings_eq : mappings after ≡ (segment.shm.addr.base, args.size) ∷ mappings w

  -- The bytes can be used if the mapping ends before the file, which has the size given.
  abbrev Constructed : Args → W → Outcome (Segment × W) → Type 0
  Constructed args w o =
      Failing args w o
      ⊎ ((m : Made args w o) × (args.offset + args.size ≤ args.size
            → length m.segment.shm.addr.cells ≡ args.size))

  mapped_at-Constructed :
      (args : Args) (w : W) (fd : ℕ) (w1 w2 : W) (r : Result W (Array ℕ))
      → api.shm_open args.name args.oflag args.mode w ≡ done fd w1
      → api.ftruncate fd args.size w1 ≡ done tt w2
      → api.mmap args.size args.prot args.flags fd args.offset w2 ≡ r
      → Constructed args w (mapped_at api args fd r)
  mapped_at-Constructed args w fd w1 w2 (failed w3) e1 e2 e3 =
      inl (not_mapped fd w1 w2 w3 e1 e2 e3 refl)
  mapped_at-Constructed args w fd w1 w2 (done addr w3) e1 e2 e3 =
      let (d1, m1) = api.shm_open_lem args.name args.oflag args.mode w fd w1 e1 in
      let (file, d2, m2) = api.ftruncate_lem fd args.size w1 w2 e2 in
      let (real, size, d3, m3) =
        api.mmap_lem args.size args.prot args.flags fd args.offset w2 addr w3 e3 in
      inr (
        record {
          segment = record {
            name = args.name;
            fd = fd;
            shm = record { addr = addr; length = args.size; cur = 0; protect = args.prot };
          };
          after = w3;
          returns = refl;
          length_eq = refl;
          protect_eq = refl;
          cur_eq = refl;
          real = real;
          descriptors_eq = d3 ∙ d2 ∙ d1;
          mappings_eq = m3 ∙ ap (λ z. (addr.base, args.size) ∷ z) (m2 ∙ m1);
        },
        λ inside. size (subst (λ n. args.offset + args.size ≤ n) (sym file) inside),
      )

  truncated-Constructed :
      (args : Args) (w : W) (fd : ℕ) (w1 : W) (r : Result W (Unit {0}))
      → api.shm_open args.name args.oflag args.mode w ≡ done fd w1
      → api.ftruncate fd args.size w1 ≡ r
      → Constructed args w (truncated api args fd r)
  truncated-Constructed args w fd w1 (failed w2) e1 e2 = inl (not_truncated fd w1 w2 e1 e2 refl)
  truncated-Constructed args w fd w1 (done u w2) e1 e2 =
      mapped_at-Constructed args w fd w1 w2 _ e1 e2 refl

  opened-Constructed :
      (args : Args) (w : W) (r : Result W ℕ)
      → api.shm_open args.name args.oflag args.mode w ≡ r
      → Constructed args w (opened api args r)
  opened-Constructed args w (failed w1) e = inl (not_opened w1 e refl)
  opened-Constructed args w (done fd w1) e = truncated-Constructed args w fd w1 _ e refl

  construct-Constructed : (args : Args) (w : W) → Constructed args w (construct api args w)
  unfolding construct
  construct-Constructed args w = opened-Constructed args w _ refl

  -- A constructor of `posix_shm` with less than 2 ^ 63 bytes and the offset 0 either ends the
  -- program, because `shm_open`, `ftruncate` or `mmap` has failed in this run, with the error
  -- that stands after that call, or after the `close` that follows it; or it returns an object
  -- that `read` and `write` can work on, of the size and the protection given, with its cursor at
  -- the start, and with exactly one more descriptor and one more mapping open than before, the
  -- mapping with the size given.
  pub construct-Made :
      (args : Args) (w : W)
      → args.size < 2 ^ 63
      → args.offset ≡ 0
      → Failing args w (construct api args w)
        ⊎ ((m : Made args w (construct api args w)) × Mapped m.segment.shm)
  construct-Made args w small start = elim (construct-Constructed args w) [
    | inl f ↦ inl f
    | inr (m, bytes) ↦ inr (
      m,
      record {
        size = bytes (omega (arith, start)) ∙ sym m.length_eq;
        small = omega (arith, small, m.length_eq);
        inside = omega (arith, m.cur_eq);
      },
    )
  ]

  destroy_released :
      (s : Segment) (w : W) (ds : List ℕ) (ms : List (ℕ × ℕ))
      → s.shm.addr.base ≢ 0
      → descriptors w ≡ s.fd ∷ ds
      → mappings w ≡ (s.shm.addr.base, s.shm.length) ∷ ms
      → (w' : W) × (destroy api s w ≡ ok w') × (descriptors w' ≡ ds) × (mappings w' ≡ ms)
  unfolding destroy
  destroy_released s w ds ms real d m =
      let (w1, gone, d1, m1) = api.munmap_lem s.shm.addr.base s.shm.length ms w m in
      let (d2, m2) = api.close_lem s.fd ds w1 (d1 ∙ d) in
      let (d3, m3) = api.shm_unlink_lem s.name (api.close s.fd w1) in
      (_, rw (ne→== s.shm.addr.base 0 real, gone) refl, d3 ∙ d2, m3 ∙ m2 ∙ m1)

  moved_rest : (s : Segment) (w : W) → destroy api (move s).1 w ≡ ok w
  unfolding destroy move Shm.move
  moved_rest s w = refl

  moved_first : (s : Segment) → (move s).0 ≡ s
  unfolding move Shm.move
  moved_first s = refl

  -- After a constructor of `posix_shm` and a move, the destructor of the old object does nothing,
  -- and that of the new one leaves open exactly the descriptors and the mappings that were open
  -- before the constructor.
  pub move-destroy :
      (args : Args) (w : W) (s : Segment) (w1 : W)
      → construct api args w ≡ ok (s, w1)
      → (destroy api (move s).1 w1 ≡ ok w1)
        × ((w2 : W) × (destroy api (move s).0 w1 ≡ ok w2)
            × (descriptors w2 ≡ descriptors w)
            × (mappings w2 ≡ mappings w))
  move-destroy args w s w1 e = elim (construct-Constructed args w) [
    | inl (not_opened v x y) ↦ cc
    | inl (not_truncated fd v1 v2 x1 x2 y) ↦ cc
    | inl (not_mapped fd v1 v2 v3 x1 x2 x3 y) ↦ cc
    | inr (m, bytes) ↦
        let same : (m.segment, m.after) ≡ (s, w1) = ok_inj (sym m.returns ∙ e) in
        (
          moved_rest s w1,
          subst
              (λ r.
                (w2 : W) × (destroy api (move (r.0)).0 r.1 ≡ ok w2)
                × (descriptors w2 ≡ descriptors w)
                × (mappings w2 ≡ mappings w))
              same
              (rw (moved_first m.segment) (
                destroy_released m.segment m.after (descriptors w) (mappings w) m.real
                  m.descriptors_eq
                  (m.mappings_eq
                    ∙ ap (λ n. (m.segment.shm.addr.base, n) ∷ mappings w) (sym m.length_eq)))),
        )
  ]
