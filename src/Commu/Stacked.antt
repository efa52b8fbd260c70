-- ===== src/Commu/Stacked.antt =====
-- A library as in Commu/Api that keeps its objects on a stack: only the newest one can be released.
use rfdts.Base.{
  ℕ, suc, ◌≤◌, ◌<◌, ◌≡◌, refl, ◌∙◌, sym, ap, subst, List, [], ◌∷◌, Bool, true, false, ◌&&◌, some,
  leb, ◌==◌, eq→==, ne→==, if◌then◌else◌, length, arith, einval, Bool-cases, inl, inr,
}
use rfdts.Commu.Api.{
  Resource, DeviceAttr, PortAttr, VerbsApi, Made, made, failed, Released, released, kept, answer,
  Creates, Frees, has, live, busy,
}

-- For each object, those that it uses. Its handle is its place, from 1.
abbrev Stack : Type 0
Stack = List (List ℕ)

abbrev all_leb : List ℕ → ℕ → Bool
all_leb [] n = true
all_leb (x ∷ xs) n = leb x n && all_leb xs n

abbrev objects : Stack → List Resource
objects [] = []
objects (u ∷ us) =
    record { handle = suc (length us); uses = if all_leb u (length us) then u else [] } ∷ objects us

abbrev create : List ℕ → Stack → Made Stack
create uses w = if all_leb uses (length w) then made (suc (length w)) (uses ∷ w) else failed w

abbrev drop_newest : ℕ → Stack → Released Stack
drop_newest h [] = kept []
drop_newest h (u ∷ us) = if h == suc (length us) then released us else kept (u ∷ us)

has_newer : (n k : ℕ) (u : List ℕ) → all_leb u n ≡ true → n < k → has k u ≡ false
has_newer n k [] e h = refl
has_newer n k (x ∷ xs) e h = elim (Bool-cases (all_leb xs n)) [
  | inl l ↦ let rest = has_newer n k xs l h in ground (arith, e, h, rest)
  | inr l ↦ absurd (ground (arith, e, l))
]

live_newer : (k : ℕ) (w : Stack) → length w < k → live k (objects w) ≡ false
live_newer k [] h = refl
live_newer k (u ∷ us) h =
    let rest = live_newer k us (omega arith) in
    rw (ne→== k (suc (length us)) (λ e. omega (arith, e, h)), rest) refl

busy_newer : (k : ℕ) (w : Stack) → length w ≤ k → 0 < k → busy k (objects w) ≡ false
busy_newer k [] h z = refl
busy_newer k (u ∷ us) h z =
    let rest = busy_newer k us (omega arith) z in
    elim (Bool-cases (all_leb u (length us))) [
      | inl l ↦ rw (l, has_newer (length us) k u l (omega arith), rest) refl
      | inr l ↦ rw (l, rest) refl
    ]

pub create-Creates : (uses : List ℕ) (w : Stack) → Creates objects w uses (create uses w)
create-Creates uses w = elim (Bool-cases (all_leb uses (length w))) [
  | inl l ↦ rw l (live_newer (suc (length w)) w (omega arith), rw l refl)
  | inr l ↦ rw l refl
]

pub drop_newest-Frees : Frees objects drop_newest
drop_newest-Frees h uses rest [] w' e d = absurd (cc e)
drop_newest-Frees h uses rest (u ∷ us) w' e d =
    let same : h ≡ suc (length us) = cc e in
    let test = eq→== h (suc (length us)) same in
    let popped : released us ≡ released w' = rw (← d) (rw test refl) in
    ap objects (sym (released_inj popped)) ∙ cc e
  where
    released_inj : {v v' : Stack} → released v ≡ released v' → v ≡ v'
    released_inj x = cc x

pub drop_newest-busy :
    (h : ℕ) (w : Stack) → busy h (objects w) ≡ true → (w' : Stack) × (drop_newest h w ≡ kept w')
drop_newest-busy h [] e = absurd (cc e)
drop_newest-busy h (u ∷ us) e = elim (Bool-cases (h == suc (length us))) [
  | inl l ↦
      let same : h ≡ suc (length us) = ground (arith, l) in
      absurd (cc (e, busy_newer h (u ∷ us) (omega (arith, same)) (omega (arith, same))))
  | inr l ↦ (u ∷ us, rw l refl)
]

abbrev pub some_device : DeviceAttr
some_device = record { max_cqe = 100; max_qp_wr = 50; phys_port_cnt = 2 }

abbrev pub some_port : PortAttr
some_port = record { active_mtu = 5 }

pub some_port-mtu :
    (w w' : Stack) (a : PortAttr) → answer some_port w ≡ answer a w' → a.active_mtu ≤ 5
some_port-mtu w w' a e =
    let same : some_port ≡ a = cc e in subst (λ z. z.active_mtu ≤ 5) same (omega arith)

-- One device, named "a", whose transfer unit is of 4096 bytes.
abbrev pub stacked : VerbsApi
stacked = record {
  W = Stack;
  resources = objects;
  last_error = λ w. einval;
  ibv_fork_init = λ w. w;
  ibv_get_device_list = λ w. (some (record { id = 0; name = 97 ∷ [] } ∷ []), w);
  ibv_free_device_list = λ w. w;
  ibv_open_device = λ d w. create [] w;
  ibv_query_device_ex = λ h w. answer some_device w;
  ibv_query_port = λ h i w. answer some_port w;
  ibv_alloc_pd = λ h w. create (h ∷ []) w;
  ibv_reg_mr = λ h addr len w. create (h ∷ []) w;
  ibv_create_comp_channel = λ h w. create (h ∷ []) w;
  ibv_create_cq = λ h cqe channel w. create (h ∷ channel ∷ []) w;
  ibv_create_qp = λ pd cq inline w. create (pd ∷ cq ∷ []) w;
  ibv_query_qp = λ h w. w;
  ibv_close_device = drop_newest;
  ibv_dealloc_pd = drop_newest;
  ibv_dereg_mr = drop_newest;
  ibv_destroy_comp_channel = drop_newest;
  ibv_destroy_cq = drop_newest;
  fork_lem = λ w. refl;
  list_lem = λ w. refl;
  free_lem = λ w. refl;
  open_lem = λ d w. create-Creates [] w;
  query_device_lem = λ h w. refl;
  query_port_lem = λ h i w. refl;
  query_qp_lem = λ h w. refl;
  alloc_pd_lem = λ h w. create-Creates (h ∷ []) w;
  reg_mr_lem = λ h addr len w. create-Creates (h ∷ []) w;
  create_comp_channel_lem = λ h w. create-Creates (h ∷ []) w;
  create_cq_lem = λ h cqe channel w. create-Creates (h ∷ channel ∷ []) w;
  create_qp_lem = λ pd cq inline w. create-Creates (pd ∷ cq ∷ []) w;
  close_device_lem = drop_newest-Frees;
  dealloc_pd_lem = drop_newest-Frees;
  dereg_mr_lem = drop_newest-Frees;
  destroy_comp_channel_lem = drop_newest-Frees;
  destroy_cq_lem = drop_newest-Frees;
  cq_busy = drop_newest-busy;
  mtu_lem = λ h i w w' a e. some_port-mtu w w' a e;
}
