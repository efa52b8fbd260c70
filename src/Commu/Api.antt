-- ===== src/Commu/Api.antt =====
-- The library libibverbs as src/commu.cpp uses it: a parameter, with what its manual says.
use rfdts.Base.{ℕ, ◌≤◌, ◌≡◌, List, [], ◌∷◌, Bool, true, false, ◌||◌, Option, Errno, ◌==◌}

-- An object of the library that exists, with those that it was created from. The handles are the
-- pointers that the library returned.
pub record Resource : Type 0 where
  pub handle : ℕ
  pub uses : List ℕ

pub record Device : Type 0 where
  pub id : ℕ
  pub name : List ℕ

pub record DeviceAttr : Type 0 where
  pub max_cqe : ℕ
  pub max_qp_wr : ℕ
  pub phys_port_cnt : ℕ

pub record PortAttr : Type 0 where
  pub active_mtu : ℕ

abbrev pub has : ℕ → List ℕ → Bool
has h [] = false
has h (x ∷ xs) = (h == x) || has h xs

abbrev pub live : ℕ → List Resource → Bool
live h [] = false
live h (r ∷ rs) = (h == r.handle) || live h rs

-- Some object was created from `h`.
abbrev pub busy : ℕ → List Resource → Bool
busy h [] = false
busy h (r ∷ rs) = has h r.uses || busy h rs

-- What a call that creates an object, one that releases one, and one that asks returns.
pub data Made (W : Type 0) : Type 0 where
  made : ℕ → W → Made W
  failed : W → Made W

pub data Released (W : Type 0) : Type 0 where
  released : W → Released W
  kept : W → Released W

pub data Answer (W : Type 0) (A : Type 0) : Type 0 where
  answer : A → W → Answer W A
  no_answer : W → Answer W A

-- A new object has a handle of its own; a call that fails creates none.
abbrev pub Creates : {W : Type 0} → (W → List Resource) → W → List ℕ → Made W → Type 0
Creates resources w uses (made h w') =
    (live h (resources w) ≡ false)
    × (resources w' ≡ record { handle = h; uses = uses } ∷ resources w)
Creates resources w uses (failed w') = resources w' ≡ resources w

-- A call may refuse to release an object. One that releases the object created last leaves those
-- from before it.
abbrev pub Frees : {W : Type 0} → (W → List Resource) → (ℕ → W → Released W) → Type 0
Frees {W} resources release =
    (h : ℕ) (uses : List ℕ) (rest : List Resource) (w w' : W)
    → resources w ≡ record { handle = h; uses = uses } ∷ rest
    → release h w ≡ released w'
    → resources w' ≡ rest

abbrev pub Asks : {W A : Type 0} → (W → List Resource) → W → Answer W A → Type 0
Asks resources w (answer a w') = resources w' ≡ resources w
Asks resources w (no_answer w') = resources w' ≡ resources w

pub record VerbsApi : Type 1 where
  -- The state of the library and of the devices.
  pub W : Type 0
  pub resources : W → List Resource
  pub last_error : W → Errno  -- `errno`
  pub ibv_fork_init : W → W
  pub ibv_get_device_list : W → Option (List Device) × W
  pub ibv_free_device_list : W → W
  pub ibv_open_device : Device → W → Made W
  pub ibv_query_device_ex : ℕ → W → Answer W DeviceAttr
  pub ibv_query_port : ℕ → ℕ → W → Answer W PortAttr
  pub ibv_alloc_pd : ℕ → W → Made W
  pub ibv_reg_mr : ℕ → ℕ → ℕ → W → Made W
  pub ibv_create_comp_channel : ℕ → W → Made W
  pub ibv_create_cq : ℕ → ℕ → ℕ → W → Made W
  pub ibv_create_qp : ℕ → ℕ → ℕ → W → Made W
  pub ibv_query_qp : ℕ → W → W
  pub ibv_close_device : ℕ → W → Released W
  pub ibv_dealloc_pd : ℕ → W → Released W
  pub ibv_dereg_mr : ℕ → W → Released W
  pub ibv_destroy_comp_channel : ℕ → W → Released W
  pub ibv_destroy_cq : ℕ → W → Released W
  pub fork_lem : (w : W) → resources (ibv_fork_init w) ≡ resources w
  pub list_lem : (w : W) → resources ((ibv_get_device_list w).1) ≡ resources w
  pub free_lem : (w : W) → resources (ibv_free_device_list w) ≡ resources w
  pub open_lem : (d : Device) (w : W) → Creates resources w [] (ibv_open_device d w)
  pub query_device_lem : (h : ℕ) (w : W) → Asks resources w (ibv_query_device_ex h w)
  pub query_port_lem : (h i : ℕ) (w : W) → Asks resources w (ibv_query_port h i w)
  pub query_qp_lem : (h : ℕ) (w : W) → resources (ibv_query_qp h w) ≡ resources w
  pub alloc_pd_lem : (h : ℕ) (w : W) → Creates resources w (h ∷ []) (ibv_alloc_pd h w)
  pub reg_mr_lem : (h addr len : ℕ) (w : W) → Creates resources w (h ∷ []) (ibv_reg_mr h addr len w)
  pub create_comp_channel_lem :
      (h : ℕ) (w : W) → Creates resources w (h ∷ []) (ibv_create_comp_channel h w)
  pub create_cq_lem :
      (h cqe channel : ℕ) (w : W)
      → Creates resources w (h ∷ channel ∷ []) (ibv_create_cq h cqe channel w)
  pub create_qp_lem :
      (pd cq inline : ℕ) (w : W) → Creates resources w (pd ∷ cq ∷ []) (ibv_create_qp pd cq inline w)
  pub close_device_lem : Frees resources ibv_close_device
  pub dealloc_pd_lem : Frees resources ibv_dealloc_pd
  pub dereg_mr_lem : Frees resources ibv_dereg_mr
  pub destroy_comp_channel_lem : Frees resources ibv_destroy_comp_channel
  pub destroy_cq_lem : Frees resources ibv_destroy_cq
  -- A completion queue that a queue pair uses is not destroyed.
  pub cq_busy :
      (h : ℕ) (w : W) → busy h (resources w) ≡ true → (w' : W) × (ibv_destroy_cq h w ≡ kept w')
  -- `enum ibv_mtu`: 1 for 256 bytes up to 5 for 4096.
  pub mtu_lem :
      (h i : ℕ) (w w' : W) (a : PortAttr) → ibv_query_port h i w ≡ answer a w' → a.active_mtu ≤ 5
