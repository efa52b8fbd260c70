-- ===== src/Commu.antt =====
-- `commu` of src/commu.cpp: a connection's objects in libibverbs, their creation by the constructor
-- and their release by the destructor, which the constructor's functions call when a call fails.
pub mod Api
pub mod Release
pub mod Refusal
pub mod Steps
pub mod Queries
pub mod Creation
pub mod QueuePair
pub mod Chained
pub mod SetUp
pub mod Stacked
pub mod Transfer
mod Tests
use rfdts.Base.{
  ℕ, List, [], ◌∷◌, Bool, true, false, ◌&&◌, Option, none, some, Outcome, ok, exited, fault, errno,
  einval, ◌>>=◌, ltb, leb, ◌==◌, if◌then◌else◌,
}
use rfdts.Commu.Api.{
  Device, DeviceAttr, PortAttr, VerbsApi, Made, made, failed, Released, released, kept, Answer,
  answer, no_answer, live,
}

-- A pointer to a block that `new` returned and the destructor deletes.
pub data Pointer (A : Type 0) : Type 0 where
  deleted : Pointer A
  points : A → Pointer A

-- What the constructor sets: `none` is a null pointer.
pub record Commu : Type 0 where
  pub context : Option ℕ
  pub comp_channel : Option ℕ
  pub cq : Option ℕ
  pub pd : Option ℕ
  pub qp : Option ℕ
  pub mr : Option ℕ
  pub device_attr_ex : Pointer DeviceAttr
  pub port_attr : Pointer PortAttr

-- What the constructor reads of the transmission parameters and of the pool of work requests.
pub record Args : Type 0 where
  pub dev_name : Option (List ℕ)
  pub ib_port : ℕ
  pub elenum : ℕ
  pub elesize : ℕ
  pub mrs_addr : ℕ
  pub mrs_length : ℕ

abbrev pub zero_device : DeviceAttr
zero_device = record { max_cqe = 0; max_qp_wr = 0; phys_port_cnt = 0 }

abbrev pub zero_port : PortAttr
zero_port = record { active_mtu = 0 }

abbrev pub members : Commu
members = record {
  context = none;
  comp_channel = none;
  cq = none;
  pd = none;
  qp = none;
  mr = none;
  device_attr_ex = points zero_device;
  port_attr = points zero_port;
}

abbrev pub same_name : List ℕ → List ℕ → Bool
same_name [] [] = true
same_name [] (y ∷ ys) = false
same_name (x ∷ xs) [] = false
same_name (x ∷ xs) (y ∷ ys) = (x == y) && same_name xs ys

-- The first device of the list with the name.
abbrev pub find_device : List ℕ → List Device → Option Device
find_device name [] = none
find_device name (d ∷ ds) =
    let rest = find_device name ds in if same_name d.name name then some d else rest

-- `*p`
abbrev pub deref : {A : Type 0} → Pointer A → Outcome A
deref deleted = fault
deref (points a) = ok a

-- `if (p) delete p;`
abbrev pub delete : {A : Type 0} → Pointer A → Outcome (Pointer A)
delete deleted = fault
delete (points a) = ok deleted

module _ (api : VerbsApi) where
  open api use {
    W, resources, last_error, ibv_fork_init, ibv_get_device_list, ibv_free_device_list,
    ibv_open_device, ibv_query_device_ex, ibv_query_port, ibv_alloc_pd, ibv_reg_mr,
    ibv_create_comp_channel, ibv_create_cq, ibv_create_qp, ibv_query_qp, ibv_close_device,
    ibv_dealloc_pd, ibv_dereg_mr, ibv_destroy_comp_channel, ibv_destroy_cq,
  }

  -- A call of the library uses the object that a handle stands for.
  abbrev pub with_handle : {A : Type 0} → Option ℕ → W → (ℕ → Outcome A) → Outcome A
  with_handle none w f = fault
  with_handle (some h) w f = if live h (resources w) then f h else fault

  abbrev pub or_exit : Released W → Outcome W
  or_exit (released w) = ok w
  or_exit (kept w) = exited (errno (last_error w))

  -- `if (__x && ibv_release(__x)) PEIE(...);`
  abbrev pub release : (ℕ → W → Released W) → Option ℕ → W → Outcome W
  release f none w = ok w
  release f (some h) w = if live h (resources w) then or_exit (f h w) else fault

  -- The destructor. It sets no member, but what the pointers stand for is gone.
  unfoldable pub destroy : Commu → W → Outcome (Commu × W)
  destroy c w = do
    w ← release ibv_destroy_cq c.cq w
    w ← release ibv_destroy_comp_channel c.comp_channel w
    w ← release ibv_dereg_mr c.mr w
    w ← release ibv_dealloc_pd c.pd w
    port_attr ← delete c.port_attr
    device_attr_ex ← delete c.device_attr_ex
    w ← release ibv_close_device c.context w
    ok (record c { device_attr_ex = device_attr_ex; port_attr = port_attr }, w)

  -- `ibv_open_device`, and the list of devices given back.
  abbrev pub opened : Commu → Made W → Outcome (Commu × W)
  opened c (made h w) = ok (record c { context = some h }, ibv_free_device_list w)
  opened c (failed w) = exited (errno (last_error (ibv_free_device_list w)))

  abbrev pub open_found : Commu → Option Device → W → Outcome (Commu × W)
  open_found c none w = exited (errno einval)
  open_found c (some d) w = opened c (ibv_open_device d w)

  abbrev pub open_listed : Option (List ℕ) → Commu → Option (List Device) → W → Outcome (Commu × W)
  open_listed name c none w = exited (errno (last_error w))
  open_listed name c (some []) w = exited (errno (last_error w))
  open_listed none c (some (d ∷ ds)) w = opened c (ibv_open_device d w)
  open_listed (some name) c (some (d ∷ ds)) w = open_found c (find_device name (d ∷ ds)) w

  unfoldable pub open_context : Args → Commu → W → Outcome (Commu × W)
  open_context args c w =
      let listed = ibv_get_device_list (ibv_fork_init w) in
      open_listed args.dev_name c (listed.0) (listed.1)

  abbrev pub fill_device : Commu → Answer W DeviceAttr → Outcome (Commu × W)
  fill_device c (answer a w) = ok (record c { device_attr_ex = points a }, w)
  fill_device c (no_answer w) = destroy c w

  abbrev pub fill_port : Commu → Answer W PortAttr → Outcome (Commu × W)
  fill_port c (answer a w) = ok (record c { port_attr = points a }, w)
  fill_port c (no_answer w) = destroy c w

  -- The memory is set to zero, then filled in.
  unfoldable pub query_device : Commu → W → Outcome (Commu × W)
  query_device c w = do
    a ← deref c.device_attr_ex
    let c = record c { device_attr_ex = points zero_device }
    with_handle c.context w (λ h. fill_device c (ibv_query_device_ex h w))

  unfoldable pub query_port : Args → Commu → W → Outcome (Commu × W)
  query_port args c w = do
    p ← deref c.port_attr
    let c = record c { port_attr = points zero_port }
    a ← deref c.device_attr_ex
    if leb 1 args.ib_port && leb args.ib_port a.phys_port_cnt
        then with_handle c.context w (λ h. fill_port c (ibv_query_port h args.ib_port w))
        else destroy c w

  unfoldable pub query_attr : Args → Commu → W → Outcome (Commu × W)
  query_attr args c w = do (c, w) ← query_device c w; query_port args c w

  unfoldable pub check_mtu : Args → Commu → W → Outcome (Commu × W)
  check_mtu args c w = do
    p ← deref c.port_attr
    if ltb p.active_mtu args.elesize then destroy c w else ok (c, w)

  -- The new object is stored, or nothing is and the destructor called.
  abbrev pub stored : (Option ℕ → Commu) → Made W → Outcome (Commu × W)
  stored set_member (made h w) = ok (set_member (some h), w)
  stored set_member (failed w) = destroy (set_member none) w

  unfoldable pub alloc_pd : Commu → W → Outcome (Commu × W)
  alloc_pd c w = with_handle c.context w (λ h. stored (λ x. record c { pd = x }) (ibv_alloc_pd h w))

  unfoldable pub reg_mr : Args → Commu → W → Outcome (Commu × W)
  reg_mr args c w =
      with_handle c.pd w
        (λ h. stored (λ x. record c { mr = x }) (ibv_reg_mr h args.mrs_addr args.mrs_length w))

  unfoldable pub create_comp_channel : Commu → W → Outcome (Commu × W)
  create_comp_channel c w =
      with_handle c.context w
        (λ h. stored (λ x. record c { comp_channel = x }) (ibv_create_comp_channel h w))

  -- As many entries as there are elements, up to the device's limit.
  unfoldable pub create_cq : Args → Commu → W → Outcome (Commu × W)
  create_cq args c w = do
    a ← deref c.device_attr_ex
    let cqe = if ltb args.elenum a.max_cqe then args.elenum else a.max_cqe
    with_handle c.context w (λ h.
        with_handle c.comp_channel w
          (λ k. stored (λ x. record c { cq = x }) (ibv_create_cq h cqe k w)))

  unfoldable pub create_basic_resource : Args → Commu → W → Outcome (Commu × W)
  create_basic_resource args c w = do
    (c, w) ← alloc_pd c w
    (c, w) ← reg_mr args c w
    (c, w) ← create_comp_channel c w
    create_cq args c w

  unfoldable pub create_qp : Commu → W → Outcome (Commu × W)
  create_qp c w = do
    p ← deref c.port_attr
    (c, w) ← with_handle c.pd w (λ d.
        with_handle c.cq w
          (λ q. stored (λ x. record c { qp = x }) (ibv_create_qp d q p.active_mtu w)))
    with_handle c.qp w (λ h. ok (c, ibv_query_qp h w))

  -- The objects for attributes are at addresses that nothing here depends on.
  unfoldable pub construct : Args → W → Outcome (Commu × W)
  construct args w = do
    (c, w) ← open_context args members w
    (c, w) ← query_attr args c w
    (c, w) ← check_mtu args c w
    (c, w) ← create_basic_resource args c w
    create_qp c w
