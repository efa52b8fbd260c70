-- ===== src/Commu/Refusal.antt =====
-- How far the constructor of `commu` in src/commu.cpp has come when it does not get what it asks the
-- library for.
use rfdts.Base.{
  ◌<◌, leb, ltb, ◌&&◌, Bool, true, false, ℕ, ◌≡◌, Option, none, some, Outcome, ok, ◌>>=◌,
  if◌then◌else◌,
}
use rfdts.Commu.Api.{VerbsApi, DeviceAttr, PortAttr, answer, no_answer, failed, live}
use rfdts.Commu.{
  Commu, Args, members, points, zero_device, zero_port, open_context, query_device, query_attr,
  check_mtu, alloc_pd, reg_mr, create_comp_channel, create_basic_resource,
}

pub then_ok :
    {A B : Type 0} {o : Outcome A} (f : A → Outcome B) {a : A} {b : B}
    → o ≡ ok a
    → f a ≡ ok b
    → (o >>= f) ≡ ok b
then_ok f e d = rw e d

module _ (api : VerbsApi) (args : Args) (start : api.W) where
  open api use {W, resources}

  -- The constructor up to the call named.
  abbrev pub after_open : Outcome (Commu × W)
  after_open = open_context api args members start

  abbrev pub after_device : Outcome (Commu × W)
  after_device = after_open >>= λ r. query_device api r.0 r.1

  abbrev pub after_attr : Outcome (Commu × W)
  after_attr = after_open >>= λ r. query_attr api args r.0 r.1

  abbrev pub after_mtu : Outcome (Commu × W)
  after_mtu = after_attr >>= λ r. check_mtu api args r.0 r.1

  abbrev pub after_pd : Outcome (Commu × W)
  after_pd = after_mtu >>= λ r. alloc_pd api r.0 r.1

  abbrev pub after_mr : Outcome (Commu × W)
  after_mr = after_pd >>= λ r. reg_mr api args r.0 r.1

  abbrev pub after_channel : Outcome (Commu × W)
  after_channel = after_mr >>= λ r. create_comp_channel api r.0 r.1

  abbrev pub after_basic : Outcome (Commu × W)
  after_basic = after_mtu >>= λ r. create_basic_resource api args r.0 r.1

  -- The constructor has come so far, and a member stands for an object that exists.
  pub record Using (so_far : Outcome (Commu × W)) (member : Commu → Option ℕ) : Type 0 where
    pub now : Commu × W
    pub handle : ℕ
    pub reached : so_far ≡ ok now
    pub handle_eq : member (now.0) ≡ some handle
    pub exists : live handle (resources now.1) ≡ true

  abbrev pub port_exists : DeviceAttr → Bool
  port_exists d = leb 1 args.ib_port && leb args.ib_port d.phys_port_cnt

  -- What the library has said of the device and of the port when the constructor asked.
  unfoldable pub DeviceAnswer : DeviceAttr → Type 0
  DeviceAnswer d =
      (u : Using after_open (λ c. c.context)) × (w : W) × (api.ibv_query_device_ex u.handle u.now.1
        ≡ answer d w)

  unfoldable pub PortAnswer : PortAttr → Type 0
  PortAnswer p =
      (u : Using after_device (λ c. c.context)) × (w : W) × (api.ibv_query_port u.handle
          args.ib_port u.now.1
        ≡ answer p w)

  -- Why the constructor does not get what it asks for, and the object and the state in which it
  -- calls the destructor for that.
  pub data Refusal : Commu × W → Type 0 where
    no_device_attr :
        (u : Using after_open (λ c. c.context)) (w : W)
        → api.ibv_query_device_ex u.handle u.now.1 ≡ no_answer w
        → Refusal (record u.now.0 { device_attr_ex = points zero_device }, w)
    no_such_port :
        (d : DeviceAttr) (r : Commu × W)
        → DeviceAnswer d
        → after_device ≡ ok r
        → port_exists d ≡ false
        → Refusal (record r.0 { port_attr = points zero_port }, r.1)
    no_port_attr :
        (d : DeviceAttr) (u : Using after_device (λ c. c.context)) (w : W)
        → DeviceAnswer d
        → port_exists d ≡ true
        → api.ibv_query_port u.handle args.ib_port u.now.1 ≡ no_answer w
        → Refusal (record u.now.0 { port_attr = points zero_port }, w)
    elements_too_large :
        (p : PortAttr) (r : Commu × W)
        → PortAnswer p
        → after_attr ≡ ok r
        → p.active_mtu < args.elesize
        → Refusal r
    no_pd :
        (u : Using after_mtu (λ c. c.context)) (w : W)
        → api.ibv_alloc_pd u.handle u.now.1 ≡ failed w
        → Refusal (record u.now.0 { pd = none }, w)
    no_mr :
        (u : Using after_pd (λ c. c.pd)) (w : W)
        → api.ibv_reg_mr u.handle args.mrs_addr args.mrs_length u.now.1 ≡ failed w
        → Refusal (record u.now.0 { mr = none }, w)
    no_channel :
        (u : Using after_mr (λ c. c.context)) (w : W)
        → api.ibv_create_comp_channel u.handle u.now.1 ≡ failed w
        → Refusal (record u.now.0 { comp_channel = none }, w)
    no_cq :
        (u : Using after_channel (λ c. c.context)) (d : DeviceAttr) (k : ℕ) (w : W)
        → u.now.0.device_attr_ex ≡ points d
        → u.now.0.comp_channel ≡ some k
        → api.ibv_create_cq u.handle
            (if ltb args.elenum d.max_cqe then args.elenum else d.max_cqe)
            k
            u.now.1
          ≡ failed w
        → Refusal (record u.now.0 { cq = none }, w)
    no_qp :
        (u : Using after_basic (λ c. c.pd)) (p : PortAttr) (q : ℕ) (w : W)
        → u.now.0.port_attr ≡ points p
        → u.now.0.cq ≡ some q
        → api.ibv_create_qp u.handle q p.active_mtu u.now.1 ≡ failed w
        → Refusal (record u.now.0 { qp = none }, w)
