-- ===== src/Commu/Queries.antt =====
-- The queries of `commu` in src/commu.cpp: the attributes of the device and of the port, and the
-- comparison of the transfer unit with the size of the elements.
use rfdts.Base.{◌≤◌, ◌≡◌, ok, refl, ◌∙◌, List, none, inl, inr, leb, ltb, ◌&&◌, Bool-cases, arith}
use rfdts.Commu.Api.{DeviceAttr, PortAttr, Resource, VerbsApi, Answer, answer, no_answer, Asks}
use rfdts.Commu.{
  Commu, Args, zero_device, zero_port, fill_device, fill_port, query_device, query_port, check_mtu,
}
use rfdts.Commu.Release.{object}
use rfdts.Commu.Refusal.{
  Refusal, DeviceAnswer, PortAnswer, no_device_attr, no_such_port, no_port_attr, elements_too_large,
  after_open, after_device, after_attr,
}
use rfdts.Commu.Steps.{
  Stage, goes_on, At, Wreck, undone_at, known, known_members, on_context, using_context,
}

module _ (api : VerbsApi) (args : Args) (start : api.W) where
  open api use {W, resources}

  module _ (rest : List Resource) where
    -- An object after a query, with what was said.
    abbrev pub Queried :
        ((s : Commu × W) → At api rest none none none none s → Type 0) → Commu × W → Type 0
    Queried Said s = (b : At api rest none none none none s) × Said s b

    abbrev pub DeviceOf : (s : Commu × W) → At api rest none none none none s → Type 0
    DeviceOf s b = DeviceAnswer api args start b.d

    abbrev pub PortOf : (s : Commu × W) → At api rest none none none none s → Type 0
    PortOf s b = PortAnswer api args start b.p

  module _ (rest : List Resource) (r : Commu × W) (a : At api rest none none none none r) where
    abbrev with_attrs : DeviceAttr → PortAttr → Commu
    with_attrs d p = object a.h none none none none none d p

    refilled :
        (d : DeviceAttr) (p : PortAttr) (w : W)
        → resources w ≡ resources r.1
        → p.active_mtu ≤ 5
        → At api rest none none none none (with_attrs d p, w)
    refilled d p w same le = record {
      h = a.h;
      d = d;
      p = p;
      c_eq = refl;
      resources_eq = same ∙ a.resources_eq;
      fresh = a.fresh;
      mtu_le = le;
    }

    filled_device :
        (m : Answer W DeviceAttr)
        → Asks resources r.1 m
        → ((d : DeviceAttr) (w' : W) → m ≡ answer d w' → DeviceAnswer api args start d)
        → ((w' : W) → m ≡ no_answer w' → Refusal api args start (with_attrs zero_device a.p, w'))
        → Stage api args start
            (Queried rest (DeviceOf rest))
            (Wreck api none)
            (fill_device api (with_attrs zero_device a.p) m)
    unfolding Wreck refilled
    filled_device (answer d w') same said why =
        goes_on _ refl (refilled d a.p w' same a.mtu_le, said d w' refl)
    filled_device (no_answer w') same said why =
        undone_at api args start (_, w') (why w' refl) (refilled zero_device a.p w' same a.mtu_le)

    pub query_device-Stage :
        after_open api args start ≡ ok r
        → Stage api args start
            (Queried rest (DeviceOf rest))
            (Wreck api none)
            (query_device api r.0 r.1)
    unfolding query_device DeviceAnswer
    query_device-Stage at =
        known api args start (λ c w. query_device api c w) r a
          (on_context api args start
            (λ h. fill_device api (with_attrs zero_device a.p) (api.ibv_query_device_ex h r.1)) r a
            (filled_device _ (api.query_device_lem a.h r.1)
              (λ d w' e. (using_context api args start r a at, w', e))
              (λ w' e. no_device_attr (using_context api args start r a at) w' e)))

    filled_port :
        (m : Answer W PortAttr)
        → Asks resources r.1 m
        → ((p : PortAttr) (w' : W) → m ≡ answer p w' → p.active_mtu ≤ 5)
        → ((p : PortAttr) (w' : W) → m ≡ answer p w' → PortAnswer api args start p)
        → ((w' : W) → m ≡ no_answer w' → Refusal api args start (with_attrs a.d zero_port, w'))
        → Stage api args start
            (Queried rest (PortOf rest))
            (Wreck api none)
            (fill_port api (with_attrs a.d zero_port) m)
    unfolding Wreck refilled
    filled_port (answer p w') same mtu said why =
        goes_on _ refl (refilled a.d p w' same (mtu p w' refl), said p w' refl)
    filled_port (no_answer w') same mtu said why =
        undone_at api args start (_, w') (why w' refl)
          (refilled a.d zero_port w' same (omega arith))

    pub query_port-Stage :
        DeviceAnswer api args start a.d
        → after_device api args start ≡ ok r
        → Stage api args start
            (Queried rest (PortOf rest))
            (Wreck api none)
            (query_port api args r.0 r.1)
    unfolding query_port Wreck PortAnswer
    query_port-Stage said at =
        known api args start (λ c w. query_port api args c w) r a
          (elim (Bool-cases (leb 1 args.ib_port && leb args.ib_port a.d.phys_port_cnt)) [
            | inl there ↦ rw there (
                on_context api args start
                  (λ h.
                    fill_port api (with_attrs a.d zero_port)
                      (api.ibv_query_port h args.ib_port r.1))
                  r a
                  (filled_port _ (api.query_port_lem a.h args.ib_port r.1)
                    (λ p w' e. api.mtu_lem a.h args.ib_port r.1 w' p e)
                    (λ p w' e. (using_context api args start r a at, w', e))
                    (λ w' e.
                      no_port_attr a.d (using_context api args start r a at) w' said there e)))
            | inr missing ↦ rw missing (
                undone_at api args start (_, r.1)
                  (no_such_port a.d _ said (known_members api args start r a at) missing)
                  (refilled a.d zero_port r.1 refl (omega arith)))
          ])

    pub check_mtu-Stage :
        PortAnswer api args start a.p
        → after_attr api args start ≡ ok r
        → Stage api args start
            (λ s. At api rest none none none none s × (args.elesize ≤ 5))
            (Wreck api none)
            (check_mtu api args r.0 r.1)
    unfolding check_mtu Wreck
    check_mtu-Stage said at =
        let same = refilled a.d a.p r.1 refl a.mtu_le in
        known api args start (λ c w. check_mtu api args c w) r a
          (elim (Bool-cases (ltb a.p.active_mtu args.elesize)) [
            | inl below ↦ rw below (
                undone_at api args start (_, r.1)
                  (elements_too_large a.p _ said (known_members api args start r a at)
                    (ground (arith, below)))
                  same)
            | inr fits ↦ rw fits (goes_on (_, r.1) refl (same, ground (arith, fits, a.mtu_le)))
          ])
