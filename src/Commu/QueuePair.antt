-- ===== src/Commu/QueuePair.antt =====
-- The queue pair, which the constructor of `commu` in src/commu.cpp creates last.
use rfdts.Base.{ℕ, ◌≡◌, refl, ◌∙◌, sym, ap, subst, List, [], ◌∷◌, ◌++◌, true, Option, some, ok}
use rfdts.Commu.Api.{DeviceAttr, PortAttr, Resource, VerbsApi, live}
use rfdts.Commu.{Commu, Args, with_handle, stored, create_qp}
use rfdts.Commu.Release.{object, entries, entry, handles, live_first, with_handle_live}
use rfdts.Commu.Refusal.{no_qp, after_basic}
use rfdts.Commu.Steps.{chain, Stage, goes_on, At, Wreck, known}
use rfdts.Commu.Creation.{stored_Stage, same_objects, extended, on_pd, using_pd}

module _ (api : VerbsApi) where
  open api use {W, resources}

  -- An object with everything that the constructor makes, which stands over what was there before.
  pub record Complete (rest : List Resource) (r : Commu × W) : Type 0 where
    pub context : ℕ
    pub pd : ℕ
    pub mr : ℕ
    pub channel : ℕ
    pub cq : ℕ
    pub qp : ℕ
    pub d : DeviceAttr
    pub p : PortAttr
    pub c_eq : r.0 ≡ object context (some pd) (some mr) (some channel) (some cq) (some qp) d p
    pub resources_eq :
        resources r.1
        ≡ record { handle = qp; uses = pd ∷ cq ∷ [] }
          ∷ entries context (some pd) (some mr) (some channel) (some cq) rest

module _ (api : VerbsApi) (args : Args) (start : api.W) where
  open api use {W, resources}

  asked :
      {rest : List Resource} (s : Commu × W)
      → Complete api rest s
      → Stage api args start
          (Complete api rest)
          (λ s. ⊥)
          (with_handle api s.0.qp s.1 (λ h. ok (s.0, api.ibv_query_qp h s.1)))
  asked {rest} s c =
      let there : live c.qp (resources s.1) ≡ true = rw c.resources_eq (
        live_first c.qp (c.pd ∷ c.cq ∷ [])
          (entries c.context (some c.pd) (some c.mr) (some c.channel) (some c.cq) rest)) in
      goes_on (s.0, api.ibv_query_qp c.qp s.1) (rw (ap (λ z. z.qp) c.c_eq, there) refl)
        (record {
          context = c.context;
          pd = c.pd;
          mr = c.mr;
          channel = c.channel;
          cq = c.cq;
          qp = c.qp;
          d = c.d;
          p = c.p;
          c_eq = c.c_eq;
          resources_eq = api.query_qp_lem c.qp s.1 ∙ c.resources_eq;
        })

  pub create_qp-Stage :
      {rest : List Resource} {pd mr k q : ℕ} (r : Commu × W)
      → At api rest (some pd) (some mr) (some k) (some q) r
      → after_basic api args start ≡ ok r
      → Stage api args start (Complete api rest) (λ s. ⊥) (create_qp api r.0 r.1)
  unfolding create_qp Wreck
  create_qp-Stage {rest} {pd} {mr} {k} {q} r a at =
      let set_member : Option ℕ → Commu =
        λ x. object a.h (some pd) (some mr) (some k) (some q) x a.d a.p in
      let cq_live : live q (resources r.1) ≡ true = rw a.resources_eq (
        live_first q (a.h ∷ k ∷ []) (
          entry (some k) (a.h ∷ [])
          ++ (entry (some mr) (handles (some pd))
              ++ (entry (some pd) (a.h ∷ []) ++ record { handle = a.h; uses = [] } ∷ rest)))) in
      known api args start (λ c w. create_qp api c w) r a
        (chain api args start
          (with_handle api (some pd) r.1 (λ d.
            with_handle api (some q) r.1
              (λ q. stored api set_member (api.ibv_create_qp d q a.p.active_mtu r.1))))
          (λ s. with_handle api s.0.qp s.1 (λ h. ok (s.0, api.ibv_query_qp h s.1)))
          (on_pd api args start
            (λ d.
              with_handle api (some q) r.1
                (λ q. stored api set_member (api.ibv_create_qp d q a.p.active_mtu r.1)))
            r a
            (subst (Stage api args start (Complete api rest) (Wreck api (some pd)))
              (sym (
                with_handle_live api q r.1
                  (λ q. stored api set_member (api.ibv_create_qp pd q a.p.active_mtu r.1)) cq_live))
              (stored_Stage api args start set_member r.1 (pd ∷ q ∷ []) _
                (api.create_qp_lem pd q a.p.active_mtu r.1)
                (λ x w' e. record {
                  context = a.h;
                  pd = pd;
                  mr = mr;
                  channel = k;
                  cq = q;
                  qp = x;
                  d = a.d;
                  p = a.p;
                  c_eq = refl;
                  resources_eq = extended api args start r a e;
                })
                (same_objects api args start r a)
                (λ w' e. no_qp (using_pd api args start r a at) a.p q w' refl refl e))))
          (λ s d c. asked s c) (λ s b. rw b.2 refl))
