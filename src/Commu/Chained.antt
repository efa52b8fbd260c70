-- ===== src/Commu/Chained.antt =====
-- The functions that the constructor of `commu` in src/commu.cpp calls, one after the other.
use rfdts.Base.{ℕ, ◌≤◌, ◌≡◌, refl, List, Option, none, some, ok, fault, ◌>>=◌}
use rfdts.Commu.Api.{Resource, VerbsApi}
use rfdts.Commu.{
  query_device, Commu, Args, query_port, query_attr, check_mtu, alloc_pd, reg_mr,
  create_comp_channel, create_cq, create_basic_resource, create_qp,
}
use rfdts.Commu.Release.{Broken, context_gone}
use rfdts.Commu.Refusal.{
  then_ok, after_open, after_attr, after_mtu, after_pd, after_mr, after_channel, after_basic,
}
use rfdts.Commu.Steps.{Stage, ends, faults, goes_on, leaves, chain, At, Wreck}
use rfdts.Commu.Queries.{Queried, PortOf, query_device-Stage, query_port-Stage, check_mtu-Stage}
use rfdts.Commu.Creation.{alloc_pd-Stage, reg_mr-Stage, create_comp_channel-Stage, create_cq-Stage}
use rfdts.Commu.QueuePair.{create_qp-Stage, Complete}

module _ (api : VerbsApi) (args : Args) (start : api.W) where
  open api use {W, resources}

  query_attr-Stage :
      {rest : List Resource} (r : Commu × W)
      → At api rest none none none none r
      → after_open api args start ≡ ok r
      → Stage api args start
          (Queried api args start rest (PortOf api args start rest))
          (Wreck api none)
          (query_attr api args r.0 r.1)
  unfolding query_attr Wreck query_port
  query_attr-Stage {rest} r a at =
      chain api args start (query_device api r.0 r.1) (λ s. query_port api args s.0 s.1)
        (query_device-Stage api args start rest r a at)
        (λ s e b. query_port-Stage api args start rest s b.0 b.1 (then_ok _ at e))
        (λ s b. rw (b.0.no_port) refl)

  -- Everything but the queue pair.
  abbrev Based : List Resource → Commu × W → Type 0
  Based rest s = (d m k q : ℕ) × At api rest (some d) (some m) (some k) (some q) s

  create_cq-Based :
      {rest : List Resource} (d m k : ℕ) (u : Commu × W)
      → At api rest (some d) (some m) (some k) none u
      → after_channel api args start ≡ ok u
      → Stage api args start (Based rest) (Broken api) (create_cq api args u.0 u.1)
  unfolding Wreck
  create_cq-Based d m k u e at = elim (create_cq-Stage api args start u e at) [
    | ends s e why y x ↦ ends s e why y x
    | faults s t why y x ↦ faults s t why y x
    | goes_on s x (q, b) ↦ goes_on s x (d, m, k, q, b)
    | leaves s t why y x w ↦ leaves s t why y x w.0
  ]

  create_cq-Wreck :
      (pd : Option ℕ) (u : Commu × W) → Wreck api pd u → create_cq api args u.0 u.1 ≡ fault
  unfolding create_cq Wreck
  create_cq-Wreck pd u w = rw (w.0.no_device) refl

  create_comp_channel-Wreck :
      (pd : Option ℕ) (t : Commu × W) → Wreck api pd t → create_comp_channel api t.0 t.1 ≡ fault
  unfolding create_comp_channel Wreck
  create_comp_channel-Wreck pd t w = context_gone api t _ w.0

  reg_mr-Wreck : (s : Commu × W) → Wreck api none s → reg_mr api args s.0 s.1 ≡ fault
  unfolding reg_mr Wreck
  reg_mr-Wreck s w = rw w.1 refl

  create_basic_resource-Stage :
      {rest : List Resource} (r : Commu × W)
      → At api rest none none none none r
      → after_mtu api args start ≡ ok r
      → Stage api args start (Based rest) (Broken api) (create_basic_resource api args r.0 r.1)
  unfolding create_basic_resource
  create_basic_resource-Stage {rest} r a at =
      chain api args start (alloc_pd api r.0 r.1)
        (λ s. reg_mr api args s.0 s.1 >>= λ t.
          create_comp_channel api t.0 t.1 >>= λ u. create_cq api args u.0 u.1)
        (alloc_pd-Stage api args start r a at) (λ s e b. registered s b.0 b.1 (then_ok _ at e))
        (λ s w. rw (reg_mr-Wreck s w) refl)
    where
      channelled :
          (d m : ℕ) (t : Commu × W)
          → At api rest (some d) (some m) none none t
          → after_mr api args start ≡ ok t
          → Stage api args start
              (Based rest)
              (Broken api)
              (create_comp_channel api t.0 t.1 >>= λ u. create_cq api args u.0 u.1)
      channelled d m t c at =
          chain api args start (create_comp_channel api t.0 t.1) (λ u. create_cq api args u.0 u.1)
            (create_comp_channel-Stage api args start t c at)
            (λ u x e. create_cq-Based d m e.0 u e.1 (then_ok _ at x)) (λ u w. create_cq-Wreck _ u w)

      registered :
          (s : Commu × W) (d : ℕ)
          → At api rest (some d) none none none s
          → after_pd api args start ≡ ok s
          → Stage api args start (Based rest) (Broken api) (
              reg_mr api args s.0 s.1 >>= λ t.
              create_comp_channel api t.0 t.1 >>= λ u. create_cq api args u.0 u.1)
      registered s d b at =
          chain api args start (reg_mr api args s.0 s.1)
            (λ t. create_comp_channel api t.0 t.1 >>= λ u. create_cq api args u.0 u.1)
            (reg_mr-Stage api args start s b at) (λ t e c. channelled d c.0 t c.1 (then_ok _ at e))
            (λ t w. rw (create_comp_channel-Wreck _ t w) refl)

  -- The constructor after the device is opened.
  pub set_up-Stage :
      {rest : List Resource} (r : Commu × W)
      → At api rest none none none none r
      → after_open api args start ≡ ok r
      → Stage api args start
          (λ s. Complete api rest s × (args.elesize ≤ 5))
          (λ s. ⊥)
          (query_attr api args r.0 r.1 >>= λ s. check_mtu api args s.0 s.1 >>= λ t.
            create_basic_resource api args t.0 t.1 >>= λ u. create_qp api u.0 u.1)
  unfolding Wreck check_mtu create_basic_resource alloc_pd create_qp
  set_up-Stage {rest} r a at =
      chain api args start (query_attr api args r.0 r.1)
        (λ s. check_mtu api args s.0 s.1 >>= λ t.
          create_basic_resource api args t.0 t.1 >>= λ u. create_qp api u.0 u.1)
        (query_attr-Stage r a at) (λ s e b. checked s b (then_ok _ at e))
        (λ s w. rw (w.0.no_port) refl)
    where
      queued :
          (u : Commu × W)
          → args.elesize ≤ 5
          → Based rest u
          → after_basic api args start ≡ ok u
          → Stage api args start
              (λ s. Complete api rest s × (args.elesize ≤ 5))
              (λ s. ⊥)
              (create_qp api u.0 u.1)
      queued u le b at = elim (create_qp-Stage api args start u b.4 at) [
        | ends s e why y x ↦ ends s e why y x
        | faults s t why y x ↦ faults s t why y x
        | goes_on s x c ↦ goes_on s x (c, le)
        | leaves s t why y x w ↦ leaves s t why y x w
      ]

      based :
          (t : Commu × W)
          → At api rest none none none none t
          → args.elesize ≤ 5
          → after_mtu api args start ≡ ok t
          → Stage api args start
              (λ s. Complete api rest s × (args.elesize ≤ 5))
              (λ s. ⊥)
              (create_basic_resource api args t.0 t.1 >>= λ u. create_qp api u.0 u.1)
      based t b le at =
          chain api args start (create_basic_resource api args t.0 t.1) (λ u. create_qp api u.0 u.1)
            (create_basic_resource-Stage t b at) (λ u e c. queued u le c (then_ok _ at e))
            (λ u w. rw (w.no_port) refl)

      checked :
          (s : Commu × W)
          → Queried api args start rest (PortOf api args start rest) s
          → after_attr api args start ≡ ok s
          → Stage api args start
              (λ s. Complete api rest s × (args.elesize ≤ 5))
              (λ s. ⊥)
              (check_mtu api args s.0 s.1 >>= λ t.
                create_basic_resource api args t.0 t.1 >>= λ u. create_qp api u.0 u.1)
      checked s b at =
          chain api args start (check_mtu api args s.0 s.1)
            (λ t. create_basic_resource api args t.0 t.1 >>= λ u. create_qp api u.0 u.1)
            (check_mtu-Stage api args start rest s b.0 b.1 at)
            (λ t e c. based t c.0 c.1 (then_ok _ at e)) (λ t w. rw (context_gone api t _ w.0) refl)
