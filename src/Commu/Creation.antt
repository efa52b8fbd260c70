-- ===== src/Commu/Creation.antt =====
-- The objects that the constructor of `commu` in src/commu.cpp creates, each on those before it.
use rfdts.Base.{
  if◌then◌else◌, ℕ, ◌≡◌, refl, ◌∙◌, sym, ap, subst, List, [], ◌∷◌, true, Option, none, some,
  Outcome, ok, ltb,
}
use rfdts.Commu.Api.{Resource, VerbsApi, Made, made, failed, Creates, live}
use rfdts.Commu.{Commu, Args, with_handle, stored, alloc_pd, reg_mr, create_comp_channel, create_cq}
use rfdts.Commu.Release.{object, entries, entry, handles, live_first, live-append, with_handle_live}
use rfdts.Commu.Refusal.{
  Refusal, Using, no_pd, no_mr, no_channel, no_cq, after_mtu, after_pd, after_mr, after_channel,
}
use rfdts.Commu.Steps.{
  Stage, goes_on, At, Wreck, undone_at, known, known_members, on_context, using_context,
}

module _ (api : VerbsApi) (args : Args) (start : api.W) where
  open api use {W, resources}

  pub stored_Stage :
      {P : Commu × W → Type 0} {rest : List Resource} {pd mr channel cq : Option ℕ}
      (set_member : Option ℕ → Commu) (w : W) (uses : List ℕ) (m : Made W)
      → Creates resources w uses m
      → ((x : ℕ) (w' : W)
          → resources w' ≡ record { handle = x; uses = uses } ∷ resources w
          → P (set_member (some x), w'))
      → ((w' : W) → resources w' ≡ resources w → At api rest pd mr channel cq (set_member none, w'))
      → ((w' : W) → m ≡ failed w' → Refusal api args start (set_member none, w'))
      → Stage api args start P (Wreck api pd) (stored api set_member m)
  stored_Stage set_member w uses (made x w') c next left why = goes_on _ refl (next x w' c.1)
  stored_Stage set_member w uses (failed w') c next left why =
      undone_at api args start (_, w') (why w' refl) (left w' c)

  module _ {rest : List Resource} {pd mr channel cq : Option ℕ} (r : Commu × W)
      (a : At api rest pd mr channel cq r) where
    -- One more object, the newest.
    pub grown :
        (pd' mr' channel' cq' : Option ℕ) (w : W)
        → resources w ≡ entries a.h pd' mr' channel' cq' rest
        → At api rest pd' mr' channel' cq' (object a.h pd' mr' channel' cq' none a.d a.p, w)
    grown pd' mr' channel' cq' w e = record {
      h = a.h;
      d = a.d;
      p = a.p;
      c_eq = refl;
      resources_eq = e;
      fresh = a.fresh;
      mtu_le = a.mtu_le;
    }

    pub same_objects :
        (w : W)
        → resources w ≡ resources r.1
        → At api rest pd mr channel cq (object a.h pd mr channel cq none a.d a.p, w)
    same_objects w e = grown pd mr channel cq w (e ∙ a.resources_eq)

    pub extended :
        {x : ℕ} {uses : List ℕ} {w : W}
        → resources w ≡ record { handle = x; uses = uses } ∷ resources r.1
        → resources w ≡ record { handle = x; uses = uses } ∷ entries a.h pd mr channel cq rest
    extended {x} {uses} e = e ∙ ap (λ z. record { handle = x; uses = uses } ∷ z) a.resources_eq

  pub pd_live :
      {rest : List Resource} {d : ℕ} {mr channel cq : Option ℕ} (r : Commu × W)
      → At api rest (some d) mr channel cq r
      → live d (resources r.1) ≡ true
  pd_live {rest} {d} {mr} {channel} {cq} r a = rw a.resources_eq (
      live-append d (entry cq (a.h ∷ handles channel)) _ (
        live-append d (entry channel (a.h ∷ [])) _ (
          live-append d (entry mr (d ∷ [])) _
            (live_first d (a.h ∷ []) (record { handle = a.h; uses = [] } ∷ rest)))))

  abbrev pub using_pd :
      {rest : List Resource} {d : ℕ} {mr channel cq : Option ℕ} {so_far : Outcome (Commu × W)}
      (r : Commu × W)
      → At api rest (some d) mr channel cq r
      → so_far ≡ ok r
      → Using api args start so_far (λ c. c.pd)
  using_pd {d = d} {mr = mr} {channel = channel} {cq = cq} r a e = record {
    now = (object a.h (some d) mr channel cq none a.d a.p, r.1);
    handle = d;
    reached = known_members api args start r a e;
    handle_eq = refl;
    exists = pd_live r a;
  }

  pub on_pd :
      {P B : Commu × W → Type 0} {rest : List Resource} {d : ℕ} {mr channel cq : Option ℕ}
      (f : ℕ → Outcome (Commu × W)) (r : Commu × W)
      → At api rest (some d) mr channel cq r
      → Stage api args start P B (f d)
      → Stage api args start P B (with_handle api (some d) r.1 f)
  on_pd {P} {B} {d = d} f r a s =
      subst (Stage api args start P B) (sym (with_handle_live api d r.1 f (pd_live r a))) s

  pub alloc_pd-Stage :
      {rest : List Resource} (r : Commu × W)
      → At api rest none none none none r
      → after_mtu api args start ≡ ok r
      → Stage api args start
          (λ s. (x : ℕ) × At api rest (some x) none none none s)
          (Wreck api none)
          (alloc_pd api r.0 r.1)
  unfolding alloc_pd
  alloc_pd-Stage r a at =
      let set_member : Option ℕ → Commu = λ x. object a.h x none none none none a.d a.p in
      known api args start (λ c w. alloc_pd api c w) r a
        (on_context api args start (λ h. stored api set_member (api.ibv_alloc_pd h r.1)) r a
          (stored_Stage set_member r.1 (a.h ∷ []) _ (api.alloc_pd_lem a.h r.1)
            (λ x w' e. (x, grown r a (some x) none none none w' (extended r a e)))
            (same_objects r a) (λ w' e. no_pd (using_context api args start r a at) w' e)))

  pub reg_mr-Stage :
      {rest : List Resource} {pd : ℕ} (r : Commu × W)
      → At api rest (some pd) none none none r
      → after_pd api args start ≡ ok r
      → Stage api args start
          (λ s. (x : ℕ) × At api rest (some pd) (some x) none none s)
          (Wreck api (some pd))
          (reg_mr api args r.0 r.1)
  unfolding reg_mr
  reg_mr-Stage {pd = pd} r a at =
      let set_member : Option ℕ → Commu = λ x. object a.h (some pd) x none none none a.d a.p in
      known api args start (λ c w. reg_mr api args c w) r a
        (on_pd (λ h. stored api set_member (api.ibv_reg_mr h args.mrs_addr args.mrs_length r.1)) r a
          (stored_Stage set_member r.1 (pd ∷ []) _
            (api.reg_mr_lem pd args.mrs_addr args.mrs_length r.1)
            (λ x w' e. (x, grown r a (some pd) (some x) none none w' (extended r a e)))
            (same_objects r a) (λ w' e. no_mr (using_pd r a at) w' e)))

  pub create_comp_channel-Stage :
      {rest : List Resource} {pd mr : Option ℕ} (r : Commu × W)
      → At api rest pd mr none none r
      → after_mr api args start ≡ ok r
      → Stage api args start
          (λ s. (x : ℕ) × At api rest pd mr (some x) none s)
          (Wreck api pd)
          (create_comp_channel api r.0 r.1)
  unfolding create_comp_channel
  create_comp_channel-Stage {pd = pd} {mr = mr} r a at =
      let set_member : Option ℕ → Commu = λ x. object a.h pd mr x none none a.d a.p in
      known api args start (λ c w. create_comp_channel api c w) r a
        (on_context api args start (λ h. stored api set_member (api.ibv_create_comp_channel h r.1))
          r a
          (stored_Stage set_member r.1 (a.h ∷ []) _ (api.create_comp_channel_lem a.h r.1)
            (λ x w' e. (x, grown r a pd mr (some x) none w' (extended r a e))) (same_objects r a)
            (λ w' e. no_channel (using_context api args start r a at) w' e)))

  pub create_cq-Stage :
      {rest : List Resource} {pd mr : Option ℕ} {k : ℕ} (r : Commu × W)
      → At api rest pd mr (some k) none r
      → after_channel api args start ≡ ok r
      → Stage api args start
          (λ s. (x : ℕ) × At api rest pd mr (some k) (some x) s)
          (Wreck api pd)
          (create_cq api args r.0 r.1)
  unfolding create_cq
  create_cq-Stage {rest} {pd} {mr} {k} r a at =
      let set_member : Option ℕ → Commu = λ x. object a.h pd mr (some k) x none a.d a.p in
      let cqe = if ltb args.elenum a.d.max_cqe then args.elenum else a.d.max_cqe in
      let channel_live : live k (resources r.1) ≡ true =
        rw a.resources_eq (live_first k (a.h ∷ []) _) in
      known api args start (λ c w. create_cq api args c w) r a
        (on_context api args start
          (λ h.
            with_handle api (some k) r.1
              (λ k. stored api set_member (api.ibv_create_cq h cqe k r.1)))
          r a
          (subst (Stage api args start _ _)
            (sym (
              with_handle_live api k r.1
                (λ k. stored api set_member (api.ibv_create_cq a.h cqe k r.1)) channel_live))
            (stored_Stage set_member r.1 (a.h ∷ k ∷ []) _ (api.create_cq_lem a.h cqe k r.1)
              (λ x w' e. (x, grown r a pd mr (some k) (some x) w' (extended r a e)))
              (same_objects r a)
              (λ w' e. no_cq (using_context api args start r a at) a.d k w' refl refl e))))
