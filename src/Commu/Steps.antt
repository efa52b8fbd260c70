-- ===== src/Commu/Steps.antt =====
-- The functions that the constructor of `commu` in src/commu.cpp calls, one by one: each goes on,
-- ends the program, or leaves an object behind that its destructor has run on.
use rfdts.Base.{
  false, ℕ, ◌≤◌, ◌≡◌, refl, ◌∙◌, sym, ap, subst, List, [], ◌∷◌, true, Option, none, some, Outcome,
  ok, exited, Errno, errno, fault, ◌>>=◌, ◌⊎◌, inl, inr, arith,
}
use rfdts.Commu.Api.{
  Device, DeviceAttr, PortAttr, Resource, VerbsApi, Made, made, failed, Creates, live,
}
use rfdts.Commu.{
  Commu, Args, members, zero_device, zero_port, with_handle, opened, open_found, open_listed,
  open_context, find_device, destroy,
}
use rfdts.Commu.Release.{
  object, entries, entry, handles, live_first, live-append, Broken, destroy_newest, undone, stuck,
  with_handle_live,
}
use rfdts.Commu.Refusal.{Refusal, Using}

module _ (api : VerbsApi) where
  open api use {W, resources}

  -- The objects that exist are those of the members, over `rest`.
  pub record At (rest : List Resource) (pd mr channel cq : Option ℕ) (r : Commu × W) : Type 0 where
    pub h : ℕ
    pub d : DeviceAttr
    pub p : PortAttr
    pub c_eq : r.0 ≡ object h pd mr channel cq none d p
    pub resources_eq : resources r.1 ≡ entries h pd mr channel cq rest
    pub fresh : live h rest ≡ false
    pub mtu_le : p.active_mtu ≤ 5

  pub context_live :
      {rest : List Resource} {pd mr channel cq : Option ℕ} (r : Commu × W)
      → (a : At rest pd mr channel cq r) → live a.h (resources r.1) ≡ true
  context_live {rest} {pd} {mr} {channel} {cq} r a = rw (a.resources_eq) (
      live-append a.h (entry cq (a.h ∷ handles channel)) _ (
        live-append a.h (entry channel (a.h ∷ [])) _ (
          live-append a.h (entry mr (handles pd)) _
            (live-append a.h (entry pd (a.h ∷ [])) _ (live_first a.h [] rest)))))

  -- What a call leaves that it has run the destructor in.
  unfoldable pub Wreck : Option ℕ → Commu × W → Type 0
  Wreck pd r = Broken api r × (r.0.pd ≡ pd) × (r.0.qp ≡ none)

  -- `__context` after the search for the device, or the end of the program.
  unfoldable pub Opened : List Resource → Outcome (Commu × W) → Type 0
  Opened rest o =
      ((e : _) × (o ≡ exited e)) ⊎ ((r : Commu × W) × (o ≡ ok r) × At rest none none none none r)

  opened-Opened :
      (rest : List Resource) (w : W) (m : Made W)
      → resources w ≡ rest
      → Creates resources w [] m
      → Opened rest (opened api members m)
  unfolding Opened
  opened-Opened rest w (made h w') e c = inr (
    _,
    refl,
    record {
      h = h;
      d = zero_device;
      p = zero_port;
      c_eq = refl;
      resources_eq = api.free_lem w' ∙ c.1 ∙ ap (λ z. record { handle = h; uses = [] } ∷ z) e;
      fresh = rw (← e) c.0;
      mtu_le = omega arith;
    },
  )
  opened-Opened rest w (failed w') e c = inl (_, refl)

  pub open_context-Opened :
      (args : Args) (w : W) → Opened (resources w) (open_context api args members w)
  unfolding open_context Opened
  open_context-Opened args w =
      let w1 = api.ibv_fork_init w in
      go args.dev_name ((api.ibv_get_device_list w1).0) ((api.ibv_get_device_list w1).1)
        (api.list_lem w1 ∙ api.fork_lem w)
    where
      found :
          (d : Option Device) (w2 : W)
          → resources w2 ≡ resources w
          → Opened (resources w) (open_found api members d w2)
      found none w2 e = inl (_, refl)
      found (some d) w2 e = opened-Opened (resources w) w2 _ e (api.open_lem d w2)

      go :
          (name : Option (List ℕ)) (listed : Option (List Device)) (w2 : W)
          → resources w2 ≡ resources w
          → Opened (resources w) (open_listed api name members listed w2)
      go name none w2 e = inl (_, refl)
      go name (some []) w2 e = inl (_, refl)
      go none (some (d ∷ ds)) w2 e = opened-Opened (resources w) w2 _ e (api.open_lem d w2)
      go (some name) (some (d ∷ ds)) w2 e = found (find_device name (d ∷ ds)) w2 e

module _ (api : VerbsApi) (args : Args) (start : api.W) where
  open api use {W, resources}

  -- A call returns with `Next`; or the constructor does not get what it asks for and runs the
  -- destructor, and then that ends the program, or the call faults after it, or it returns with
  -- what the destructor leaves.
  pub data Stage (Next Left : Commu × W → Type 0) (o : Outcome (Commu × W)) : Type 0 where
    ends :
        (r : Commu × W) (e : Errno)
        → Refusal api args start r
        → destroy api r.0 r.1 ≡ exited (errno e)
        → o ≡ exited (errno e)
        → Stage Next Left o
    faults :
        (r t : Commu × W)
        → Refusal api args start r
        → destroy api r.0 r.1 ≡ ok t
        → o ≡ fault
        → Stage Next Left o
    goes_on : (r : Commu × W) → o ≡ ok r → Next r → Stage Next Left o
    leaves :
        (r t : Commu × W)
        → Refusal api args start r
        → destroy api r.0 r.1 ≡ ok t
        → o ≡ ok t
        → Left t
        → Stage Next Left o

  pub chain :
      {P B Q C : Commu × W → Type 0} (o : Outcome (Commu × W)) (f : Commu × W → Outcome (Commu × W))
      → Stage P B o
      → ((r : Commu × W) → o ≡ ok r → P r → Stage Q C (f r))
      → ((r : Commu × W) → B r → f r ≡ fault)
      → Stage Q C (o >>= f)
  chain {Q} {C} o f (ends r x why d e) next end = ends r x why d (rw e refl)
  chain {Q} {C} o f (faults r t why d e) next end = faults r t why d (rw e refl)
  chain {Q} {C} o f (goes_on r e p) next end = subst (λ z. Stage Q C (z >>= f)) (sym e) (next r e p)
  chain {Q} {C} o f (leaves r t why d e b) next end = faults r t why d (rw e (end t b))

  pub undone_at :
      {P : Commu × W → Type 0} {rest : List Resource} {pd mr channel cq : Option ℕ} (r : Commu × W)
      → Refusal api args start r
      → At api rest pd mr channel cq r
      → Stage P (Wreck api pd) (destroy api r.0 r.1)
  unfolding Wreck
  undone_at {rest = rest} {pd = pd} {mr = mr} {channel = channel} {cq = cq} r why a =
      let same = ap (λ c. destroy api c r.1) a.c_eq in
      elim (destroy_newest api a.h pd mr channel cq a.d a.p rest r.1 a.resources_eq a.fresh) [
        | undone u ↦
            leaves r u.result why (same ∙ u.returns) (same ∙ u.returns) (u.broken, u.pd_eq, u.qp_eq)
        | stuck e x ↦ ends r e why (same ∙ x) (same ∙ x)
      ]

  -- The state that the constructor has reached, with the members known.
  pub known_members :
      {rest : List Resource} {pd mr channel cq : Option ℕ} {so_far : Outcome (Commu × W)}
      (r : Commu × W) (a : At api rest pd mr channel cq r)
      → so_far ≡ ok r
      → so_far ≡ ok (object a.h pd mr channel cq none a.d a.p, r.1)
  known_members r a e = e ∙ ap (λ c. ok (c, r.1)) a.c_eq

  abbrev pub using_context :
      {rest : List Resource} {pd mr channel cq : Option ℕ} {so_far : Outcome (Commu × W)}
      (r : Commu × W) (a : At api rest pd mr channel cq r)
      → so_far ≡ ok r
      → Using api args start so_far (λ c. c.context)
  using_context {pd = pd} {mr = mr} {channel = channel} {cq = cq} r a e = record {
    now = (object a.h pd mr channel cq none a.d a.p, r.1);
    handle = a.h;
    reached = known_members r a e;
    handle_eq = refl;
    exists = context_live api r a;
  }

  -- A member function that is called on such an object, with its members known.
  pub known :
      {P B : Commu × W → Type 0} {rest : List Resource} {pd mr channel cq : Option ℕ}
      (f : Commu → W → Outcome (Commu × W)) (r : Commu × W) (a : At api rest pd mr channel cq r)
      → Stage P B (f (object a.h pd mr channel cq none a.d a.p) r.1)
      → Stage P B (f r.0 r.1)
  known {P} {B} f r a s = subst (λ c. Stage P B (f c r.1)) (sym a.c_eq) s

  pub on_context :
      {P B : Commu × W → Type 0} {rest : List Resource} {pd mr channel cq : Option ℕ}
      (f : ℕ → Outcome (Commu × W)) (r : Commu × W) (a : At api rest pd mr channel cq r)
      → Stage P B (f a.h)
      → Stage P B (with_handle api (some a.h) r.1 f)
  on_context {P} {B} f r a s =
      subst (Stage P B) (sym (with_handle_live api a.h r.1 f (context_live api r a))) s
