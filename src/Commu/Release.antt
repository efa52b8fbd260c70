-- ===== src/Commu/Release.antt =====
-- The destructor of `commu` in src/commu.cpp, on objects of which some are created, the last of them
-- first, and what it leaves.
use rfdts.Base.{
  ℕ, ◌≡◌, refl, List, [], ◌∷◌, ◌++◌, true, false, Option, none, some, Outcome, ok, exited, errno,
  Errno, fault, eq→==, arith,
}
use rfdts.Commu.Api.{
  DeviceAttr, PortAttr, Resource, VerbsApi, Released, released, kept, Frees, live,
}
use rfdts.Commu.{Commu, deleted, points, release, destroy, with_handle}

-- An object with a queue pair, a completion queue and so on, or without.
abbrev pub object :
    ℕ → Option ℕ → Option ℕ → Option ℕ → Option ℕ → Option ℕ → DeviceAttr → PortAttr → Commu
object h pd mr channel cq qp d p = record {
  context = some h;
  comp_channel = channel;
  cq = cq;
  pd = pd;
  qp = qp;
  mr = mr;
  device_attr_ex = points d;
  port_attr = points p;
}

abbrev pub handles : Option ℕ → List ℕ
handles none = []
handles (some h) = h ∷ []

abbrev pub entry : Option ℕ → List ℕ → List Resource
entry none uses = []
entry (some h) uses = record { handle = h; uses = uses } ∷ []

-- What exists besides `rest`, the newest first.
abbrev pub entries : ℕ → Option ℕ → Option ℕ → Option ℕ → Option ℕ → List Resource → List Resource
entries h pd mr channel cq rest =
    entry cq (h ∷ handles channel)
    ++ (entry channel (h ∷ [])
        ++ (entry mr (handles pd)
            ++ (entry pd (h ∷ []) ++ record { handle = h; uses = [] } ∷ rest)))

pub live_first :
    (h : ℕ) (uses : List ℕ) (rest : List Resource)
    → live h (record { handle = h; uses = uses } ∷ rest) ≡ true
live_first h uses rest = rw (eq→== h h refl) refl

pub live-append : (h : ℕ) (xs ys : List Resource) → live h ys ≡ true → live h (xs ++ ys) ≡ true
live-append h [] ys e = e
live-append h (x ∷ xs) ys e = let later = live-append h xs ys e in ground arith

module _ (api : VerbsApi) where
  open api use {
    W, resources, last_error, ibv_close_device, ibv_dealloc_pd, ibv_dereg_mr,
    ibv_destroy_comp_channel, ibv_destroy_cq, close_device_lem, dealloc_pd_lem, dereg_mr_lem,
    destroy_comp_channel_lem, destroy_cq_lem, cq_busy,
  }

  -- A release of the newest object succeeds and leaves the ones before it, or is refused.
  data Freed (f : ℕ → W → Released W) (x : Option ℕ) (rest : List Resource) (w : W) : Type 0 where
    freed : (w' : W) → release api f x w ≡ ok w' → resources w' ≡ rest → Freed f x rest w
    refused : (e : Errno) → release api f x w ≡ exited (errno e) → Freed f x rest w

  newest-Freed :
      (f : ℕ → W → Released W)
      → Frees resources f
      → (h : ℕ) (uses : List ℕ) (rest : List Resource) (w : W) (o : Released W)
      → resources w ≡ record { handle = h; uses = uses } ∷ rest
      → f h w ≡ o
      → Freed f (some h) rest w
  newest-Freed f frees h uses rest w (released w') e done =
      freed w' (rw (e, live_first h uses rest, done) refl) (frees h uses rest w w' e done)
  newest-Freed f frees h uses rest w (kept w') e done =
      refused (last_error w') (rw (e, live_first h uses rest, done) refl)

  release_newest :
      (f : ℕ → W → Released W)
      → Frees resources f
      → (x : Option ℕ) (uses : List ℕ) (rest : List Resource) (w : W)
      → resources w ≡ entry x uses ++ rest
      → Freed f x rest w
  release_newest f frees none uses rest w e = freed w refl e
  release_newest f frees (some h) uses rest w e = newest-Freed f frees h uses rest w (f h w) e refl

  -- The device is closed and the attributes are deleted, but the pointers to them are still there.
  pub record Broken (r : Commu × W) : Type 0 where
    pub context : ℕ
    pub context_eq : r.0.context ≡ some context
    pub closed : live context (resources r.1) ≡ false
    pub no_port : r.0.port_attr ≡ deleted
    pub no_device : r.0.device_attr_ex ≡ deleted

  pub record Undone (c : Commu) (w : W) : Type 0 where
    pub result : Commu × W
    pub returns : destroy api c w ≡ ok result
    pub broken : Broken result
    pub pd_eq : result.0.pd ≡ c.pd
    pub qp_eq : result.0.qp ≡ c.qp

  -- The destructor runs to its end, or a release in it is refused, which ends the program.
  pub data Destroyed (c : Commu) (w : W) : Type 0 where
    undone : Undone c w → Destroyed c w
    stuck : (e : Errno) → destroy api c w ≡ exited (errno e) → Destroyed c w

  pub destroy_newest :
      (h : ℕ) (pd mr channel cq : Option ℕ) (d : DeviceAttr) (p : PortAttr) (rest : List Resource)
      (w : W)
      → resources w ≡ entries h pd mr channel cq rest
      → live h rest ≡ false
      → Destroyed (object h pd mr channel cq none d p) w
  unfolding destroy
  destroy_newest h pd mr channel cq d p rest w e fresh =
      elim (release_newest ibv_destroy_cq destroy_cq_lem cq _ _ w e) [
        | refused x no1 ↦ stuck x (rw no1 refl)
        | freed w1 done1 e1 ↦
            elim (release_newest ibv_destroy_comp_channel destroy_comp_channel_lem channel _ _ w1
              e1) [
                | refused x no2 ↦ stuck x (rw (done1, no2) refl)
                | freed w2 done2 e2 ↦ elim (release_newest ibv_dereg_mr dereg_mr_lem mr _ _ w2 e2) [
                  | refused x no3 ↦ stuck x (rw (done1, done2, no3) refl)
                  | freed w3 done3 e3 ↦
                      elim (release_newest ibv_dealloc_pd dealloc_pd_lem pd _ _ w3 e3) [
                        | refused x no4 ↦ stuck x (rw (done1, done2, done3, no4) refl)
                        | freed w4 done4 e4 ↦
                            elim (release_newest ibv_close_device close_device_lem (some h) [] rest
                              w4 e4) [
                                | refused x no5 ↦
                                    stuck x (rw (done1, done2, done3, done4, no5) refl)
                                | freed w5 done5 e5 ↦ undone (record {
                                  result = (
                                    record (object h pd mr channel cq none d p) {
                                      device_attr_ex = deleted;
                                      port_attr = deleted;
                                    },
                                    w5,
                                  );
                                  returns = rw (done1, done2, done3, done4, done5) refl;
                                  broken = record {
                                    context = h;
                                    context_eq = refl;
                                    closed = rw e5 fresh;
                                    no_port = refl;
                                    no_device = refl;
                                  };
                                  pd_eq = refl;
                                  qp_eq = refl;
                                })
                              ]
                      ]
                ]
              ]
      ]

  pub with_handle_live :
      {A : Type 0} (h : ℕ) (w : W) (f : ℕ → Outcome A)
      → live h (resources w) ≡ true
      → with_handle api (some h) w f ≡ f h
  with_handle_live h w f e = rw e refl

  pub context_gone :
      {A : Type 0} (r : Commu × W) (f : ℕ → Outcome A)
      → Broken r
      → with_handle api r.0.context r.1 f ≡ fault
  context_gone r f b = rw (b.context_eq, b.closed) refl
