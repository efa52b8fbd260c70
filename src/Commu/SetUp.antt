-- ===== src/Commu/SetUp.antt =====
-- How the constructor of `commu` in src/commu.cpp ends, and the destructor after it.
use rfdts.Base.{
  ◌≤◌, ◌<◌, ◌≡◌, refl, ◌∙◌, sym, ap, subst, List, [], ◌∷◌, ◌++◌, true, some, ok, exited, fault,
  errno, Errno, Exit, ok_inj, ◌⊎◌, inl, inr, eq→==, arith,
}
use rfdts.Commu.Api.{Resource, VerbsApi, live, busy}
use rfdts.Commu.{Commu, Args, members, open_context, construct, destroy}
use rfdts.Commu.Release.{entries, entry, live_first, live-append}
use rfdts.Commu.Refusal.{Refusal}
use rfdts.Commu.Steps.{ends, faults, goes_on, leaves, Opened, open_context-Opened}
use rfdts.Commu.QueuePair.{Complete}
use rfdts.Commu.Chained.{set_up-Stage}

module _ (api : VerbsApi) where
  open api use {W, resources}

  -- How the constructor can end.
  pub data Ending (args : Args) (w : W) : Type 0 where
    no_context :
        (e : Exit)
        → open_context api args members w ≡ exited e
        → construct api args w ≡ exited e
        → Ending args w
    undefined :
        (r t : Commu × W)
        → Refusal api args w r
        → destroy api r.0 r.1 ≡ ok t
        → construct api args w ≡ fault
        → Ending args w
    cut_short :
        (r : Commu × W) (e : Errno)
        → Refusal api args w r
        → destroy api r.0 r.1 ≡ exited (errno e)
        → construct api args w ≡ exited (errno e)
        → Ending args w
    complete :
        (r : Commu × W)
        → construct api args w ≡ ok r
        → Complete api (resources w) r
        → args.elesize ≤ 5
        → Ending args w

  -- The constructor of `commu` ends in one of four ways: the search for the device ends the
  -- program; or, at the point that this run has come to, a call of the library fails, the device
  -- has no such port, or the size of the elements is above the number that the port gave for its
  -- transfer unit, and the destructor, run on the object as it is then, ends the program with an
  -- error; or the same happens, the destructor runs to its end, and a null pointer or what was
  -- released is used; or it returns with every object created, each on those before it and over
  -- those that existed, and then the elements have at most 5 bytes.
  pub construct-Ending : (args : Args) (w : W) → Ending args w
  unfolding construct Opened
  construct-Ending args w = elim (open_context-Opened api args w) [
    | inl (e, x) ↦ no_context e x (rw x refl)
    | inr (r, x, a) ↦ elim (set_up-Stage api args w r a x) [
      | ends s e why d y ↦ cut_short s e why d (rw (x, y) refl)
      | faults s t why d y ↦ undefined s t why d (rw (x, y) refl)
      | goes_on s y c ↦ complete s (rw (x, y) refl) c.0 c.1
      | leaves s t why d y l ↦ absurd l
    ]
  ]

  destroy_kept :
      (rest : List Resource) (r : Commu × W)
      → Complete api rest r
      → (e : _) × (destroy api r.0 r.1 ≡ exited (errno e))
  unfolding destroy
  destroy_kept rest r c =
      let made = entries c.context (some c.pd) (some c.mr) (some c.channel) (some c.cq) rest in
      let top : List Resource = record { handle = c.qp; uses = c.pd ∷ c.cq ∷ [] } ∷ [] in
      let below = live_first c.cq (c.context ∷ c.channel ∷ []) (
        entry (some c.channel) (c.context ∷ [])
        ++ (entry (some c.mr) (c.pd ∷ [])
            ++ (entry (some c.pd) (c.context ∷ [])
                ++ record { handle = c.context; uses = [] } ∷ rest))) in
      let there : live c.cq (resources r.1) ≡ true =
        rw c.resources_eq (live-append c.cq top made below) in
      let used : busy c.cq (resources r.1) ≡ true =
        rw (c.resources_eq, eq→== c.cq c.cq refl) (ground arith) in
      let (w', refused) = api.cq_busy c.cq r.1 used in
      (api.last_error w', rw (ap (λ z. z.cq) c.c_eq, there, refused) refl)

  -- The destructor of a `commu` whose constructor has returned ends the program: its first call
  -- is refused, since the queue pair is still there.
  pub construct-destroy_kept :
      (args : Args) (w : W) (r : Commu × W)
      → construct api args w ≡ ok r
      → (e : _) × (destroy api r.0 r.1 ≡ exited (errno e))
  construct-destroy_kept args w r e = elim (construct-Ending args w) [
    | no_context x y z ↦ cc
    | undefined s t why d y ↦ cc
    | cut_short s x why d y ↦ cc
    | complete s y c l ↦
        subst (λ z. (e : _) × (destroy api z.0 z.1 ≡ exited (errno e))) (ok_inj (sym y ∙ e))
          (destroy_kept (resources w) s c)
  ]

  -- With elements of more than 5 bytes the constructor of `commu` never returns: it ends the
  -- program or uses a null pointer or what was released.
  pub construct_tiny :
      (args : Args) (w : W)
      → 5 < args.elesize
      → ((e : Exit) × (construct api args w ≡ exited e)) ⊎ (construct api args w ≡ fault)
  construct_tiny args w h = elim (construct-Ending args w) [
    | no_context x y z ↦ inl (x, z)
    | undefined s t why d y ↦ inr y
    | cut_short s x why d y ↦ inl (errno x, y)
    | complete s y c l ↦ absurd (omega (arith, h, l))
  ]
