-- ===== src/Pool/Users.antt =====
-- The users of a pool: they take work requests, and put back only what they hold.
use mathlib.Core.List.{Perm, perm_middle, perm_append_comm, append-nil, append_assoc, Mem}
use mathlib.Core.List.{
  Nodup, Nodup-nil, Nodup-cons, not-mem-nil, Nodup-append, mem-append, mem-cons,
}
use mathlib.Core.List.{mem-append_right, mem-cons_self}
use mathlib.Core.List
use mathlib.Core.List.Perm
use mathlib.Core.Logic.Or
use native.Mathlib.Bridge.{from_ℕ, le_prop}
use rfdts.Base.{
  ℕ, zero, suc, ◌+◌, ◌<◌, ◌≡◌, refl, ◌∙◌, sym, ap, subst, List, [], ◌∷◌, ◌++◌, some, ok, arith,
  length, length-append, upto, length-upto,
}
use rfdts.Pool.{PoolLaws}

length_from {ℓ} : {A : Type ℓ} (xs : List A) → length xs ≡ from_ℕ (List.length xs)
length_from [] = refl
length_from (x ∷ xs) = ap suc (length_from xs)

pub length-perm {ℓ} : {A : Type ℓ} {xs ys : List A} → Perm xs ys → length xs ≡ length ys
length-perm {xs} {ys} p = length_from xs ∙ ap from_ℕ (Perm.length-eq p) ∙ sym (length_from ys)

pub mem-upto : (n a : ℕ) → Mem a (upto n) → a < n
mem-upto zero a m = absurd (not-mem-nil m)
mem-upto (suc n) a m =
    Or.elim le_prop (mem-append.0 m) (λ (l : Mem a (upto n)). omega (arith, mem-upto n a l))
      (λ r. Or.elim le_prop (mem-cons.0 r) (λ e. omega arith) (λ z. absurd (not-mem-nil z)))

pub upto-Nodup : (n : ℕ) → Nodup (upto n)
upto-Nodup zero = Nodup-nil
upto-Nodup (suc n) =
    Perm.nodup (Perm.symm (perm_append_comm (upto n) (n ∷ [])))
      (Nodup-cons.1 ((λ m. omega (arith, mem-upto n n m)), upto-Nodup n))

module _ (laws : PoolLaws) where
  open laws use {P, size, Way, get, put, Repr, get_cons, get_nil, put_room}

  -- The pool, and the work requests that its users hold.
  pub record Session : Type 0 where
    pub pool : P
    pub held : List ℕ

  -- A call by some user: it takes a work request, or returns one that it holds.
  pub data Step (s : Session) : Session → Type 0 where
    acquire :
        (w : Way) (x : ℕ) (p : P)
        → get w s.pool ≡ ok (some x, p)
        → Step s (record { pool = p; held = x ∷ s.held })
    release :
        (before after : List ℕ) (e : ℕ) (p : P)
        → s.held ≡ before ++ e ∷ after
        → put s.pool (some e) ≡ ok p
        → Step s (record { pool = p; held = before ++ after })

  pub data Reach (s : Session) : Session → Type 0 where
    start : Reach s s
    later : {t u : Session} → Reach s t → Step t u → Reach s u

  -- The free work requests and those in use are together all of them, each once.
  pub record Accounted (s : Session) : Type 0 where
    pub free : List ℕ
    pub sound : Repr s.pool free
    pub whole : Perm (free ++ s.held) (upto size)

  pub size-of : {s : Session} (a : Accounted s) → length a.free + length s.held ≡ size
  size-of {s} a = sym (length-append a.free s.held) ∙ length-perm a.whole ∙ length-upto size

  take_first :
      (s : Session) (w : Way) (x : ℕ) (p : P) (q : List ℕ)
      → Repr s.pool q
      → Perm (q ++ s.held) (upto size)
      → get w s.pool ≡ ok (some x, p)
      → Accounted (record { pool = p; held = x ∷ s.held })
  take_first s w x p [] r whole e = absurd (get_nil w s.pool r (some x, p) e)
  take_first s w x p (y ∷ q) r whole e =
      let (p', e', r') = get_cons w s.pool y q r in
      let same : y ≡ x = cc in
      let pool_same : p' ≡ p = cc in
      record {
        free = q;
        sound = subst (λ z. Repr z q) pool_same r';
        whole =
            Perm.trans
              (subst (λ z. Perm (q ++ z ∷ s.held) (y ∷ q ++ s.held)) same (perm_middle q s.held))
              whole;
      }

  give_back :
      {s : Session} (a : Accounted s) (before after : List ℕ) (e : ℕ)
      → s.held ≡ before ++ e ∷ after
      → (p : P) × (put s.pool (some e) ≡ ok p) × Repr p (a.free ++ e ∷ [])
  give_back {s} a before after e h =
      put_room s.pool a.free e a.sound (mem-upto size e ((Perm.mem_iff a.whole).0 listed))
        (omega (arith, size-of a, ap length h, length-append before (e ∷ after)))
    where
      listed : Mem e (a.free ++ s.held)
      listed = rw h (mem-append_right a.free (mem-append_right before mem-cons_self))

  moved_back :
      (q before after : List ℕ) (e : ℕ)
      → Perm ((q ++ e ∷ []) ++ (before ++ after)) (q ++ (before ++ e ∷ after))
  moved_back q before after e =
      rw append_assoc (Perm.append_left q (Perm.symm (perm_middle before after)))

  put_last :
      {s : Session} (a : Accounted s) (before after : List ℕ) (e : ℕ) (p : P)
      → s.held ≡ before ++ e ∷ after
      → put s.pool (some e) ≡ ok p
      → Accounted (record { pool = p; held = before ++ after })
  put_last {s} a before after e p h r =
      let (p', r', sound) = give_back a before after e h in
      let pool_same : p' ≡ p = cc in
      record {
        free = a.free ++ e ∷ [];
        sound = subst (λ z. Repr z (a.free ++ e ∷ [])) pool_same sound;
        whole =
            Perm.trans (moved_back a.free before after e)
              (subst (λ z. Perm (a.free ++ z) (upto size)) h a.whole);
      }

  pub Step-Accounted : {s t : Session} → Step s t → Accounted s → Accounted t
  Step-Accounted {s} (acquire w x p e) a = take_first s w x p a.free a.sound a.whole e
  Step-Accounted (release before after e p h r) a = put_last a before after e p h r

  -- However the users' calls follow one another on a pool that starts with every work request
  -- free, the free ones and the held ones together are all of them, each once.
  pub Reach-Accounted :
      {s t : Session} → Repr s.pool (upto size) → s.held ≡ [] → Reach s t → Accounted t
  Reach-Accounted {s} r h start = record {
    free = upto size;
    sound = r;
    whole = rw (h, append-nil) (Perm.refl (upto size));
  }
  Reach-Accounted r h (later steps st) = Step-Accounted st (Reach-Accounted r h steps)

  pub held-Nodup : {s : Session} → Accounted s → Nodup s.held
  held-Nodup {s} a = (Nodup-append.0 (Perm.nodup (Perm.symm a.whole) (upto-Nodup size))).1

  -- A work request that a call hands out is in nobody's hands.
  pub fresh :
      {s : Session} (w : Way) (x : ℕ) (p : P)
      → Accounted s
      → get w s.pool ≡ ok (some x, p)
      → ¬ Mem x s.held
  fresh {s} w x p a e = (Nodup-cons.0 (held-Nodup (Step-Accounted (acquire w x p e) a))).0

  -- While fewer than `size` are held, the next call to take one succeeds.
  pub available :
      {s : Session} (w : Way)
      → Accounted s
      → length s.held < size
      → (x : ℕ) × (p : P) × (get w s.pool ≡ ok (some x, p))
  available {s} w a h = go a.free a.sound (omega (arith, size-of a))
    where
      go :
          (q : List ℕ)
          → Repr s.pool q
          → 0 < length q
          → (x : ℕ) × (p : P) × (get w s.pool ≡ ok (some x, p))
      go [] r l = elim l [ ]
      go (x ∷ q) r l = let (p, e, r') = get_cons w s.pool x q r in (x, p, e)

  -- Putting back what one holds always succeeds.
  pub accepted :
      {s : Session} (before after : List ℕ) (e : ℕ)
      → Accounted s
      → s.held ≡ before ++ e ∷ after
      → (p : P) × (put s.pool (some e) ≡ ok p)
  accepted before after e a h = let (p, r, sound) = give_back a before after e h in (p, r)
