-- ===== src/Base/Copy.antt =====
-- `memcpy` and `memset` on C arrays, byte by byte.
use Prim.Native.Nat.{ℕ, zero, suc, ◌+◌, ◌≤◌, ◌<◌}
use mathlib.Core.Path.{◌≡◌, refl, sym, ap, ◌∙◌}
use mathlib.Core.Logic.{◌⊎◌, inl, inr}
use mathlib.Core.Option.{some}
use mathlib.Core.List.{List}
use native.Mathlib.Omega.{arith}
use rfdts.Base.Lists.{
  length, get_elem?, set, length-set, get_elem?-set_self, get_elem?-set_ne, get_elem?-some,
}
use rfdts.Base.Results.{Outcome, ok, ◌>>=◌, read, write, read_lem, write_lem}

module _ {ℓ} {A : Type ℓ} where
  -- `memcpy(dst + to, src + from, n)` of arrays that do not overlap.
  unfoldable pub memcpy : ℕ → List A → ℕ → List A → ℕ → Outcome (List A)
  memcpy zero dst to src from = ok dst
  memcpy (suc n) dst to src from = do
    v ← read src from
    dst ← write dst to v
    memcpy n dst (to + 1) src (from + 1)

  -- `memset(dst + to, v, n)`
  unfoldable pub memset : ℕ → List A → ℕ → A → Outcome (List A)
  memset zero dst to v = ok dst
  memset (suc n) dst to v = do dst ← write dst to v; memset n dst (to + 1) v

  -- Inside both arrays `memcpy` succeeds; it changes the `n` places from `to` on, and no others.
  pub record Copied (n : ℕ) (dst : List A) (to : ℕ) (src : List A) (from : ℕ) : Type ℓ where
    pub after : List A
    pub returns : memcpy n dst to src from ≡ ok after
    pub size : length after ≡ length dst
    pub copied : (k : ℕ) → k < n → get_elem? after (to + k) ≡ get_elem? src (from + k)
    pub kept : (j : ℕ) → (j < to) ⊎ (to + n ≤ j) → get_elem? after j ≡ get_elem? dst j

  pub memcpy-Copied :
      (n : ℕ) (dst : List A) (to : ℕ) (src : List A) (from : ℕ)
      → to + n ≤ length dst
      → from + n ≤ length src
      → Copied n dst to src from
  unfolding memcpy
  memcpy-Copied zero dst to src from h w = record {
    after = dst;
    returns = refl;
    size = refl;
    copied = λ k l. elim l [ ];
    kept = λ j l. refl;
  }
  memcpy-Copied (suc n) dst to src from h w =
      let (v, here) = get_elem?-some src from (omega arith) in
      let rest =
        memcpy-Copied n (set dst to v) (to + 1) src (from + 1) (omega (arith, length-set dst to v))
          (omega arith) in
      record {
        after = rest.after;
        returns = rw (read_lem src from here, write_lem dst to v (omega arith)) (rest.returns);
        size = rest.size ∙ length-set dst to v;
        copied = λ k.
            elim k as (λ k. k < suc n → get_elem? rest.after (to + k) ≡ get_elem? src (from + k)) [
              | zero ↦ λ l.
                  ap (get_elem? rest.after) (omega arith)
                  ∙ rest.kept to (inl (omega arith))
                  ∙ get_elem?-set_self dst to v (omega arith)
                  ∙ sym here
                  ∙ ap (get_elem? src) (omega arith)
              | suc m ↦ λ l.
                  ap (get_elem? rest.after) (omega arith)
                  ∙ rest.copied m (omega arith)
                  ∙ ap (get_elem? src) (omega arith)
            ];
        kept = λ j l.
            rest.kept j (elim l [ inl a ↦ inl (omega arith) | inr b ↦ inr (omega arith) ])
            ∙ get_elem?-set_ne dst to j v
                (elim l [ inl a ↦ λ e. omega arith | inr b ↦ λ e. omega arith ]);
      }

  pub record Filled (n : ℕ) (dst : List A) (to : ℕ) (v : A) : Type ℓ where
    pub after : List A
    pub returns : memset n dst to v ≡ ok after
    pub size : length after ≡ length dst
    pub filled : (k : ℕ) → k < n → get_elem? after (to + k) ≡ some v
    pub kept : (j : ℕ) → (j < to) ⊎ (to + n ≤ j) → get_elem? after j ≡ get_elem? dst j

  pub memset-Filled :
      (n : ℕ) (dst : List A) (to : ℕ) (v : A) → to + n ≤ length dst → Filled n dst to v
  unfolding memset
  memset-Filled zero dst to v h = record {
    after = dst;
    returns = refl;
    size = refl;
    filled = λ k l. elim l [ ];
    kept = λ j l. refl;
  }
  memset-Filled (suc n) dst to v h =
      let rest = memset-Filled n (set dst to v) (to + 1) v (omega (arith, length-set dst to v)) in
      record {
        after = rest.after;
        returns = rw (write_lem dst to v (omega arith)) (rest.returns);
        size = rest.size ∙ length-set dst to v;
        filled = λ k. elim k as (λ k. k < suc n → get_elem? rest.after (to + k) ≡ some v) [
          | zero ↦ λ l.
              ap (get_elem? rest.after) (omega arith)
              ∙ rest.kept to (inl (omega arith))
              ∙ get_elem?-set_self dst to v (omega arith)
          | suc m ↦ λ l. ap (get_elem? rest.after) (omega arith) ∙ rest.filled m (omega arith)
        ];
        kept = λ j l.
            rest.kept j (elim l [ inl a ↦ inl (omega arith) | inr b ↦ inr (omega arith) ])
            ∙ get_elem?-set_ne dst to j v
                (elim l [ inl a ↦ λ e. omega arith | inr b ↦ λ e. omega arith ]);
      }
