-- ===== src/Base/Lists.antt =====
-- Lists measured by native numbers, and the slice operations that the pools share.
use Prim.Native.Nat.{ℕ, zero, suc, ◌+◌, ◌<◌}
use mathlib.Core.Logic.{inl, inr}
use mathlib.Core.Path.{◌≡◌}
use mathlib.Core.Bool.{Bool, true, false}
use mathlib.Core.List.{List, [], ◌∷◌, ◌++◌}
use mathlib.Core.Option
use mathlib.Core.Option.{Option, none, some}
use native.Mathlib.Omega.{arith}
use warden_linux.Base.Tests.{if◌then◌else◌, Option-cases}

module _ {ℓ} {A : Type ℓ} where
  abbrev pub length : List A → ℕ
  length [] = 0
  length (x ∷ xs) = suc (length xs)

  abbrev pub get_elem? : List A → ℕ → Option A
  get_elem? [] i = none
  get_elem? (x ∷ xs) zero = some x
  get_elem? (x ∷ xs) (suc i) = get_elem? xs i

  pub length-append : (xs ys : List A) → length (xs ++ ys) ≡ length xs + length ys
  length-append [] ys = omega arith
  length-append (x ∷ xs) ys = omega (arith, length-append xs ys)

module _ {ℓ} {A : Type ℓ} (same : A → A → Bool) where
  -- `for i, existing := range pool { if existing == a { ...; break } }` and
  -- `append(pool[:i], pool[i+1:]...)`: the slice without the first entry that is the same as `a`;
  -- `none` where there is no such entry.
  abbrev pub cut : A → List A → Option (List A)
  cut a [] = none
  cut a (x ∷ xs) = if same x a then some xs else Option.map (λ ys. x ∷ ys) (cut a xs)

  abbrev pub contains : A → List A → Bool
  contains a [] = false
  contains a (x ∷ xs) = if same x a then true else contains a xs

  -- How many entries are the same as `a`.
  abbrev pub count : A → List A → ℕ
  count a [] = 0
  count a (x ∷ xs) = if same x a then suc (count a xs) else count a xs

  pub count-append : (a : A) (xs ys : List A) → count a (xs ++ ys) ≡ count a xs + count a ys
  count-append a [] ys = omega arith
  count-append a (x ∷ xs) ys = ground (arith, count-append a xs ys)

  -- What the loops over a pool do to the counts: one entry goes, or none was there.
  pub count-cut :
      ((x y z : A) → same x y ≡ true → same x z ≡ same y z)
      → (a b : A) (xs ys : List A) → cut a xs ≡ some ys
      → count b xs ≡ (if same a b then 1 else 0) + count b ys
  count-cut cong a b [] ys e = cc
  count-cut cong a b (x ∷ xs) ys e = elim (Option-cases (cut a xs)) [
    | inl gone ↦ ground (arith, cong x a b)
    | inr (zs, found) ↦ ground (arith, cong x a b, count-cut cong a b xs zs found)
  ]

  pub cut-none : (a : A) (xs : List A) → cut a xs ≡ none → count a xs ≡ 0
  cut-none a [] e = omega arith
  cut-none a (x ∷ xs) e = ground (arith, cut-none a xs)

  pub contains-count : (a : A) (xs : List A) → contains a xs ≡ false → count a xs ≡ 0
  contains-count a [] e = omega arith
  contains-count a (x ∷ xs) e = ground (arith, contains-count a xs)

  pub count-contains : (a : A) (xs : List A) → count a xs ≡ 0 → contains a xs ≡ false
  count-contains a [] e = ground arith
  count-contains a (x ∷ xs) e = ground (arith, count-contains a xs)

  pub contains-pos : (a : A) (xs : List A) → contains a xs ≡ true → 0 < count a xs
  contains-pos a [] e = cc
  contains-pos a (x ∷ xs) e = ground (arith, contains-pos a xs)
