-- ===== src/Base/Methods.antt =====
-- Methods that change state and may return an error. What was written before the error stays
-- written, as in Go, so the state comes back beside the error too.

use mathlib.Core.Logic.{◌⊎◌, inl, inr}
use mathlib.Core.Path.{◌≡◌, refl}
use mathlib.Core.List.{List, [], ◌∷◌}

-- A Go pair `(value, error)`: the value counts only where the error is nil.
pub data Result {ℓ κ} (E : Type κ) (A : Type ℓ) : Type (ℓ ⊔ κ) where
  ok : A → Result E A
  err : E → Result E A

abbrev pub Exec : Type 0 → Type 0 → Type 0 → Type 0
Exec S E A = S → Result E A × S

module _ {S E A B : Type 0} where
  -- What follows a call: the rest of the body, or the early return of its error.
  abbrev pub resume : Result E A → (A → Exec S E B) → Exec S E B
  resume (ok a) f s = f a s
  resume (err e) f s = (err e, s)

  infixl 5 ◌>>=◌
  abbrev pub ◌>>=◌ : Exec S E A → (A → Exec S E B) → Exec S E B
  ◌>>=◌ m f s = resume (m s).0 f (m s).1

module _ {S E B : Type 0} where
  infixl 5 ◌>>◌
  abbrev pub ◌>>◌ : Exec S E (Unit {0}) → Exec S E B → Exec S E B
  m >> k = m >>= λ _. k

module _ {S E A : Type 0} where
  abbrev pub pure : A → Exec S E A
  pure a s = (ok a, s)

module _ {S T E A : Type 0} where
  -- A call of a method on a part of the state.
  abbrev pub zoom : (S → T) → (T → S → S) → Exec T E A → Exec S E A
  zoom get put m s = ((m (get s)).0, put (m (get s)).1 s)

module _ {E F A : Type 0} where
  abbrev pub map_result : (E → F) → Result E A → Result F A
  map_result wrap (ok a) = ok a
  map_result wrap (err e) = err (wrap e)

module _ {S E F A : Type 0} where
  -- The same call, with its error seen as one of a larger type.
  abbrev pub map_err : (E → F) → Exec S E A → Exec S F A
  map_err wrap m s = (map_result wrap (m s).0, (m s).1)

module _ {S E A B : Type 0} where
  -- A call whose error is logged or dropped.
  abbrev pub ignore : Exec S E A → Exec S E B → Exec S E B
  ignore m k s = k (m s).1

module _ {S E A : Type 0} where
  -- `for _, x := range xs { err := body(x); if err != nil { return err } }`
  abbrev pub for_each : (A → Exec S E (Unit {0})) → List A → Exec S E (Unit {0})
  for_each body [] = λ s. (ok tt, s)
  for_each body (x ∷ xs) = λ s. resume (body x s).0 (λ _. for_each body xs) (body x s).1

pub Result-cases :
    {E A : Type 0} (r : Result E A) → ((a : A) × (r ≡ ok a)) ⊎ ((e : E) × (r ≡ err e))
Result-cases (ok a) = inl (a, refl)
Result-cases (err e) = inr (e, refl)

-- What is known where a body with a call in front has succeeded.
pub resume-ok :
    {S E A B : Type 0} (r : Result E A) (f : A → Exec S E B) (s : S) {b : B}
    → (resume r f s).0 ≡ ok b
    → (a : A) × (r ≡ ok a) × ((f a s).0 ≡ ok b)
resume-ok (ok a) f s h = (a, refl, h)
resume-ok (err e) f s h = cc
