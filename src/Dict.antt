-- ===== src/Dict.antt =====
-- Go's `map[string]V` as an association list: a key stands in it at most once. The order in which a
-- `range` loop visits a map is not specified; the list fixes one.
pub mod Totals
use text.Mathlib.TextEquality.{eq_iff}
use text.Mathlib.TextPositions.{eq_refl}
use warden_linux.Base.{◌≡◌, List, [], ◌∷◌, String, Option, none, some, if◌then◌else◌, arith}
use warden_linux.Text.{◌===◌}

abbrev pub Dict : Type 0 → Type 0
Dict V = List (String × V)

module _ {V : Type 0} where
  unfoldable pub find : String → Dict V → Option V
  find k [] = none
  find k ((j, v) ∷ m) = if j === k then some v else find k m

  pub delete : String → Dict V → Dict V
  delete k [] = []
  delete k ((j, v) ∷ m) = let rest = delete k m in if j === k then rest else (j, v) ∷ rest

  unfoldable pub put : String → V → Dict V → Dict V
  unfolding delete
  put k v m = (k, v) ∷ delete k m

  pub find-delete :
      (k j : String) (m : Dict V) → find j (delete k m) ≡ (if k === j then none else find j m)
  unfolding find delete
  find-delete k j [] = ground arith
  find-delete k j ((i, v) ∷ m) =
      ground (arith, find-delete k j m, eq_iff i k, eq_iff i j, eq_iff k j)

  pub find-put :
      (k j : String) (v : V) (m : Dict V)
      → find j (put k v m) ≡ (if k === j then some v else find j m)
  unfolding find put
  find-put k j v m = ground (arith, find-delete k j m)

pub ruleset dict_laws = (find-put, find-delete, eq_refl)
