-- ===== src/Dict/Totals.antt =====
-- Sums over the values of a map.
use warden_linux.Base.{ℕ, ◌+◌, ◌≤◌, ◌≡◌, [], ◌∷◌, String, some, arith}
use warden_linux.Dict.{Dict, find, delete, put}

module _ {V : Type 0} (f : V → ℕ) where
  abbrev pub total : Dict V → ℕ
  total [] = 0
  total ((k, v) ∷ m) = f v + total m

  pub total-delete : (k : String) (m : Dict V) → total (delete k m) ≤ total m
  unfolding delete
  total-delete k [] = ground arith
  total-delete k ((j, v) ∷ m) = ground (arith, total-delete k m)

  -- The value that a key had goes with it.
  pub total-delete-find :
      (k : String) (v : V) (m : Dict V) → find k m ≡ some v → total (delete k m) + f v ≤ total m
  unfolding delete find
  total-delete-find k v [] e = ground arith
  total-delete-find k v ((j, w) ∷ m) e = ground (arith, total-delete k m, total-delete-find k v m)

  pub total-put : (k : String) (v : V) (m : Dict V) → total (put k v m) ≤ f v + total m
  unfolding put
  total-put k v m = ground (arith, total-delete k m)

  pub total-put-find :
      (k : String) (v w : V) (m : Dict V)
      → find k m ≡ some w
      → total (put k v m) + f w ≤ f v + total m
  unfolding put
  total-put-find k v w m e = ground (arith, total-delete-find k w m e)
