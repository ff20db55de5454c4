-- ===== src/IdPool.antt =====
-- What the container pool asks of a pool of user ids, networks or ports: the interfaces `UIDPool`
-- (linux_backend/uid_pool/uid_pool.go), `NetworkPool` (linux_backend/network_pool/network_pool.go)
-- and `PortPool` (linux_backend/linux_container.go), with the laws that their clients rely on.
pub mod Counting
pub mod Accounted
pub mod Exclusive
use warden_linux.Base.{
  ℕ, ◌≤◌, ◌<◌, ◌≡◌, ◌≢◌, Bool, true, false, Option, none, some, List, [], ◌∷◌, ◌++◌, cut, count, ok,
  err, Exec,
}

-- The methods of a pool with state `S` that hands out values of `A`, and its free list.
pub record IdPool (S A E : Type 0) : Type 0 where
  pub same : A → A → Bool
  pub free : S → List A
  pub owns : S → A → Bool
  pub acquire : Exec S E A
  pub remove : A → Exec S E (Unit {0})
  pub release : A → S → S

pub record IdPoolLaws {S A E : Type 0} (p : IdPool S A E) : Type 0 where
  pub same_refl : (a : A) → p.same a a ≡ true
  pub same_cong : (a b c : A) → p.same a b ≡ true → p.same a c ≡ p.same b c
  -- The oldest free entry is handed out; an empty pool refuses and stays as it is.
  pub acquire_empty : (s : S) → p.free s ≡ [] → (e : E) × (p.acquire s ≡ (err e, s))
  pub acquire_first :
      (s : S) (a : A) (rest : List A)
      → p.free s ≡ a ∷ rest
      → ((p.acquire s).0 ≡ ok a) × (p.free (p.acquire s).1 ≡ rest)
  pub acquire_owns : (s : S) (a : A) → p.owns (p.acquire s).1 a ≡ p.owns s a
  -- An entry is taken out by name if it is free; else the pool refuses and stays as it is.
  pub remove_taken :
      (s : S) (a : A) → cut p.same a (p.free s) ≡ none → (e : E) × (p.remove a s ≡ (err e, s))
  pub remove_free :
      (s : S) (a : A) (rest : List A)
      → cut p.same a (p.free s) ≡ some rest
      → ((p.remove a s).0 ≡ ok tt) × (p.free (p.remove a s).1 ≡ rest)
  pub remove_owns : (s : S) (a b : A) → p.owns (p.remove a s).1 b ≡ p.owns s b
  -- What is not of the pool's range is ignored; what is and is not free goes to the end.
  pub release_foreign : (s : S) (a : A) → p.owns s a ≡ false → p.release a s ≡ s
  pub release_owned :
      (s : S) (a : A)
      → p.owns s a ≡ true
      → count p.same a (p.free s) ≡ 0
      → p.free (p.release a s) ≡ p.free s ++ a ∷ []
  pub release_owns : (s : S) (a b : A) → p.owns (p.release a s) b ≡ p.owns s b

-- No value is free twice, and every free value is of the pool's range.
pub record IsSound {S A E : Type 0} (p : IdPool S A E) (s : S) : Type 0 where
  pub once : (a : A) → count p.same a (p.free s) ≤ 1
  pub in_range : (a : A) → 0 < count p.same a (p.free s) → p.owns s a ≡ true
