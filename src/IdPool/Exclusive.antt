-- ===== src/IdPool/Exclusive.antt =====
-- A pool beside those that hold what it handed out.
use warden_linux.Base.{ℕ, ◌+◌, ◌≤◌, ◌<◌, ◌≡◌, true, count, arith}
use warden_linux.IdPool.{IdPool, IsSound}

-- `held` says how often a value is held.
pub record Exclusive {S A E : Type 0} (p : IdPool S A E) (s : S) (held : A → ℕ) : Type 0 where
  pub once : (a : A) → count p.same a (p.free s) + held a ≤ 1
  pub in_range : (a : A) → 0 < count p.same a (p.free s) + held a → p.owns s a ≡ true

module _ {S A E : Type 0} (p : IdPool S A E) where
  -- A step that leaves the range alone, and after which nothing is free or held more often.
  pub Exclusive-step :
      (s t : S) (before after : A → ℕ)
      → Exclusive p s before
      → ((a : A) → p.owns t a ≡ p.owns s a)
      → ((a : A) → count p.same a (p.free t) + after a ≤ count p.same a (p.free s) + before a)
      → Exclusive p t after
  Exclusive-step s t before after x same_range less = record {
    once = λ a. ground (arith, x.once a, less a);
    in_range = λ a found. ground (arith, x.in_range a, less a, same_range a);
  }

  pub Exclusive-IsSound : (s : S) (held : A → ℕ) → Exclusive p s held → IsSound p s
  Exclusive-IsSound s held x = record {
    once = λ a. ground (arith, x.once a);
    in_range = λ a free. x.in_range a (ground arith);
  }
