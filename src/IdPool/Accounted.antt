-- ===== src/IdPool/Accounted.antt =====
-- A pool beside those that hold what it handed out.
use mathlib.Core.Path.{subst}
use warden_linux.Base.{ℕ, ◌+◌, ◌≡◌, sym, ◌∙◌, ok, count, arith, if◌then◌else◌}
use warden_linux.IdPool.Counting.{acquire-count, release-count}
use warden_linux.IdPool.{IdPool, IdPoolLaws, IsSound}

-- `held` says how often a value is held; with what is free, that is what was free at the start.
pub record Accounted {S A E : Type 0} (p : IdPool S A E) (start s : S) (held : A → ℕ) : Type 0 where
  pub accounted : (a : A) → count p.same a (p.free s) + held a ≡ count p.same a (p.free start)
  pub same_range : (a : A) → p.owns s a ≡ p.owns start a

module _ {S A E : Type 0} (p : IdPool S A E) (start : S) where
  -- An equal state, and the same held.
  pub Accounted-same :
      (s t : S) (before after : A → ℕ)
      → Accounted p start s before
      → t ≡ s
      → ((a : A) → after a ≡ before a)
      → Accounted p start t after
  Accounted-same s t before after x states same_held =
      subst (λ u. Accounted p start u after) (sym states)
        (record {
          accounted = λ a. ground (arith, x.accounted a, same_held a);
          same_range = x.same_range;
        })

  module _ (laws : IdPoolLaws p) where
    -- What is acquired is held once more, and what is released once less.
    pub Accounted-acquire :
        (s : S) (a : A) (held : A → ℕ)
        → (p.acquire s).0 ≡ ok a
        → Accounted p start s held
        → Accounted p start (p.acquire s).1 (λ b. (if p.same a b then 1 else 0) + held b)
    Accounted-acquire s a held got x = record {
      accounted = λ b. ground (arith, x.accounted b, acquire-count p laws s a b got);
      same_range = λ b. laws.acquire_owns s b ∙ x.same_range b;
    }

    pub Accounted-release :
        (s : S) (a : A) (held : A → ℕ)
        → IsSound p start
        → Accounted p start s (λ b. (if p.same a b then 1 else 0) + held b)
        → Accounted p start (p.release a s) held
    Accounted-release s a held sound x = record {
      accounted = λ b. ground (
        arith,
        x.accounted a,
        x.accounted b,
        x.same_range a,
        sound.once a,
        sound.in_range a,
        laws.same_refl a,
        release-count p laws s a b,
      );
      same_range = λ b. laws.release_owns s a b ∙ x.same_range b;
    }
