-- ===== src/PortPool/Invariant.antt =====
-- linux_backend/port_pool/port_pool.go: the free ports under any sequence of calls.
use warden_linux.Base.{
  ℕ, ◌≤◌, ◌≡◌, true, false, List, [], ◌∷◌, ◌==◌, count, cut, count-append, count-cut,
  contains-count, Option-cases, inl, inr, arith,
}
use warden_linux.PortPool.{PortPool, acquire, remove, release, new}
use warden_linux.PortPool.Laws.{owns, count-new}

pub data Call : Type 0 where
  acquires : Call
  removes releases : ℕ → Call

-- The pool after a call; its clients hold the value that it returned.
pub step : PortPool → Call → PortPool
step p acquires = (acquire p).1
step p (removes port) = (remove port p).1
step p (releases port) = release port p

pub run : PortPool → List Call → PortPool
run p [] = p
run p (c ∷ cs) = run (step p c) cs

-- No port is free twice, and every free port is of the pool's range.
pub record Inv (p : PortPool) : Type 0 where
  pub once : (port : ℕ) → count ◌==◌ port p.pool ≤ 1
  pub in_range : (port : ℕ) → owns p port ≡ false → count ◌==◌ port p.pool ≡ 0

new-Inv : (start size : ℕ) → Inv (new start size)
unfolding new
new-Inv start size = record {
  once = λ port. ground (arith, count-new start size port);
  in_range = λ port o. ground (arith, count-new start size port);
}

same_cong : (a b c : ℕ) → (a == b) ≡ true → (a == c) ≡ (b == c)
same_cong a b c e = ground arith

acquire-Inv : (p : PortPool) → Inv p → Inv (acquire p).1
unfolding acquire
acquire-Inv p v = record {
  once = λ port. ground (arith, v.once port);
  in_range = λ port o. ground (arith, v.in_range port);
}

remove-Inv : (p : PortPool) (taken : ℕ) → Inv p → Inv (remove taken p).1
unfolding remove
remove-Inv p taken v = elim (Option-cases (cut ◌==◌ taken p.pool)) [
  | inl gone ↦ rw (gone, remove) v
  | inr (rest, found) ↦
      rw (found, remove)
        (record {
          once = λ port.
              ground (arith, v.once port, count-cut ◌==◌ same_cong taken port p.pool rest found);
          in_range = λ port o.
              ground
                (arith, v.in_range port, count-cut ◌==◌ same_cong taken port p.pool rest found);
        })
]

release-Inv : (p : PortPool) (freed : ℕ) → Inv p → Inv (release freed p)
unfolding release
release-Inv p freed v = record {
  once = λ port. ground (
    arith,
    v.once port,
    count-append ◌==◌ port p.pool (freed ∷ []),
    contains-count ◌==◌ freed p.pool,
  );
  in_range = λ port o. ground (arith, v.in_range port, count-append ◌==◌ port p.pool (freed ∷ []));
}

step-Inv : (p : PortPool) (c : Call) → Inv p → Inv (step p c)
unfolding step
step-Inv p acquires v = acquire-Inv p v
step-Inv p (removes port) v = remove-Inv p port v
step-Inv p (releases port) v = release-Inv p port v

run-Inv : (p : PortPool) (cs : List Call) → Inv p → Inv (run p cs)
unfolding run
run-Inv p [] v = v
run-Inv p (c ∷ cs) v = run-Inv (step p c) cs (step-Inv p c v)

-- After any sequence of calls on a new pool, foreign and repeated releases included, each port is
-- free at most once, and every free port is of the pool's range.
pub run-new-Inv : (start size : ℕ) (cs : List Call) → Inv (run (new start size) cs)
run-new-Inv start size cs = run-Inv (new start size) cs (new-Inv start size)
