-- ===== src/PortPool.antt =====
-- linux_backend/port_pool/port_pool.go: the pool of host ports.
-- Each method holds the pool's mutex for its whole body, so a call is one step on the state.
pub mod Examples
pub mod Laws
pub mod Invariant
use warden_linux.Base.{
  ℕ, zero, suc, ◌||◌, Option, none, some, List, [], ◌∷◌, ◌++◌, ltb, leb, ◌==◌, if◌then◌else◌,
  add_u32, cut, contains, Result, ok, err, Exec,
}

pub record PortPool : Type 0 where
  pub start : ℕ
  pub size : ℕ
  pub pool : List ℕ

pub data PortError : Type 0 where
  pool_exhausted : PortError
  port_taken : ℕ → PortError

-- `for i := start; i < start+size; i++ { pool = append(pool, i) }` on fuel; the sum wraps.
pub fill : ℕ → ℕ → ℕ → List ℕ
fill zero i end = []
fill (suc fuel) i end = if ltb i end then i ∷ fill fuel (add_u32 i 1) end else []

-- The loop makes at most `start+size` rounds.
pub new : ℕ → ℕ → PortPool
unfolding fill
new start size = record {
  start = start;
  size = size;
  pool = fill (add_u32 start size) start (add_u32 start size);
}

unfoldable pub acquire : Exec PortPool PortError ℕ
acquire p = elim p.pool [
  | [] ↦ (err pool_exhausted, p)
  | port ∷ rest ↦ (ok port, record p { pool = rest })
]

unfoldable pub remove : ℕ → Exec PortPool PortError (Unit {0})
remove port p = elim (cut ◌==◌ port p.pool) [
  | none ↦ (err (port_taken port), p)
  | some rest ↦ (ok tt, record p { pool = rest })
]

-- A port that is free already is not added again.
unfoldable pub release : ℕ → PortPool → PortPool
release port p =
    if ltb port p.start || leb (add_u32 p.start p.size) port
    then p
    else if contains ◌==◌ port p.pool
    then p
    else record p { pool = p.pool ++ port ∷ [] }
