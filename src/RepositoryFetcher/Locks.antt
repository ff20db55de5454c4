-- ===== src/RepositoryFetcher/Locks.antt =====
-- fetching and doneFetching of repository_fetcher.go: the calls of fetchLayer that run at the same
-- time. Each of the two holds the mutex while it works on the table, so its work is one step; what a
-- call waits for is the channel that it found, which doneFetching closes as it takes it out.
pub mod Exclusion
pub mod Examples
use warden_linux.Base.{
  ℕ, ◌+◌, ◌≡◌, ◌≢◌, Bool, true, false, String, [], ◌∷◌, none, some, ◌==◌, if◌then◌else◌, Option,
}
use warden_linux.Dict
use warden_linux.Dict.{Dict}

-- Where a call is: before `fetching`, or after it has said false with the channel it waits for, or
-- after it has said true.
pub data Phase : Type 0 where
  trying : Phase
  waiting : String → ℕ → Phase
  holding : String → Phase

pub record Locks : Type 0 where
  pub fetching_layers : Dict ℕ
  pub next_channel : ℕ
  pub calls : ℕ → Phase

abbrev pub at : ℕ → Phase → (ℕ → Phase) → ℕ → Phase
at i phase calls j = if i == j then phase else calls j

-- `fetching`, called by the i-th call.
pub fetching : ℕ → String → Locks → Locks
fetching i layer_id s = elim (Dict.find layer_id s.fetching_layers) [
  | none ↦ record {
    fetching_layers = Dict.put layer_id s.next_channel s.fetching_layers;
    next_channel = s.next_channel + 1;
    calls = at i (holding layer_id) s.calls;
  }
  | some channel ↦ record s { calls = at i (waiting layer_id channel) s.calls }
]

pub done_fetching : ℕ → String → Locks → Locks
done_fetching i layer_id s = record s {
  fetching_layers = Dict.delete layer_id s.fetching_layers;
  calls = at i trying s.calls;
}

-- The channel was closed: the loop calls `fetching` again.
pub wake : ℕ → Locks → Locks
wake i s = record s { calls = at i trying s.calls }

pub new : Locks
new = record { fetching_layers = []; next_channel = 0; calls = λ i. trying }

-- A step of one of the calls.
pub data Step : Locks → Locks → Type 0 where
  tries :
      (i : ℕ) (layer_id : String) (s : Locks) → s.calls i ≡ trying → Step s (fetching i layer_id s)
  ends :
      (i : ℕ) (layer_id : String) (s : Locks)
      → s.calls i ≡ holding layer_id
      → Step s (done_fetching i layer_id s)
  wakes :
      (i : ℕ) (layer_id : String) (channel : ℕ) (s : Locks)
      → s.calls i ≡ waiting layer_id channel
      → Dict.find layer_id s.fetching_layers ≢ some channel
      → Step s (wake i s)

-- What the steps lead to, from the beginning.
pub data Reachable : Locks → Type 0 where
  start : Reachable new
  after : {s t : Locks} → Reachable s → Step s t → Reachable t
