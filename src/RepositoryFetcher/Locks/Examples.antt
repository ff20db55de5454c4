-- ===== src/RepositoryFetcher/Locks/Examples.antt =====
-- The theorems on the locks where two calls want one layer.
use warden_linux.Base.{ℕ, ◌≡◌, refl, ◌⊎◌}
use warden_linux.Dict
use warden_linux.RepositoryFetcher.Locks.Exclusion.{Reachable-alone, Reachable-waiting}
use warden_linux.RepositoryFetcher.Locks.{
  waiting, holding, Locks, fetching, wake, new, Step, tries, Reachable, start, after,
}

abbrev one : Locks
one = fetching 0 "base" new

abbrev two : Locks
two = fetching 1 "base" one

one-Reachable : Reachable one
unfolding new
one-Reachable = after start (tries 0 "base" new refl)

two-Reachable : Reachable two
unfolding new fetching Dict.find
two-Reachable = after one-Reachable (tries 1 "base" one refl)

first_holds : two.calls 0 ≡ holding "base"
unfolding new fetching Dict.find Dict.put
first_holds = refl

second_waits : two.calls 1 ≡ waiting "base" 0
unfolding new fetching Dict.find Dict.put
second_waits = refl

Reachable-alone_example : ◌≡◌ {A = ℕ} 0 0
Reachable-alone_example = Reachable-alone two 0 0 "base" two-Reachable first_holds first_holds

Reachable-waiting_example : Step two (wake 1 two) ⊎ ((k : ℕ) × (two.calls k ≡ holding "base"))
Reachable-waiting_example = Reachable-waiting two 1 "base" 0 two-Reachable second_waits
