-- ===== src/ProcessTracker/Fresh/Examples.antt =====
-- The theorem on process ids at a tracker that restored one process and ran another.
use warden_linux.Base.{◌≡◌, true, false, List, [], ◌∷◌, none, some, arith, ◌==◌, if◌then◌else◌}
use warden_linux.ProcessTracker.Fresh.{
  Call, runs, restores, unregisters, step, run, AllCount, allocate-run-fresh,
}
use warden_linux.ProcessTracker.{new, new_process, find, allocate, restore, start_link, unregister}

abbrev calls : List Call
calls = restores 7 true ∷ runs false ∷ unregisters 7 ∷ []

fits : AllCount (new "/depot/c7") calls
unfolding new step restore start_link allocate unregister
fits = (omega arith, (omega arith, (tt, tt)))

allocate-run-fresh_example :
    let t = run (new "/depot/c7") calls in
    (find (allocate true t).0 t.processes ≡ none)
    × (find (allocate true t).0 (allocate true t).1.processes ≡ (
        if (allocate true t).0 == (allocate true t).0
        then some (new_process (allocate true t).0 true)
        else find (allocate true t).0 t.processes))
allocate-run-fresh_example =
    allocate-run-fresh "/depot/c7" calls true (allocate true (run (new "/depot/c7") calls)).0 fits
