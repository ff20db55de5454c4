-- ===== src/ProcessTracker/Unspawned/Examples.antt =====
-- The theorem on Run at a new tracker.
use warden_linux.Base.{◌≡◌, false, some, ok, err}
use warden_linux.ProcessTracker.Unspawned.{find-run}
use warden_linux.ProcessTracker.{new, new_process, find, run}
use warden_linux.System.{Error}

find-run_example :
    let t = new "/depot/c7" in
    let after = (run false (err (Error.os "EOF")) (ok tt) t).1 in
    ((run false (err (Error.os "EOF")) (ok tt) t).0 ≡ err (Error.os "EOF"))
    × (find t.next_process_id after.processes ≡ some (new_process t.next_process_id false))
    × (after.linking ≡ t.linking)
find-run_example = find-run false (Error.os "EOF") (ok tt) (new "/depot/c7")
