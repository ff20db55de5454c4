-- ===== src/ProcessTracker/Unspawned.antt =====
-- Run of linux_backend/process_tracker/process_tracker.go where the process cannot be spawned.
pub mod Examples
use warden_linux.Base.{ℕ, ◌≡◌, refl, Bool, true, some, Result, ok, err, arith, ◌==◌, ==_refl}
use warden_linux.ProcessTracker.Fresh.{find-put}
use warden_linux.ProcessTracker.{
  Process, ProcessTracker, new_process, find, allocate, start_link, run,
}
use warden_linux.System.{Error}

-- A Run whose process cannot be spawned returns the error, but the process stays in the table under
-- its id, so that ActiveProcesses lists it, and no linker was started that would take it out.
pub find-run :
    (with_tty : Bool) (e : Error) (active : Result Error (Unit {0})) (t : ProcessTracker)
    → let after = (run with_tty (err e) active t).1 in
      ((run with_tty (err e) active t).0 ≡ err e)
      × (find t.next_process_id after.processes ≡ some (new_process t.next_process_id with_tty))
      × (after.linking ≡ t.linking)
unfolding run allocate new_process
find-run with_tty e active t =
    let p : Process = record { id = t.next_process_id; with_tty = with_tty; linkable = true } in
    ground (arith, find-put t.next_process_id p t.processes, ==_refl t.next_process_id)
