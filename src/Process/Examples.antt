-- ===== src/Process/Examples.antt =====
-- The theorems on a process at one that was linked, and at one whose link failed.
use warden_linux.Base.{◌≡◌, refl, pos, true, false, some, none}
use warden_linux.Process.Progress.{wait-Steps, wait-unlink, linked-link_failed}
use warden_linux.Process.{
  finished, failed, idle, running, Process, new, wait, link_failed, link_started, link_exited,
  link_ended, unlink, Step, starts, exits, ends, unlinks, Steps, here, then,
}
use warden_linux.System.{Error, exited}

abbrev pub fresh : Process
fresh = new 1 false

abbrev pub linked : Process
linked = link_started fresh

abbrev gone : Process
gone = link_exited (some (exited 3)) linked

pub to_linked : Steps fresh linked
unfolding new
to_linked = then here (starts fresh refl)

to_gone : Steps fresh gone
unfolding new link_started
to_gone = then to_linked (exits (some (exited 3)) linked refl)

abbrev done : Process
done = link_ended (some (exited 3)) gone

to_done : Steps fresh done
unfolding new link_started link_exited
to_done = then to_gone (ends (some (exited 3)) gone refl refl)

done_waits : wait done ≡ some (finished (pos 3))
unfolding new link_started link_exited link_ended wait
done_waits = refl

done_linked : done.linked ≡ true
unfolding new link_started link_exited link_ended
done_linked = refl

wait-Steps_example : wait (unlink done).1 ≡ some (finished (pos 3))
wait-Steps_example = wait-Steps (finished (pos 3)) (then here (unlinks done done_linked)) done_waits

pub linked_runs : linked.phase ≡ running
unfolding new link_started
linked_runs = refl

pub linked_whole : linked.unlinked ≡ true
unfolding new link_started
linked_whole = refl

pub linked_open : linked.linked ≡ true
unfolding new link_started
linked_open = refl

linked_value : (unlink linked).0 ≡ true
unfolding new link_started unlink
linked_value = refl

link_still_runs : Step (unlink linked).1 (link_exited none (unlink linked).1)
unfolding new link_started unlink
link_still_runs = exits none (unlink linked).1 refl

wait-unlink_example : wait (link_exited none (unlink linked).1) ≡ none
wait-unlink_example =
    wait-unlink 1 false to_linked linked_open linked_value (then here link_still_runs)

abbrev no_pty : Error
no_pty = Error.os "open /dev/ptmx"

fresh_idle : fresh.phase ≡ idle
unfolding new
fresh_idle = refl

linked-link_failed_example :
    (wait (link_failed no_pty fresh) ≡ some (failed no_pty))
    × ((link_failed no_pty fresh).linked ≡ false)
linked-link_failed_example = linked-link_failed 1 false no_pty here fresh_idle here
