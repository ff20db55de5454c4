-- ===== src/Process/Progress.antt =====
-- What Wait returns, of linux_backend/process_tracker/process.go.
use warden_linux.Base.{ℕ, ◌≡◌, ◌≢◌, refl, Bool, true, false, Option, none, some, arith}
use warden_linux.Process.{
  Outcome, failed, idle, running, waiting, ended, Process, new, wait, link_failed, link_started,
  link_exited, outcome_of, link_ended, unlink, Step, fails, starts, exits, ends, unlinks, Steps,
  here, then,
}
use warden_linux.System.{Error, WaitStatus}

-- A process is complete only when its linker has ended, and an idle one is not linked.
pub record Inv (p : Process) : Type 0 where
  pub open_before : p.phase ≢ ended → p.outcome ≡ none
  pub idle_unlinked : p.phase ≡ idle → p.linked ≡ false

new-Inv : (id : ℕ) (with_tty : Bool) → Inv (new id with_tty)
unfolding new
new-Inv id with_tty = ground arith

Step-Inv : {p q : Process} → Step p q → Inv p → Inv q
unfolding link_failed link_started link_exited link_ended unlink
Step-Inv (fails e p h) v = ground arith
Step-Inv (starts p h) v = ground arith
Step-Inv (exits status p h) v = ground arith
Step-Inv (ends status p h u) v = ground arith
Step-Inv (unlinks p h) v = ground arith

pub Steps-Inv : {p q : Process} → Steps p q → Inv p → Inv q
Steps-Inv here v = v
Steps-Inv (then s t) v = Step-Inv t (Steps-Inv s v)

Step-outcome : {p q : Process} {o : Outcome} → Step p q → p.outcome ≡ some o → q.outcome ≡ some o
unfolding link_failed link_started link_exited link_ended unlink
Step-outcome (fails e p h) d = ground arith
Step-outcome (starts p h) d = d
Step-outcome (exits status p h) d = d
Step-outcome (ends status p h u) d = ground arith
Step-outcome (unlinks p h) d = ground arith

-- The outcome of a process is decided once: whatever happens afterwards, Wait returns the same.
pub wait-Steps : {p q : Process} (o : Outcome) → Steps p q → wait p ≡ some o → wait q ≡ some o
unfolding wait
wait-Steps o here d = d
wait-Steps o (then s t) d = Step-outcome t (wait-Steps o s d)

-- Past its start, with the value gone and no outcome: it stays so.
record IsUnlinked (p : Process) : Type 0 where
  gone : p.unlinked ≡ false
  past_start : p.phase ≢ idle
  undecided : p.outcome ≡ none

Step-IsUnlinked : {p q : Process} → Step p q → IsUnlinked p → IsUnlinked q
unfolding link_failed link_started link_exited link_ended unlink
Step-IsUnlinked (fails e p h) v = absurd (v.past_start h)
Step-IsUnlinked (starts p h) v = absurd (v.past_start h)
Step-IsUnlinked (exits status p h) v = ground arith
Step-IsUnlinked (ends status p h u) v = absurd (ground arith)
Step-IsUnlinked (unlinks p h) v = ground arith

Steps-IsUnlinked : {p q : Process} → Steps p q → IsUnlinked p → IsUnlinked q
Steps-IsUnlinked here v = v
Steps-IsUnlinked (then s t) v = Step-IsUnlinked t (Steps-IsUnlinked s v)

-- Where the linker's value is still there, it was not taken, so its end has not come.
record HasValue (p : Process) : Type 0 where
  ended_took : p.phase ≡ ended → p.linked ≡ true → p.unlinked ≡ false

new-HasValue : (id : ℕ) (with_tty : Bool) → HasValue (new id with_tty)
unfolding new
new-HasValue id with_tty = ground arith

Step-HasValue : {p q : Process} → Step p q → Inv p → HasValue p → HasValue q
unfolding link_failed link_started link_exited link_ended unlink
Step-HasValue (fails e p h) w v = ground arith
Step-HasValue (starts p h) w v = ground arith
Step-HasValue (exits status p h) w v = ground arith
Step-HasValue (ends status p h u) w v = ground arith
Step-HasValue (unlinks p h) w v = ground arith

Steps-HasValue : {p q : Process} → Steps p q → Inv p → HasValue p → HasValue q
Steps-HasValue here w v = v
Steps-HasValue (then s t) w v = Step-HasValue t (Steps-Inv s w) (Steps-HasValue s w v)

-- A process whose link Unlink has interrupted is never complete afterwards: Wait goes on waiting,
-- however the link ends and whatever else is called.
pub wait-unlink :
    (id : ℕ) (with_tty : Bool) {p q : Process}
    → Steps (new id with_tty) p
    → p.linked ≡ true
    → (unlink p).0 ≡ true
    → Steps (unlink p).1 q
    → wait q ≡ none
unfolding unlink wait
wait-unlink id with_tty {p} reached linked took later =
    let v = Steps-Inv reached (new-Inv id with_tty) in
    let w = Steps-HasValue reached (new-Inv id with_tty) (new-HasValue id with_tty) in
    let u : IsUnlinked (unlink p).1 = record {
      gone = ground arith;
      past_start = ground arith;
      undecided = ground arith;
    } in
    (Steps-IsUnlinked later u).undecided

pub Step-link_exited :
    (status : Option WaitStatus) (p : Process)
    → p.phase ≡ running
    → p.unlinked ≡ true
    → Step p (link_exited status p)
      × ((link_exited status p).phase ≡ waiting status)
      × ((link_exited status p).unlinked ≡ true)
unfolding link_exited
Step-link_exited status p at u = (exits status p at, refl, u)

-- A link that exits by itself, with no Unlink before, completes the process with the link's status:
-- the step to it is open, and Wait returns that status from then on.
pub wait-link_ended :
    (id : ℕ) (with_tty : Bool) {p : Process} (status : Option WaitStatus)
    → Steps (new id with_tty) p
    → p.phase ≡ waiting status
    → p.unlinked ≡ true
    → Step p (link_ended status p) × (wait (link_ended status p) ≡ some (outcome_of status))
unfolding link_ended wait
wait-link_ended id with_tty {p} status reached at u =
    let v = Steps-Inv reached (new-Inv id with_tty) in
    (ends status p at u, ground (arith, v.open_before))

-- Past its end and never linked: it stays so.
Step-unlinked :
    {p q : Process}
    → Step p q
    → p.phase ≡ ended
    → p.linked ≡ false
    → (q.phase ≡ ended) × (q.linked ≡ false)
unfolding link_failed link_started link_exited link_ended unlink
Step-unlinked (fails e p h) at l = absurd (ground arith)
Step-unlinked (starts p h) at l = absurd (ground arith)
Step-unlinked (exits status p h) at l = absurd (ground arith)
Step-unlinked (ends status p h u) at l = absurd (ground arith)
Step-unlinked (unlinks p h) at l = absurd (ground arith)

Steps-unlinked :
    {p q : Process}
    → Steps p q
    → p.phase ≡ ended
    → p.linked ≡ false
    → (q.phase ≡ ended) × (q.linked ≡ false)
Steps-unlinked here at l = (at, l)
Steps-unlinked (then s t) at l = let r = Steps-unlinked s at l in Step-unlinked t r.0 r.1

-- A process whose link cannot be started is complete with the error, and its channel `linked` is
-- never closed: Unlink and SetTTY, which wait for it, never return.
pub linked-link_failed :
    (id : ℕ) (with_tty : Bool) (e : Error) {p q : Process}
    → Steps (new id with_tty) p
    → p.phase ≡ idle
    → Steps (link_failed e p) q
    → (wait q ≡ some (failed e)) × (q.linked ≡ false)
unfolding link_failed wait
linked-link_failed id with_tty e {p} reached at later =
    let v = Steps-Inv reached (new-Inv id with_tty) in
    let r : (link_failed e p).outcome ≡ some (failed e) = ground (arith, v.open_before) in
    (
      wait-Steps (failed e) later r,
      (Steps-unlinked later (ground arith) (ground (arith, v.idle_unlinked))).1,
    )
