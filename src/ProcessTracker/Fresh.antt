-- ===== src/ProcessTracker/Fresh.antt =====
-- The ids of processes, of linux_backend/process_tracker/process_tracker.go.
pub mod Examples
use warden_linux.Base.{
  ℕ, zero, suc, ◌+◌, ◌<◌, ◌≤◌, ◌≡◌, ◌≢◌, refl, Bool, true, false, List, [], ◌∷◌, ◌++◌, String,
  Option, none, some, ◌==◌, if◌then◌else◌, u32_mod, arith, Option-cases, inl, inr,
}
use warden_linux.ProcessTracker.{
  Process, ProcessTracker, new, new_process, delete, put, find, allocate, start_link, restore,
  unregister,
}

find-delete :
    (id j : ℕ) (ps : List Process) → find j (delete id ps) ≡ (if id == j then none else find j ps)
unfolding find delete
find-delete id j [] = ground arith
find-delete id j (p ∷ ps) = ground (arith, find-delete id j ps)

find-append :
    (j : ℕ) (p : Process) (ps : List Process)
    → find j (ps ++ p ∷ [])
      ≡ elim (find j ps) [ none ↦ (if p.id == j then some p else none) | some q ↦ some q ]
unfolding find
find-append j p [] = ground arith
find-append j p (q ∷ ps) = ground (arith, find-append j p ps)

pub find-put :
    (j : ℕ) (p : Process) (ps : List Process)
    → find j (put p ps) ≡ (if p.id == j then some p else find j ps)
unfolding put
find-put j p ps = ground (arith, find-append j p (delete p.id ps), find-delete p.id j ps)

-- The calls that change the table.
pub data Call : Type 0 where
  runs : Bool → Call
  restores : ℕ → Bool → Call
  unregisters : ℕ → Call

pub step : ProcessTracker → Call → ProcessTracker
step t (runs with_tty) = (allocate with_tty t).1
step t (restores id with_tty) = restore id with_tty t
step t (unregisters id) = unregister id t

pub run : ProcessTracker → List Call → ProcessTracker
unfolding step
run t [] = t
run t (c ∷ cs) = run (step t c) cs

-- The counter, a uint32, has a next number at each call.
abbrev pub Counts : ProcessTracker → Call → Type 0
Counts t (runs with_tty) = t.next_process_id + 1 < u32_mod
Counts t (restores id with_tty) = id + 1 < u32_mod
Counts t (unregisters id) = Unit {0}

abbrev pub AllCount : ProcessTracker → List Call → Type 0
AllCount t [] = Unit {0}
AllCount t (c ∷ cs) = Counts t c × AllCount (step t c) cs

-- Every process of the table has an id below the counter.
pub record Below (t : ProcessTracker) : Type 0 where
  pub below : (id : ℕ) (p : Process) → find id t.processes ≡ some p → id < t.next_process_id

step-Below : (t : ProcessTracker) (c : Call) → Counts t c → Below t → Below (step t c)
unfolding step allocate restore unregister start_link new_process
step-Below t (runs with_tty) fits v = record {
  below = λ id p found. ground (
    arith,
    v.below id p,
    find-put id (record { id = t.next_process_id; with_tty = with_tty; linkable = true })
        t.processes,
  );
}
step-Below t (restores restored with_tty) fits v = record {
  below = λ id p found. ground (
    arith,
    v.below id p,
    find-put id (record { id = restored; with_tty = with_tty; linkable = true }) t.processes,
  );
}
step-Below t (unregisters gone) fits v = record {
  below = λ id p found. ground (arith, v.below id p, find-delete gone id t.processes);
}

run-Below : (t : ProcessTracker) (cs : List Call) → AllCount t cs → Below t → Below (run t cs)
unfolding run
run-Below t [] fits v = v
run-Below t (c ∷ cs) fits v = run-Below (step t c) cs fits.1 (step-Below t c fits.0 v)

new-Below : (path : String) → Below (new path)
unfolding new find
new-Below path = record { below = λ id p found. ground (arith, found) }

-- Whatever processes a tracker ran, restored and forgot before, as long as its counter did not wrap:
-- the id of the next process is that of no process in the table, the new process stands in the table
-- under it, with its terminal flag and not linked yet, and every other id finds what it did before.
pub allocate-run-fresh :
    (path : String) (cs : List Call) (with_tty : Bool) (other : ℕ)
    → AllCount (new path) cs
    → let t = run (new path) cs in
      let id = (allocate with_tty t).0 in
      let after = (allocate with_tty t).1 in
      (find id t.processes ≡ none)
      × (find other after.processes
          ≡ (if id == other then some (new_process id with_tty) else find other t.processes))
unfolding allocate new_process
allocate-run-fresh path cs with_tty other fits =
    let t = run (new path) cs in
    let v = run-Below (new path) cs fits (new-Below path) in
    let p : Process = record { id = t.next_process_id; with_tty = with_tty; linkable = true } in
    (
      elim (Option-cases (find t.next_process_id t.processes)) [
        | inl absent ↦ absent
        | inr (q, found) ↦ absurd (omega (arith, v.below t.next_process_id q found))
      ],
      ground (arith, find-put other p t.processes),
    )
