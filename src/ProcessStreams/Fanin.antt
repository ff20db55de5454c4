-- ===== src/ProcessStreams/Fanin.antt =====
-- linux_backend/process_tracker/fanin_writer.go under any sequence of calls.
pub mod Examples
use warden_linux.Base.{
  ℕ, ◌≡◌, refl, Bool, true, false, List, [], ◌∷◌, String, Option, none, some, Result, ok, err,
  if◌then◌else◌, arith, ◌∙◌,
}
use warden_linux.ProcessStreams.{
  StreamError, write_after_close, closed_twice, Sink, FaninWriter, new_fanin, add_sink, write,
  close,
}

-- What the sources and the linker call. A call that does not return changes nothing.
pub data Event : Type 0 where
  writes : String → Event
  closes adds_sink : Event

pub step : FaninWriter → Event → FaninWriter
unfolding write close add_sink
step w (writes chunk) = elim (write chunk w) [ none ↦ w | some (r, after) ↦ after ]
step w closes = elim (close w) [ none ↦ w | some (r, after) ↦ after ]
step w adds_sink = add_sink w

pub run : FaninWriter → List Event → FaninWriter
run w [] = w
run w (e ∷ es) = run (step w e) es

abbrev closes_of : Bool → ℕ
closes_of true = 1
closes_of false = 0

record Inv (w : FaninWriter) : Type 0 where
  closed_once : w.sink.closes ≡ closes_of w.closed

new-Inv : Inv new_fanin
unfolding new_fanin
new-Inv = ground arith

step-Inv : (w : FaninWriter) (e : Event) → Inv w → Inv (step w e)
unfolding step
step-Inv w (writes chunk) v = ground arith
step-Inv w closes v = ground arith
step-Inv w adds_sink v = ground arith

run-Inv : (w : FaninWriter) (es : List Event) → Inv w → Inv (run w es)
unfolding run
run-Inv w [] v = v
run-Inv w (e ∷ es) v = run-Inv (step w e) es (step-Inv w e v)

step-closed :
    (w : FaninWriter) (e : Event)
    → w.closed ≡ true
    → ((step w e).closed ≡ true) × ((step w e).sink ≡ w.sink)
unfolding step
step-closed w (writes chunk) c = ground arith
step-closed w closes c = ground arith
step-closed w adds_sink c = ground arith

run-closed : (w : FaninWriter) (es : List Event) → w.closed ≡ true → (run w es).sink ≡ w.sink
unfolding run
run-closed w [] c = refl
run-closed w (e ∷ es) c = let s = step-closed w e c in run-closed (step w e) es s.0 ∙ s.1

-- Whatever the sources of a new writer and its linker call, in any order: once the writer is closed,
-- its sink has been closed exactly once, and is given nothing more and not closed again.
pub sink-run :
    (before after : List Event)
    → (run new_fanin before).closed ≡ true
    → let w = run new_fanin before in (w.sink.closes ≡ 1) × ((run w after).sink ≡ w.sink)
sink-run before after closed =
    let w = run new_fanin before in
    (ground (arith, (run-Inv new_fanin before new-Inv).closed_once), run-closed w after closed)

step-locked : (w : FaninWriter) (e : Event) → w.locked ≡ true → (step w e).locked ≡ true
unfolding step
step-locked w (writes chunk) l = ground arith
step-locked w closes l = ground arith
step-locked w adds_sink l = ground arith

run-locked : (w : FaninWriter) (es : List Event) → w.locked ≡ true → (run w es).locked ≡ true
unfolding run
run-locked w [] l = l
run-locked w (e ∷ es) l = run-locked (step w e) es (step-locked w e l)

-- The first Close of a closed writer, such as that of a second source which ends, or of the linker
-- after a source has ended, returns an error and keeps the mutex: whatever is called afterwards, no
-- later Write and no later Close returns.
pub close-close :
    (w : FaninWriter) (after : List Event) (chunk : String)
    → w.has_sink ≡ true
    → w.locked ≡ false
    → w.closed ≡ true
    → let late = run (step w closes) after in
      (close w ≡ some (err closed_twice, step w closes))
      × (write chunk late ≡ none)
      × (close late ≡ none)
unfolding step write close
close-close w after chunk has unlocked closed = ground (arith, run-locked (step w closes) after)
