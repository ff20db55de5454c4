-- ===== src/ProcessStreams.antt =====
-- linux_backend/process_tracker/fanin_writer.go and fanout_writer.go: the streams between a process
-- and the clients that are attached to it. A call that returns holds the mutex for its whole body, or
-- keeps it for ever where it returns before the deferred Unlock; `none` stands for a call that does
-- not return.
pub mod Fanin
pub mod Fanout
use warden_linux.Base.{
  ℕ, suc, Bool, true, false, List, [], ◌∷◌, ◌++◌, map, String, Option, none, some, if◌then◌else◌,
  Result, ok, err,
}

pub data StreamError : Type 0 where
  write_after_close closed_twice : StreamError

-- What a writer was given, and how often it was closed.
pub record Sink : Type 0 where
  pub chunks : List String
  pub closes : ℕ

-- faninWriter: `has_sink` says that the channel is closed, `locked` that the mutex is held.
pub record FaninWriter : Type 0 where
  pub sink : Sink
  pub closed : Bool
  pub locked : Bool
  pub has_sink : Bool

pub new_fanin : FaninWriter
new_fanin = record {
  sink = record { chunks = []; closes = 0 };
  closed = false;
  locked = false;
  has_sink = false;
}

abbrev pub Call : Type 0 → Type 0
Call W = W → Option (Result StreamError (Unit {0}) × W)

-- The channel is closed once: AddSink is called by the only run of runLinker.
pub add_sink : FaninWriter → FaninWriter
add_sink w = record w { has_sink = true }

-- `<-w.hasSink; w.writeL.Lock()` returns.
abbrev enters : FaninWriter → Bool
enters w = if w.has_sink then (if w.locked then false else true) else false

pub write : String → Call FaninWriter
write chunk w =
    if enters w
    then (if w.closed
        then some (err write_after_close, record w { locked = true })
        else some
            (ok tt, record w { sink = record w.sink { chunks = w.sink.chunks ++ chunk ∷ [] } }))
    else none

pub close : Call FaninWriter
close w =
    if enters w
    then (if w.closed
        then some (err closed_twice, record w { locked = true })
        else some (
          ok tt,
          record w { closed = true; sink = record w.sink { closes = suc w.sink.closes } },
        ))
    else none

-- AddSource: the chunks that the source gives are copied, up to an error, and then the writer is
-- closed.
pub copy : List String → FaninWriter → FaninWriter
unfolding write close
copy [] w = elim (close w) [ none ↦ w | some (r, after) ↦ after ]
copy (chunk ∷ rest) w = elim (write chunk w) [
  | none ↦ w
  | some (ok done, after) ↦ copy rest after
  | some (err e, after) ↦ elim (close after) [ none ↦ after | some (r, later) ↦ later ]
]

-- fanoutWriter: nothing sets `closed`.
pub record FanoutWriter : Type 0 where
  pub sinks : List Sink
  pub closed : Bool
  pub locked : Bool

pub new_fanout : FanoutWriter
new_fanout = record { sinks = []; closed = false; locked = false }

abbrev pub give : String → Sink → Sink
give chunk s = record s { chunks = s.chunks ++ chunk ∷ [] }

pub write_all : String → Call FanoutWriter
write_all chunk w =
    if w.locked
    then none
    else if w.closed
    then some (err write_after_close, record w { locked = true })
    else some (ok tt, record w { sinks = map (give chunk) w.sinks })

pub add_fanout_sink : Sink → Call FanoutWriter
add_fanout_sink s w =
    if w.locked
    then none
    else some (ok tt, record w { sinks = if w.closed then w.sinks else w.sinks ++ s ∷ [] })
