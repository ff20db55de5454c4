-- ===== src/ProcessStreams/Fanout.antt =====
-- linux_backend/process_tracker/fanout_writer.go against a description of what a sink is given.
pub mod Examples
use mathlib.Core.List.{append-nil, append_assoc, map-append}
use warden_linux.Base.{
  ◌≡◌, refl, ap, ◌∙◌, Bool, true, false, List, [], ◌∷◌, ◌++◌, map, String, Option, none, some,
  arith,
}
use warden_linux.ProcessStreams.{Sink, FanoutWriter, new_fanout, give, write_all, add_fanout_sink}

pub data Event : Type 0 where
  writes : String → Event
  adds : Sink → Event

pub step : FanoutWriter → Event → FanoutWriter
unfolding write_all add_fanout_sink
step w (writes chunk) = elim (write_all chunk w) [ none ↦ w | some (r, after) ↦ after ]
step w (adds s) = elim (add_fanout_sink s w) [ none ↦ w | some (r, after) ↦ after ]

pub run : FanoutWriter → List Event → FanoutWriter
run w [] = w
run w (e ∷ es) = run (step w e) es

-- The chunks that are written, in order.
pub written : List Event → List String
written [] = []
written (writes chunk ∷ es) = chunk ∷ written es
written (adds s ∷ es) = written es

abbrev pub give_all : List String → Sink → Sink
give_all chunks s = record s { chunks = s.chunks ++ chunks }

-- Each sink is given what is written after it was added.
pub received : List Event → List Sink
unfolding written
received [] = []
received (writes chunk ∷ es) = received es
received (adds s ∷ es) = give_all (written es) s ∷ received es

map-give_nil : (sinks : List Sink) → map (give_all []) sinks ≡ sinks
map-give_nil [] = refl
map-give_nil (s ∷ sinks) = ground (arith, append-nil s.chunks, map-give_nil sinks)

map-give_all :
    (chunk : String) (chunks : List String) (sinks : List Sink)
    → map (give_all chunks) (map (give chunk) sinks) ≡ map (give_all (chunk ∷ chunks)) sinks
map-give_all chunk chunks [] = refl
map-give_all chunk chunks (s ∷ sinks) =
    ground (arith, append_assoc s.chunks (chunk ∷ []) chunks, map-give_all chunk chunks sinks)

run_lem :
    (w : FanoutWriter) (es : List Event)
    → w.locked ≡ false
    → w.closed ≡ false
    → (run w es).sinks ≡ map (give_all (written es)) w.sinks ++ received es
unfolding run step written received
run_lem w [] l c = ground (arith, map-give_nil w.sinks, append-nil w.sinks)
run_lem w (writes chunk ∷ es) l c =
    ground (arith, run_lem (step w (writes chunk)) es, map-give_all chunk (written es) w.sinks)
run_lem w (adds s ∷ es) l c = ground (
  arith,
  run_lem (step w (adds s)) es,
  map-append (give_all (written es)) w.sinks (s ∷ []),
  append_assoc (map (give_all (written es)) w.sinks) (give_all (written es) s ∷ []) (received es),
)

-- Whatever is written and added, in any order: the sinks of a new writer are those that were added,
-- in order, and each of them has been given exactly what was written after it was added.
pub sinks-run : (es : List Event) → (run new_fanout es).sinks ≡ received es
unfolding new_fanout
sinks-run es = run_lem new_fanout es refl refl
