-- ===== src/ProcessStreams/Fanin/Examples.antt =====
-- linux_backend/process_tracker/fanin_writer.go: the theorems at a few calls.
use warden_linux.Base.{◌≡◌, refl, true, false, List, [], ◌∷◌, some, none, err}
use warden_linux.ProcessStreams.Fanin.{
  Event, writes, closes, adds_sink, step, run, sink-run, close-close,
}
use warden_linux.ProcessStreams.{closed_twice, FaninWriter, new_fanin, add_sink, write, close}

abbrev one_source : List Event
one_source = adds_sink ∷ writes "ls" ∷ closes ∷ []

one_source_closed : (run new_fanin one_source).closed ≡ true
unfolding run step new_fanin add_sink write close
one_source_closed = refl

sink-run_example :
    ((run new_fanin one_source).sink.closes ≡ 1)
    × ((run (run new_fanin one_source) (writes "pwd" ∷ closes ∷ [])).sink
        ≡ (run new_fanin one_source).sink)
sink-run_example = sink-run one_source (writes "pwd" ∷ closes ∷ []) one_source_closed

abbrev closed_writer : FaninWriter
closed_writer = record {
  sink = record { chunks = "ls" ∷ []; closes = 1 };
  closed = true;
  locked = false;
  has_sink = true;
}

close-close_example :
    let late = run (step closed_writer closes) (writes "pwd" ∷ []) in
    (close closed_writer ≡ some (err closed_twice, step closed_writer closes))
    × (write "exit" late ≡ none)
    × (close late ≡ none)
close-close_example = close-close closed_writer (writes "pwd" ∷ []) "exit" refl refl refl
