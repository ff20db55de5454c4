-- ===== src/ProcessStreams/Fanout/Examples.antt =====
-- linux_backend/process_tracker/fanout_writer.go: the theorem at a few calls.
use warden_linux.Base.{◌≡◌, List, [], ◌∷◌}
use warden_linux.ProcessStreams.Fanout.{Event, writes, adds, run, written, received, sinks-run}
use warden_linux.ProcessStreams.{new_fanout}

abbrev late_client : List Event
late_client = writes "total 0" ∷ adds (record { chunks = []; closes = 0 }) ∷ writes "done" ∷ []

sinks-run_example :
    (run new_fanout late_client).sinks ≡ record { chunks = "done" ∷ []; closes = 0 } ∷ []
unfolding received written
sinks-run_example = sinks-run late_client
