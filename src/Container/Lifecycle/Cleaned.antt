-- ===== src/Container/Lifecycle/Cleaned.antt =====
-- What Cleanup of linux_backend/linux_container.go leaves, where it returns.
use warden_linux.Base.{
  ◌≡◌, inl, inr, ℕ, Bool, true, false, ◌&&◌, List, [], ◌∷◌, String, none, some, if◌then◌else◌,
  Option-cases, Bool-cases, arith, refl,
}
use warden_linux.Container.Lifecycle.{cleanup, stop_oom_notifier}
use warden_linux.Container.{Host}
use warden_linux.ProcessTracker.{
  Process, ProcessTracker, is_linking, link_cmd, unlink, unlink_each, unlink_all,
}
use warden_linux.System.{Cmd, System}

-- For each process of a list a link was started.
abbrev pub all_linking : List ℕ → List Process → Bool
all_linking linking [] = true
all_linking linking (p ∷ ps) = is_linking p.id linking && all_linking linking ps

abbrev pub is_linked : ProcessTracker → Bool
is_linked t = all_linking t.linking t.processes

module _ {W : Type 0} (sys : System W) where
  abbrev pub unlinked : String → Process → W → Process × W
  unlinked path p w =
      if p.linkable
      then (record p { linkable = false }, sys.interrupt (link_cmd path p) w)
      else (p, w)

  unfoldable pub unlinked_each : String → List Process → W → List Process × W
  unlinked_each path [] w = ([], w)
  unlinked_each path (p ∷ ps) w =
      let (p', w') = unlinked path p w in
      let (ps', w'') = unlinked_each path ps w' in (p' ∷ ps', w'')

  unlink_each_lem :
      (linking : List ℕ) (path : String) (ps : List Process) (w : W)
      → unlink_each sys linking path ps w
        ≡ (if all_linking linking ps then some (unlinked_each path ps w) else none)
  unfolding unlink_each unlink unlinked_each
  unlink_each_lem linking path [] w = refl
  unlink_each_lem linking path (p ∷ ps) w =
      ground (arith, unlink_each_lem linking path ps (unlinked path p w).1)

  module _ (Kept : W → Type 0)
      (interrupts : (cmd : Cmd) (w : W) → Kept w → Kept (sys.interrupt cmd w)) where
    unlinked_world : (path : String) (p : Process) (w : W) → Kept w → Kept (unlinked path p w).1
    unfolding link_cmd
    unlinked_world path p w kept = elim (Bool-cases p.linkable) [
      | inl can ↦ rw (can) (interrupts (link_cmd path p) w kept)
      | inr gone ↦ rw (gone) kept
    ]

    unlinked_each_world :
        (path : String) (ps : List Process) (w : W) → Kept w → Kept (unlinked_each path ps w).1
    unfolding unlinked_each
    unlinked_each_world path [] w kept = kept
    unlinked_each_world path (p ∷ ps) w kept =
        unlinked_each_world path ps (unlinked path p w).1 (unlinked_world path p w kept)

module _ {P W : Type 0} (sys : System W) where
  unfoldable pub cleaned : Host P W → Host P W
  unfolding stop_oom_notifier
  cleaned h =
      let stopped : Host P W = (stop_oom_notifier sys h).1 in
      let t = stopped.container.process_tracker in
      let (ps, w) = unlinked_each sys t.container_path t.processes stopped.world in
      record stopped {
        container = record stopped.container { process_tracker = record t { processes = ps } };
        world = w;
      }

  -- Cleanup returns where a link was started for each process, and else never.
  pub cleanup_lem :
      (h : Host P W)
      → cleanup sys h ≡ (if is_linked h.container.process_tracker then some (cleaned h) else none)
  unfolding cleanup cleaned stop_oom_notifier unlink_all
  cleanup_lem h =
      let t = h.container.process_tracker in
      elim (Option-cases h.container.oom_notifier) [
        | inl absent ↦
            ground
              (arith, absent, unlink_each_lem sys t.linking t.container_path t.processes h.world)
        | inr (notifier, running) ↦ ground (
          arith,
          running,
          unlink_each_lem sys t.linking t.container_path t.processes (sys.kill notifier h.world),
        )
      ]

  -- Only the processes of the container are not as they were.
  pub cleaned_keeps :
      (h : Host P W)
      → (cleaned h).container
        ≡ record h.container { process_tracker = (cleaned h).container.process_tracker }
  unfolding cleaned stop_oom_notifier
  cleaned_keeps h = ground arith

  pub cleaned_world :
      (Kept : W → Type 0)
      → ((cmd : Cmd) (w : W) → Kept w → Kept (sys.kill cmd w))
      → ((cmd : Cmd) (w : W) → Kept w → Kept (sys.interrupt cmd w))
      → (h : Host P W) → Kept h.world
      → Kept (cleaned h).world
  unfolding cleaned stop_oom_notifier
  cleaned_world Kept kills interrupts h kept =
      let t = h.container.process_tracker in
      let unlinked = unlinked_each_world sys Kept interrupts t.container_path t.processes in
      elim (Option-cases h.container.oom_notifier) [
        | inl absent ↦ rw (absent) (unlinked h.world kept)
        | inr (notifier, running) ↦
            rw (running) (unlinked (sys.kill notifier h.world) (kills notifier h.world kept))
      ]
