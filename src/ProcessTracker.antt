-- ===== src/ProcessTracker.antt =====
-- linux_backend/process_tracker/process_tracker.go: the table of a container's processes.
-- Each method holds the tracker's mutex while it works on the table, so a call is one step on it.
pub mod Fresh
pub mod Unspawned
use warden_linux.Base.{
  ℕ, ◌+◌, Bool, true, false, List, [], ◌∷◌, ◌++◌, map, String, Option, none, some, leb, ◌==◌, ◌||◌,
  if◌then◌else◌, add_u32, Result, ok, err, Exec,
}
use warden_linux.System.{Cmd, Error, System}
use warden_linux.Text.{◌<>◌, decimal, path_join}

-- process_tracker.Process: `linkable` says that the channel `unlinked` still holds its one value.
pub record Process : Type 0 where
  pub id : ℕ
  pub with_tty : Bool
  pub linkable : Bool

-- The table, a Go map, has one entry for an id; `linking` holds the ids for which `go t.link(id)`
-- was started and has not ended.
pub record ProcessTracker : Type 0 where
  pub container_path : String
  pub processes : List Process
  pub next_process_id : ℕ
  pub linking : List ℕ

pub new : String → ProcessTracker
new container_path = record {
  container_path = container_path;
  processes = [];
  next_process_id = 1;
  linking = [];
}

-- NewProcess
pub new_process : ℕ → Bool → Process
new_process id with_tty = record { id = id; with_tty = with_tty; linkable = true }

pub delete : ℕ → List Process → List Process
delete id [] = []
delete id (p ∷ ps) = let rest = delete id ps in if p.id == id then rest else p ∷ rest

-- `t.processes[id] = process`
pub put : Process → List Process → List Process
unfolding delete
put p ps = delete p.id ps ++ p ∷ []

pub find : ℕ → List Process → Option Process
find id [] = none
find id (p ∷ ps) = if p.id == id then some p else find id ps

-- The part of Run under the lock: the next id, and a process registered under it.
pub allocate : Bool → ProcessTracker → ℕ × ProcessTracker
unfolding new_process put
allocate with_tty t =
    let id = t.next_process_id in
    (
      id,
      record t {
        next_process_id = add_u32 id 1;
        processes = put (new_process id with_tty) t.processes;
      },
    )

-- `go t.link(id)`
pub start_link : ℕ → ProcessTracker → ProcessTracker
start_link id t = record t { linking = id ∷ t.linking }

pub restore : ℕ → Bool → ProcessTracker → ProcessTracker
unfolding new_process put start_link
restore id with_tty t = start_link id (record t {
  processes = put (new_process id with_tty) t.processes;
  next_process_id = if leb t.next_process_id id then add_u32 id 1 else t.next_process_id;
})

-- Run, with what the channels `ready` and `active` of Spawn give: the returned process is named by
-- its id. A process that could not be spawned stays in the table.
pub run : Bool → Result Error (Unit {0}) → Result Error (Unit {0}) → Exec ProcessTracker Error ℕ
unfolding allocate start_link
run with_tty ready active t =
    let (id, allocated) = allocate with_tty t in
    elim ready [
      | err e ↦ (err e, allocated)
      | ok done ↦ (elim active [ err e ↦ err e | ok done ↦ ok id ], start_link id allocated)
    ]

pub attach : ℕ → Exec ProcessTracker Error ℕ
unfolding find start_link
attach id t = elim (find id t.processes) [
  | none ↦ (err (Error.unknown_process id), t)
  | some p ↦ (ok id, start_link id t)
]

unfoldable pub active_processes : ProcessTracker → List Process
active_processes t = t.processes

pub unregister : ℕ → ProcessTracker → ProcessTracker
unfolding delete
unregister id t = record t { processes = delete id t.processes }

-- The command that a process's linker runs.
unfoldable pub link_cmd : String → Process → Cmd
link_cmd container_path p = record {
  path = path_join (container_path ∷ "bin" ∷ "iodaemon" ∷ []);
  args =
      ("-tty=" <> (if p.with_tty then "true" else "false"))
      ∷ "link"
      ∷ path_join (container_path ∷ "processes" ∷ (decimal p.id <> ".sock") ∷ [])
      ∷ [];
  env = [];
}

-- `go t.link(id)` was started, and has not ended: the channel `linked` of the process is closed once
-- its linker runs. A linker that cannot be started, and does not close it, is in Process.
unfoldable pub is_linking : ℕ → List ℕ → Bool
is_linking id [] = false
is_linking id (other ∷ linking) = other == id || is_linking id linking

module _ {W : Type 0} (sys : System W) where
  -- Process.Unlink: `<-p.linked` waits for the linker, for ever where no link was started. The first
  -- call takes the value of `unlinked` and interrupts the linker, a later one does nothing.
  unfoldable pub unlink : Bool → String → Process → W → Option (Process × W)
  unfolding link_cmd
  unlink linked container_path p w =
      if linked
      then (if p.linkable
          then some (record p { linkable = false }, sys.interrupt (link_cmd container_path p) w)
          else some (p, w))
      else none

  -- The loop of UnlinkAll; the error of Unlink is dropped.
  unfoldable pub unlink_each : List ℕ → String → List Process → W → Option (List Process × W)
  unfolding unlink is_linking
  unlink_each linking container_path [] w = some ([], w)
  unlink_each linking container_path (p ∷ ps) w =
      elim (unlink (is_linking p.id linking) container_path p w) [
        | none ↦ none
        | some (p', w') ↦ elim (unlink_each linking container_path ps w') [
          | none ↦ none
          | some (ps', w'') ↦ some (p' ∷ ps', w'')
        ]
      ]

  unfoldable pub unlink_all : ProcessTracker → W → Option (ProcessTracker × W)
  unfolding unlink_each
  unlink_all t w = elim (unlink_each t.linking t.container_path t.processes w) [
    | none ↦ none
    | some (ps, w') ↦ some (record t { processes = ps }, w')
  ]
