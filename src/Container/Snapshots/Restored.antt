-- ===== src/Container/Snapshots/Restored.antt =====
-- What a container is after it was restored from a snapshot.
use mathlib.Core.List.{append-nil, append_assoc}
use warden_linux.Base.{
  if◌then◌else◌, ℕ, ◌≡◌, List, [], ◌∷◌, ◌++◌, String, Option, none, some, ok, for_each, arith, ◌==◌,
  false,
}
use warden_linux.Container
use warden_linux.Container.Lifecycle.{oom_cmd, register_event, set_state}
use warden_linux.Container.Limits.Memory.{notifier_of, Leaves-limit_memory}
use warden_linux.Container.Net.{net_cmd, net_in, net_out}
use warden_linux.Container.Net.Outcomes.{Leaves, Leaves-net_in, Leaves-net_out}
use warden_linux.Container.Snapshots.{
  ContainerSnapshot, snapshot, register_events, restore_processes, restore_memory, restore_net_in,
  restore_net_out, restore,
}
use warden_linux.Text.{◌===◌}
use warden_linux.Container.{MemoryLimits, Container, Host, NetInSpec, NetOutSpec}
use warden_linux.IdPool.{IdPool}
use warden_linux.PortPool.{PortError}
use warden_linux.ProcessTracker.{ProcessTracker}
use warden_linux.System.{Cmd, System, Succeeds}

-- Each mapping has both its ports, as NetIn records them, and each permission a network or a port.
abbrev pub AllMapped : List NetInSpec → Type 0
AllMapped [] = Unit {0}
AllMapped (spec ∷ rest) =
    ((spec.host_port == 0) ≡ false) × ((spec.container_port == 0) ≡ false) × AllMapped rest

events-register_events :
    (events : List String) (c : Container)
    → register_events events c ≡ record c { events = c.events ++ events }
unfolding register_events register_event
events-register_events [] c = ground (arith, append-nil c.events)
events-register_events (e ∷ events) c = ground (
  arith,
  events-register_events events (register_event e c),
  append_assoc c.events (e ∷ []) events,
)

abbrev pub AllPermitted : List NetOutSpec → Type 0
AllPermitted [] = Unit {0}
AllPermitted (spec ∷ rest) =
    ((if spec.port == 0 then spec.network === "" else false) ≡ false) × AllPermitted rest

-- The limits on memory and the notifier that a snapshot's limits leave.
abbrev pub memory_after : Option MemoryLimits → Option MemoryLimits → Option MemoryLimits
memory_after none before = before
memory_after (some limits) before = some limits

abbrev pub notifier_after : String → Option MemoryLimits → Container → Option Cmd
notifier_after cgroups_path none c = c.oom_notifier
notifier_after cgroups_path (some limits) c = notifier_of cgroups_path c

module _ {P W : Type 0} (ports : IdPool P ℕ PortError) (sys : System W) (cgroups_path : String)
    (works : Succeeds sys) where
  Leaves-net_ins :
      (specs : List NetInSpec) (h : Host P W)
      → AllMapped specs
      → Leaves
          (for_each (restore_net_in ports sys cgroups_path) specs h)
          tt
          (record h.container { net_ins = h.container.net_ins ++ specs })
          h.port_pool
  unfolding restore_net_in
  Leaves-net_ins [] h m = ground (arith, append-nil h.container.net_ins)
  Leaves-net_ins (spec ∷ rest) h m =
      let first = Leaves-net_in ports sys works spec.host_port spec.container_port h m.0 m.1 in
      let others =
        Leaves-net_ins rest (net_in ports sys spec.host_port spec.container_port h).1 m.2 in
      ground (arith, first, others, append_assoc h.container.net_ins (spec ∷ []) rest)

  Leaves-net_outs :
      (specs : List NetOutSpec) (h : Host P W)
      → AllPermitted specs
      → Leaves
          (for_each (restore_net_out ports sys cgroups_path) specs h)
          tt
          (record h.container { net_outs = h.container.net_outs ++ specs })
          h.port_pool
  unfolding restore_net_out
  Leaves-net_outs [] h m = ground (arith, append-nil h.container.net_outs)
  Leaves-net_outs (spec ∷ rest) h m =
      let first = Leaves-net_out ports sys works spec.network spec.port h m.0 in
      let others = Leaves-net_outs rest (net_out ports sys spec.network spec.port h).1 m.1 in
      ground (arith, first, others, append_assoc h.container.net_outs (spec ∷ []) rest)

  Leaves-memory :
      (limits : Option MemoryLimits) (h : Host P W)
      → Leaves
          (restore_memory ports sys cgroups_path limits h)
          tt
          (record h.container {
            oom_notifier = notifier_after cgroups_path limits h.container;
            current_memory_limits = memory_after limits h.container.current_memory_limits;
          })
          h.port_pool
  unfolding restore_memory
  Leaves-memory none h = ground arith
  Leaves-memory (some limits) h = Leaves-limit_memory sys cgroups_path works limits h

  -- What Restore makes of a container.
  abbrev pub restored : ContainerSnapshot → Container → Container
  restored s c = record c {
    state = s.state;
    events = c.events ++ s.events;
    oom_notifier = notifier_after cgroups_path s.limits.memory c;
    current_memory_limits = memory_after s.limits.memory c.current_memory_limits;
    process_tracker = restore_processes s.processes c.process_tracker;
    net_ins = c.net_ins ++ s.net_ins;
    net_outs = c.net_outs ++ s.net_outs;
  }

  pub Leaves-restore :
      (s : ContainerSnapshot) (h : Host P W)
      → AllMapped s.net_ins
      → AllPermitted s.net_outs
      → Leaves (restore ports sys cgroups_path s h) tt (restored s h.container) h.port_pool
  unfolding restore set_state oom_cmd
  Leaves-restore s h mapped permitted = ground (
    arith,
    events-register_events s.events (set_state s.state h.container),
    Leaves-memory s.limits.memory named,
    works.run_ok (net_cmd tracked.container ("setup" ∷ []) []) tracked.world,
    Leaves-net_ins s.net_ins set_up mapped,
    Leaves-net_outs s.net_outs (for_each (restore_net_in ports sys cgroups_path) s.net_ins set_up).1
        permitted,
  )
    where
      named : Host P W
      named = record h { container = register_events s.events (set_state s.state h.container) }

      limited : Host P W
      limited = (restore_memory ports sys cgroups_path s.limits.memory named).1

      tracked : Host P W
      tracked = record limited {
        container = record limited.container {
          process_tracker = restore_processes s.processes limited.container.process_tracker;
        };
      }

      set_up : Host P W
      set_up = record tracked {
        world = (sys.run (net_cmd tracked.container ("setup" ∷ []) []) tracked.world).1;
      }

  -- A container that is saved, and restored into a new one of the same name and resources, has its
  -- state, events, mappings, permissions and limit on memory again, provided that no command and no
  -- write fails, that its mappings have both ports, and that its permissions name a network or a
  -- port. The port pool is left alone. The limits on CPU, disk and bandwidth, which the snapshot
  -- holds too, are not restored.
  pub restore-snapshot :
      (c : Container) (path : String) (tracker : ProcessTracker) (pool : P) (w : W)
      → AllMapped c.net_ins
      → AllPermitted c.net_outs
      → let blank =
          Container.new c.id c.handle path c.properties c.grace_time c.resources tracker in
        let r =
          restore ports sys cgroups_path
            (snapshot c)
            (record { container = blank; port_pool = pool; world = w }) in
        (r.0 ≡ ok tt)
        × (r.1.container.id ≡ c.id)
        × (r.1.container.handle ≡ c.handle)
        × (r.1.container.properties ≡ c.properties)
        × (r.1.container.state ≡ c.state)
        × (r.1.container.events ≡ c.events)
        × (r.1.container.resources ≡ c.resources)
        × (r.1.container.net_ins ≡ c.net_ins)
        × (r.1.container.net_outs ≡ c.net_outs)
        × (r.1.container.current_memory_limits ≡ c.current_memory_limits)
        × (r.1.port_pool ≡ pool)
        × (r.1.container.current_cpu_limits ≡ none)
        × (r.1.container.current_disk_limits ≡ none)
        × (r.1.container.current_bandwidth_limits ≡ none)
  unfolding snapshot Container.new
  restore-snapshot c path tracker pool w mapped permitted =
      let s = snapshot c in
      let h : Host P W = record {
        container = Container.new c.id c.handle path c.properties c.grace_time c.resources tracker;
        port_pool = pool;
        world = w;
      } in
      ground (arith, Leaves-restore s h mapped permitted)
