-- ===== src/Container/Snapshots/World.antt =====
-- What Restore of linux_backend/linux_container.go leaves of the world.
use warden_linux.Base.{ℕ, String, Option, none, some, pure}
use warden_linux.CgroupsManager.{memory_file}
use warden_linux.Container.Limits.Keeps.{limit_memory_world}
use warden_linux.Container.Net.Keeps.{net_in_world, net_out_world}
use warden_linux.Container.Net.{net_in}
use warden_linux.Container.Snapshots.Frames.{Keeps-bind, restore-Keeps}
use warden_linux.Container.Snapshots.{
  ContainerSnapshot, restore_memory, restore_net_in, restore_net_out, restore,
}
use warden_linux.Container.{Host, MemoryLimits, NetInSpec, NetOutSpec}
use warden_linux.IdPool.{IdPool}
use warden_linux.PortPool.{PortError}
use warden_linux.System.{Cmd, System}

-- A property of the world that neither a command nor a file of the memory cgroup changes.
pub record IsStable {W : Type 0} (sys : System W) (cgroups_path : String) (Kept : W → Type 0)
    : Type 0 where
  pub runs : (cmd : Cmd) (w : W) → Kept w → Kept (sys.run cmd w).1
  pub starts : (cmd : Cmd) (w : W) → Kept w → Kept (sys.start cmd w).1
  pub writes :
      (id name text : String) (w : W)
      → Kept w
      → Kept (sys.write_file (memory_file cgroups_path id name) text w).1

module _ {P W : Type 0} (ports : IdPool P ℕ PortError) (sys : System W) (cgroups_path : String)
    (Kept : W → Type 0) (stable : IsStable sys cgroups_path Kept) where
  abbrev KeptBy : Host P W → Host P W → Type 0
  KeptBy h t = Kept h.world → Kept t.world

  restore_memory_world :
      (limits : Option MemoryLimits) (h : Host P W)
      → KeptBy h (restore_memory ports sys cgroups_path limits h).1
  unfolding restore_memory
  restore_memory_world none h kept = kept
  restore_memory_world (some limits) h kept =
      limit_memory_world sys cgroups_path Kept stable.starts stable.writes limits h kept

  restore_net_in_world :
      (spec : NetInSpec) (h : Host P W) → KeptBy h (restore_net_in ports sys cgroups_path spec h).1
  unfolding restore_net_in
  restore_net_in_world spec =
      Keeps-bind KeptBy (λ h kept. kept) (λ h t u a b kept. b (a kept))
        (net_in ports sys spec.host_port spec.container_port) (λ mapped. pure tt)
        (net_in_world ports sys Kept stable.runs spec.host_port spec.container_port)
        (λ mapped h kept. kept)

  restore_net_out_world :
      (spec : NetOutSpec) (h : Host P W)
      → KeptBy h (restore_net_out ports sys cgroups_path spec h).1
  unfolding restore_net_out
  restore_net_out_world spec h = net_out_world ports sys Kept stable.runs spec.network spec.port h

  pub restore_world :
      (s : ContainerSnapshot) (h : Host P W)
      → Kept h.world
      → Kept (restore ports sys cgroups_path s h).1.world
  restore_world s =
      restore-Keeps KeptBy (λ h kept. kept) (λ h t u a b kept. b (a kept)) ports sys cgroups_path s
        (record {
          names = λ h kept. kept;
          tracks = λ h kept. kept;
          limits = restore_memory_world s.limits.memory;
          runs = λ cmd h. stable.runs cmd h.world;
          net_ins = restore_net_in_world;
          net_outs = restore_net_out_world;
        })
