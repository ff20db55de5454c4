-- ===== src/Container/Limits/Keeps.antt =====
-- What LimitMemory of linux_backend/linux_container.go leaves alone.
use warden_linux.Base.{◌≡◌, String, arith, Option-cases, Result-cases, inl, inr}
use warden_linux.CgroupsManager
use warden_linux.CgroupsManager.{memory_file}
use warden_linux.Container.Lifecycle.{start_oom_notifier, oom_cmd}
use warden_linux.Container.Limits.{limit_memory}
use warden_linux.Container.{Host, MemoryLimits}
use warden_linux.System.{Cmd, System}
use warden_linux.Text.{decimal}

module _ {P W : Type 0} (sys : System W) (cgroups_path : String) where
  pub limit_memory_keeps :
      (limits : MemoryLimits) (h : Host P W)
      → let t = (limit_memory sys cgroups_path limits h).1 in
        (t.container.handle ≡ h.container.handle)
        × (t.container.resources ≡ h.container.resources)
        × (t.port_pool ≡ h.port_pool)
  unfolding limit_memory start_oom_notifier
  limit_memory_keeps limits h = ground arith

  -- Start of a command and writes to files of the memory cgroup are all that LimitMemory does to the
  -- world.
  module _ (Kept : W → Type 0) (starts : (cmd : Cmd) (w : W) → Kept w → Kept (sys.start cmd w).1)
      (writes : (id name text : String) (w : W)
        → Kept w
        → Kept (sys.write_file (memory_file cgroups_path id name) text w).1) where
    start_oom_notifier_world :
        (h : Host P W) → Kept h.world → Kept (start_oom_notifier sys cgroups_path h).1.world
    unfolding start_oom_notifier
    start_oom_notifier_world h kept = elim (Option-cases h.container.oom_notifier) [
      | inr (notifier, running) ↦ rw (running) kept
      | inl absent ↦ rw (absent) (starts (oom_cmd cgroups_path h.container) h.world kept)
    ]

    pub limit_memory_world :
        (limits : MemoryLimits) (h : Host P W)
        → Kept h.world
        → Kept (limit_memory sys cgroups_path limits h).1.world
    unfolding limit_memory CgroupsManager.set
    limit_memory_world limits h kept =
        let r = start_oom_notifier sys cgroups_path h in
        let id = r.1.container.id in
        let text = decimal limits.limit_in_bytes in
        let write =
          λ (name : String) (w : W). sys.write_file (memory_file cgroups_path id name) text w in
        let w1 = (write "memory.limit_in_bytes" r.1.world).1 in
        let w2 = (write "memory.memsw.limit_in_bytes" w1).1 in
        let w3 = write "memory.limit_in_bytes" w2 in
        let started = start_oom_notifier_world h kept in
        let written : Kept w3.1 = writes id "memory.limit_in_bytes" text w2 (
          writes id "memory.memsw.limit_in_bytes" text w1
            (writes id "memory.limit_in_bytes" text r.1.world started)) in
        elim (Result-cases r.0) [
          | inr (e, failed) ↦ rw (failed) started
          | inl (done, began) ↦ elim (Result-cases w3.0) [
            | inr (e, failed) ↦ rw (began, failed) written
            | inl (done', ended) ↦ rw (began, ended) written
          ]
        ]
