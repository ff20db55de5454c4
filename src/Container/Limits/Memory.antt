-- ===== src/Container/Limits/Memory.antt =====
-- LimitMemory of linux_backend/linux_container.go: the order of its writes.
use warden_linux.Base.{
  true, Bool, ℕ, Option-cases, ◌<◌, ◌≡◌, ◌≤◌, String, Option, none, some, ok, arith, leb,
  Bool-cases, inl, inr,
}
use warden_linux.CgroupsManager
use warden_linux.CgroupsManager.{memory_file}
use warden_linux.Container.Lifecycle.{start_oom_notifier, oom_cmd}
use warden_linux.Container.Limits.{limit_memory}
use warden_linux.Container.Net.Outcomes.{Leaves}
use warden_linux.Container.{Container, Host, MemoryLimits}
use warden_linux.System.{Cmd, System, Succeeds}
use warden_linux.Text.{decimal}

-- The memory cgroup of a container, for a limit `n`. It has a limit on memory and a limit on memory
-- and swap, and the first never passes the second: a write of n that would break that fails and
-- changes nothing. A write of n sets not n, but what the kernel makes of it (whole pages); and it
-- fails where the memory in use cannot be brought down to n, so that it is only said to succeed from
-- where `has_room` holds, which starting a command and these writes do not end.
pub record MemoryCgroup {W : Type 0} (sys : System W) (limit_file memsw_file : String) (n : ℕ)
    : Type 0 where
  pub limit : W → ℕ
  pub memsw : W → ℕ
  pub in_pages : ℕ
  pub has_room : W → Bool
  pub start_keeps :
      (cmd : Cmd) (w : W)
      → let v = (sys.start cmd w).1 in
        (limit v ≡ limit w) × (memsw v ≡ memsw w) × (has_room v ≡ has_room w)
  pub write_limit :
      (w : W)
      → has_room w ≡ true
      → in_pages ≤ memsw w
      → let r = sys.write_file limit_file (decimal n) w in
        (r.0 ≡ ok tt) × (limit r.1 ≡ in_pages) × (memsw r.1 ≡ memsw w) × (has_room r.1 ≡ true)
  pub write_limit_above :
      (w : W) → memsw w < in_pages → (sys.write_file limit_file (decimal n) w).1 ≡ w
  pub write_memsw :
      (w : W)
      → has_room w ≡ true
      → limit w ≤ in_pages
      → let r = sys.write_file memsw_file (decimal n) w in
        (r.0 ≡ ok tt) × (memsw r.1 ≡ in_pages) × (limit r.1 ≡ limit w) × (has_room r.1 ≡ true)

module _ {W : Type 0} {sys : System W} {limit_file memsw_file : String} {n : ℕ}
    (cgroup : MemoryCgroup sys limit_file memsw_file n) where
  abbrev after_first : W → W
  after_first w = (sys.write_file limit_file (decimal n) w).1

  abbrev after_second : W → W
  after_second w = (sys.write_file memsw_file (decimal n) (after_first w)).1

  -- After the first write, failed or not, the limit does not pass the new one.
  first_write :
      (w : W)
      → cgroup.has_room w ≡ true
      → cgroup.limit w ≤ cgroup.memsw w
      → (cgroup.limit (after_first w) ≤ cgroup.in_pages) × (cgroup.has_room (after_first w) ≡ true)
  first_write w room valid = elim (Bool-cases (leb cgroup.in_pages (cgroup.memsw w))) [
    | inl below ↦ ground (arith, below, cgroup.write_limit w room)
    | inr above ↦
        rw (cgroup.write_limit_above w (ground (arith, above))) (ground (arith, above, valid), room)
  ]

  third_write :
      (w : W)
      → cgroup.has_room w ≡ true
      → cgroup.limit w ≤ cgroup.memsw w
      → let r = sys.write_file limit_file (decimal n) (after_second w) in
        (r.0 ≡ ok tt) × (cgroup.limit r.1 ≡ cgroup.in_pages) × (cgroup.memsw r.1 ≡ cgroup.in_pages)
  third_write w room valid = ground (
    arith,
    first_write w room valid,
    cgroup.write_memsw (after_first w),
    cgroup.write_limit (after_second w),
  )

-- The notifier that a container has once one was started.
abbrev pub notifier_of : String → Container → Option Cmd
notifier_of cgroups_path c = elim c.oom_notifier [
  | none ↦ some (oom_cmd cgroups_path c)
  | some n ↦ some n
]

module _ {P W : Type 0} (sys : System W) (cgroups_path : String) where
  -- Whatever the limits were, and whether the new one is above or below them, LimitMemory succeeds
  -- and leaves both limits at what the kernel makes of the new one, and records the new one. This is
  -- so where the notifier's command starts if it has to be started, on a memory cgroup that
  -- has the first limit not above the second and refuses no other write of the new limit: the memory
  -- in use can be brought down to it throughout.
  pub limit_memory_both :
      (h : Host P W) (n : ℕ)
      (cgroup : MemoryCgroup sys
        (memory_file cgroups_path h.container.id "memory.limit_in_bytes")
        (memory_file cgroups_path h.container.id "memory.memsw.limit_in_bytes")
        n)
      → (h.container.oom_notifier ≡ none
          → (sys.start (oom_cmd cgroups_path h.container) h.world).0 ≡ ok tt)
      → cgroup.has_room h.world ≡ true
      → cgroup.limit h.world ≤ cgroup.memsw h.world
      → let r = limit_memory sys cgroups_path (record { limit_in_bytes = n }) h in
        (r.0 ≡ ok tt)
        × (cgroup.limit r.1.world ≡ cgroup.in_pages)
        × (cgroup.memsw r.1.world ≡ cgroup.in_pages)
        × (r.1.container.current_memory_limits ≡ some (record { limit_in_bytes = n }))
  unfolding limit_memory start_oom_notifier CgroupsManager.set
  limit_memory_both h n cgroup starts room valid = elim (Option-cases h.container.oom_notifier) [
    | inr (c, running) ↦ ground (arith, running, third_write cgroup h.world room valid)
    | inl absent ↦ ground (
      arith,
      absent,
      starts absent,
      cgroup.start_keeps (oom_cmd cgroups_path h.container) h.world,
      third_write cgroup (sys.start (oom_cmd cgroups_path h.container) h.world).1,
    )
  ]

  -- Where nothing fails, the limit is recorded and a notifier runs.
  pub Leaves-limit_memory :
      (works : Succeeds sys) (limits : MemoryLimits) (h : Host P W)
      → Leaves
          (limit_memory sys cgroups_path limits h)
          tt
          (record h.container {
            oom_notifier = notifier_of cgroups_path h.container;
            current_memory_limits = some limits;
          })
          h.port_pool
  unfolding limit_memory start_oom_notifier CgroupsManager.set
  Leaves-limit_memory works limits h = ground (
    arith,
    works.start_ok (oom_cmd cgroups_path h.container) h.world,
    last_write h.world,
    last_write (sys.start (oom_cmd cgroups_path h.container) h.world).1,
  )
    where
      limit : String
      limit = decimal limits.limit_in_bytes

      limit_file : String
      limit_file = memory_file cgroups_path h.container.id "memory.limit_in_bytes"

      memsw_file : String
      memsw_file = memory_file cgroups_path h.container.id "memory.memsw.limit_in_bytes"

      last_write :
          (w : W)
          → (sys.write_file limit_file limit
              (sys.write_file memsw_file limit (sys.write_file limit_file limit w).1).1).0
            ≡ ok tt
      last_write w = works.write_ok limit_file limit _
