-- ===== src/Container/Limits/ReadBack.antt =====
-- Limits that are set and reported, of linux_backend/linux_container.go.
use warden_linux.Base.{ℕ, ◌<◌, ◌≡◌, String, ok, arith, u64_mod}
use warden_linux.CgroupsManager
use warden_linux.CgroupsManager.Trim.{trim_newlines-line}
use warden_linux.CgroupsManager.{memory_file, file, trim_newlines}
use warden_linux.Container.Lifecycle.{start_oom_notifier, oom_cmd}
use warden_linux.Container.Limits.{
  limit_memory, current_memory_limits, limit_cpu, current_cpu_limits, parse_limit,
}
use warden_linux.Container.{Host}
use warden_linux.System.{System}
use warden_linux.Text.Decimal.{parse_uint-decimal, AllDigitChars-decimal}
use warden_linux.Text.{◌<>◌, decimal}

-- A cgroup file that keeps a number: after it was written, a line with it is read.
abbrev pub Keeps : {W : Type 0} → System W → String → ℕ → Type 0
Keeps {W = W} sys name n =
    (w : W)
    → (sys.write_file name (decimal n) w).0 ≡ ok tt
    → (sys.read_file name (sys.write_file name (decimal n) w).1).0 ≡ ok (decimal n <> "\n")

module _ {W : Type 0} (sys : System W) (cgroups_path : String) where
  get-Keeps :
      (id subsystem name : String) (n : ℕ) (w : W)
      → (sys.read_file (file cgroups_path id subsystem name) w).0 ≡ ok (decimal n <> "\n")
      → (CgroupsManager.get sys cgroups_path id subsystem name w).0 ≡ ok (decimal n)
  unfolding CgroupsManager.get
  get-Keeps id subsystem name n w read =
      ground (arith, read, trim_newlines-line (decimal n) (AllDigitChars-decimal n))

  -- The world before the last write of LimitMemory, from the world after the notifier's start.
  abbrev before_last : String → ℕ → W → W
  before_last id n w =
      (sys.write_file (memory_file cgroups_path id "memory.memsw.limit_in_bytes") (decimal n)
        (sys.write_file (memory_file cgroups_path id "memory.limit_in_bytes") (decimal n) w).1).1

module _ {P W : Type 0} (sys : System W) (cgroups_path : String) where
  -- After LimitCPU has succeeded, CurrentCPULimits returns the shares that were set, provided that
  -- they are a uint64 and the cgroup file keeps them.
  pub current_cpu_limits-limit_cpu :
      (n : ℕ) (h : Host P W)
      → n < u64_mod
      → Keeps sys (file cgroups_path h.container.id "cpu" "cpu.shares") n
      → (limit_cpu sys cgroups_path (record { limit_in_shares = n }) h).0 ≡ ok tt
      → (current_cpu_limits sys cgroups_path
          (limit_cpu sys cgroups_path (record { limit_in_shares = n }) h).1).0
        ≡ ok (record { limit_in_shares = n })
  unfolding limit_cpu current_cpu_limits parse_limit CgroupsManager.set
  current_cpu_limits-limit_cpu n h small keeps done =
      let name = file cgroups_path h.container.id "cpu" "cpu.shares" in
      ground (
        arith,
        parse_uint-decimal n small,
        keeps h.world,
        get-Keeps sys cgroups_path h.container.id "cpu" "cpu.shares" n
            (sys.write_file name (decimal n) h.world).1,
      )

  -- After LimitMemory has succeeded, CurrentMemoryLimits returns the limit that was set, provided
  -- that it is a uint64 and the cgroup file keeps it.
  pub current_memory_limits-limit_memory :
      (n : ℕ) (h : Host P W)
      → n < u64_mod
      → Keeps sys (memory_file cgroups_path h.container.id "memory.limit_in_bytes") n
      → (limit_memory sys cgroups_path (record { limit_in_bytes = n }) h).0 ≡ ok tt
      → (current_memory_limits sys cgroups_path
          (limit_memory sys cgroups_path (record { limit_in_bytes = n }) h).1).0
        ≡ ok (record { limit_in_bytes = n })
  unfolding limit_memory current_memory_limits parse_limit CgroupsManager.set start_oom_notifier
  current_memory_limits-limit_memory n h small keeps done =
      let id = h.container.id in
      let name = memory_file cgroups_path id "memory.limit_in_bytes" in
      let running : W = before_last sys cgroups_path id n h.world in
      let started : W =
        before_last sys cgroups_path id n
          (sys.start (oom_cmd cgroups_path h.container) h.world).1 in
      ground (
        arith,
        parse_uint-decimal n small,
        keeps running,
        keeps started,
        get-Keeps sys cgroups_path id "memory" "memory.limit_in_bytes" n
            (sys.write_file name (decimal n) running).1,
        get-Keeps sys cgroups_path id "memory" "memory.limit_in_bytes" n
            (sys.write_file name (decimal n) started).1,
      )
