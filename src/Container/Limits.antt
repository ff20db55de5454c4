-- ===== src/Container/Limits.antt =====
-- The limits of linux_backend/linux_container.go.
pub mod ReadBack
pub mod Examples
pub mod Memory
pub mod Keeps
use warden_linux.Base.{
  ℕ, ◌*◌, ◌%◌, List, [], ◌∷◌, String, Option, none, some, Result, ok, err, Exec, ◌>>=◌, ◌>>◌, pure,
  ignore, u64_mod,
}
use warden_linux.CgroupsManager
use warden_linux.Container.Lifecycle.{start_oom_notifier}
use warden_linux.Container.{
  Container, Host, BandwidthLimits, DiskLimits, MemoryLimits, CpuLimits, in_world, on_container,
  this,
}
use warden_linux.QuotaManager
use warden_linux.QuotaManager.{QuotaManager}
use warden_linux.System.{Error, System}
use warden_linux.Text.{◌<>◌, decimal, parse_uint, path_join}

-- strconv.ParseUint with its error
pub parse_limit : String → Option ℕ → Result Error ℕ
parse_limit text none = err (Error.bad_number text)
parse_limit text (some n) = ok n

module _ {W : Type 0} (sys : System W) where
  -- ContainerBandwidthManager.SetLimits, of linux_backend/bandwidth_manager/bandwidth_manager.go:
  -- the rate is in bits.
  pub set_bandwidth : Container → BandwidthLimits → Exec W Error (Unit {0})
  set_bandwidth c limits = sys.run (record {
    path = path_join (c.path ∷ "net_rate.sh" ∷ []);
    args = [];
    env =
        ("BURST=" <> decimal limits.burst_rate_in_bytes_per_second)
        ∷ ("RATE=" <> decimal (limits.rate_in_bytes_per_second * 8 % u64_mod))
        ∷ [];
  })

module _ {P W : Type 0} (sys : System W) where
  pub limit_bandwidth : BandwidthLimits → Exec (Host P W) Error (Unit {0})
  unfolding set_bandwidth
  limit_bandwidth limits = do
    c ← this
    in_world (set_bandwidth sys c limits)
    on_container (λ c. record c { current_bandwidth_limits = some limits })

  pub current_bandwidth_limits : Exec (Host P W) Error BandwidthLimits
  current_bandwidth_limits h = (
    ok (elim h.container.current_bandwidth_limits [
      | none ↦ record { rate_in_bytes_per_second = 0; burst_rate_in_bytes_per_second = 0 }
      | some limits ↦ limits
    ]),
    h,
  )

  pub limit_disk : QuotaManager → DiskLimits → Exec (Host P W) Error (Unit {0})
  limit_disk quota limits = do
    c ← this
    in_world (QuotaManager.set_limits sys quota c.resources.uid limits)
    on_container (λ c. record c { current_disk_limits = some limits })

  module _ (cgroups_path : String) where
    -- The limit without swap is written before and after the one with swap, which may not fall
    -- below it; only the error of the last write counts.
    pub limit_memory : MemoryLimits → Exec (Host P W) Error (Unit {0})
    limit_memory limits = do
      start_oom_notifier sys cgroups_path
      c ← this
      let limit = decimal limits.limit_in_bytes
      let write = CgroupsManager.set sys cgroups_path c.id "memory"
      ignore (in_world (write "memory.limit_in_bytes" limit)) (
          ignore (in_world (write "memory.memsw.limit_in_bytes" limit))
            (in_world (write "memory.limit_in_bytes" limit)))
      on_container (λ c. record c { current_memory_limits = some limits })

    pub current_memory_limits : Exec (Host P W) Error MemoryLimits
    unfolding parse_limit
    current_memory_limits = do
      c ← this
      text ← in_world (CgroupsManager.get sys cgroups_path c.id "memory" "memory.limit_in_bytes")
      n ← λ h. (parse_limit text (parse_uint text), h)
      pure (record { limit_in_bytes = n })

    pub limit_cpu : CpuLimits → Exec (Host P W) Error (Unit {0})
    limit_cpu limits = do
      c ← this
      in_world (
          CgroupsManager.set sys cgroups_path c.id "cpu" "cpu.shares"
            (decimal limits.limit_in_shares))
      on_container (λ c. record c { current_cpu_limits = some limits })

    pub current_cpu_limits : Exec (Host P W) Error CpuLimits
    unfolding parse_limit
    current_cpu_limits = do
      c ← this
      text ← in_world (CgroupsManager.get sys cgroups_path c.id "cpu" "cpu.shares")
      n ← λ h. (parse_limit text (parse_uint text), h)
      pure (record { limit_in_shares = n })
