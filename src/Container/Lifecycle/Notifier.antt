-- ===== src/Container/Lifecycle/Notifier.antt =====
-- The notifier of memory shortage that cannot be started.
use warden_linux.Base.{◌≡◌, String, none, ok, err, arith}
use warden_linux.Container.Lifecycle.{oom_cmd, start_oom_notifier, new_oom_notifier}
use warden_linux.Container.{Host}
use warden_linux.System.{Error, System}

module _ {P W : Type 0} (sys : System W) (cgroups_path : String) where
  -- Where the notifier of a container that has none cannot be started, the first call returns the
  -- error, but the next one returns no error and does nothing: no notifier runs.
  pub start_oom_notifier_twice :
      (h : Host P W) (e : Error)
      → h.container.oom_notifier ≡ none
      → (sys.start (oom_cmd cgroups_path h.container) h.world).0 ≡ err e
      → let first = start_oom_notifier sys cgroups_path h in
        (first.0 ≡ err e) × (start_oom_notifier sys cgroups_path first.1 ≡ (ok tt, first.1))
  unfolding start_oom_notifier new_oom_notifier
  start_oom_notifier_twice h e absent failed = ground (arith, absent, failed)
