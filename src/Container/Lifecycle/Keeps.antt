-- ===== src/Container/Lifecycle/Keeps.antt =====
-- What Start leaves alone.
use warden_linux.Base.{◌≡◌, refl, ok, arith}
use warden_linux.Container.Lifecycle.{start, set_state}
use warden_linux.Container.{Host, state_active}
use warden_linux.System.{System, Succeeds}

module _ {P W : Type 0} (sys : System W) where
  -- Start changes neither what a container holds nor its name, and no pool.
  pub start_keeps :
      (h : Host P W)
      → let t = (start sys h).1 in
        (t.container.resources ≡ h.container.resources)
        × (t.container.handle ≡ h.container.handle)
        × (t.port_pool ≡ h.port_pool)
  unfolding start set_state
  start_keeps h = ground arith

  -- A container that was started is active.
  pub start_ok :
      (h : Host P W) → (start sys h).0 ≡ ok tt → (start sys h).1.container.state ≡ state_active
  unfolding start set_state
  start_ok h done = ground arith

  pub start_works : Succeeds sys → (h : Host P W) → (start sys h).0 ≡ ok tt
  unfolding start
  start_works works h = rw (start, works.run_ok) refl
