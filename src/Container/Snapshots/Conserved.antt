-- ===== src/Container/Snapshots/Conserved.antt =====
-- What Restore of linux_backend/linux_container.go leaves of a container's name and of what it holds.
use warden_linux.Base.{ℕ, ◌≡◌, refl, ap, ◌∙◌, List, [], ◌∷◌, String, Option, none, some, Exec, pure}
use warden_linux.Container.Lifecycle.{set_state, register_event}
use warden_linux.Container.Limits.Keeps.{limit_memory_keeps}
use warden_linux.Container.Limits.{limit_memory}
use warden_linux.Container.Net.Keeps.{net_in_keeps, net_in-owns, net_out_keeps}
use warden_linux.Container.Net.Ports.{port_count, port_count-net_in}
use warden_linux.Container.Net.{net_in, net_out}
use warden_linux.Container.Snapshots.Frames.{Keeps, Keeps-bind, restore-Keeps}
use warden_linux.Container.Snapshots.{
  ContainerSnapshot, register_events, restore_processes, restore_memory, restore_net_in,
  restore_net_out, restore,
}
use warden_linux.Container.{Container, Host, MemoryLimits, NetInSpec, NetOutSpec, in_world}
use warden_linux.IdPool.{IdPool, IdPoolLaws}
use warden_linux.PortPool.{PortError}
use warden_linux.System.{Error, System}

module _ {P W : Type 0} (ports : IdPool P ℕ PortError) (sys : System W) where
  -- The container keeps its name, user id and network; a port that leaves the pool becomes the
  -- container's.
  pub record Conserved (h t : Host P W) : Type 0 where
    pub same_handle : t.container.handle ≡ h.container.handle
    pub same_uid : t.container.resources.uid ≡ h.container.resources.uid
    pub same_network : t.container.resources.network ≡ h.container.resources.network
    pub same_count : (p : ℕ) → port_count ports sys p t ≡ port_count ports sys p h
    pub same_range : (p : ℕ) → ports.owns t.port_pool p ≡ ports.owns h.port_pool p

  Conserved-trans : (h t u : Host P W) → Conserved h t → Conserved t u → Conserved h u
  Conserved-trans h t u a b = record {
    same_handle = b.same_handle ∙ a.same_handle;
    same_uid = b.same_uid ∙ a.same_uid;
    same_network = b.same_network ∙ a.same_network;
    same_count = λ p. b.same_count p ∙ a.same_count p;
    same_range = λ p. b.same_range p ∙ a.same_range p;
  }

  Conserved-refl : (h : Host P W) → Conserved h h
  Conserved-refl h = record {
    same_handle = refl;
    same_uid = refl;
    same_network = refl;
    same_count = λ p. refl;
    same_range = λ p. refl;
  }

  abbrev Conserves : {A : Type 0} → Exec (Host P W) Error A → Type 0
  Conserves m = Keeps Conserved Conserved-refl Conserved-trans m

  -- A step that changes neither the name, nor what is held, nor the pool.
  conserved :
      (h t : Host P W)
      → t.container.handle ≡ h.container.handle
      → t.container.resources ≡ h.container.resources
      → t.port_pool ≡ h.port_pool
      → Conserved h t
  conserved h t name held pool = record {
    same_handle = name;
    same_uid = ap (λ r. r.uid) held;
    same_network = ap (λ r. r.network) held;
    same_count = λ p. rw (held, pool) refl;
    same_range = λ p. rw (pool) refl;
  }

  register_events-keeps :
      (events : List String) (c : Container)
      → ((register_events events c).handle ≡ c.handle)
        × ((register_events events c).resources ≡ c.resources)
  unfolding register_events register_event
  register_events-keeps [] c = (refl, refl)
  register_events-keeps (e ∷ events) c = register_events-keeps events (register_event e c)

  module _ (cgroups_path : String) where
    restore_memory-Conserves :
        (limits : Option MemoryLimits) → Conserves (restore_memory ports sys cgroups_path limits)
    unfolding restore_memory
    restore_memory-Conserves none h = Conserved-refl h
    restore_memory-Conserves (some limits) h =
        let k = limit_memory_keeps sys cgroups_path limits h in
        conserved h (limit_memory sys cgroups_path limits h).1 k.0 k.1 k.2

    restore_net_out-Conserves :
        (spec : NetOutSpec) → Conserves (restore_net_out ports sys cgroups_path spec)
    unfolding restore_net_out
    restore_net_out-Conserves spec h =
        let k = net_out_keeps ports sys spec.network spec.port h in
        conserved h (net_out ports sys spec.network spec.port h).1 k.0 k.1 k.2

    module _ (laws : IdPoolLaws ports) where
      restore_net_in-Conserves :
          (spec : NetInSpec) → Conserves (restore_net_in ports sys cgroups_path spec)
      unfolding restore_net_in
      restore_net_in-Conserves spec =
          Keeps-bind Conserved Conserved-refl Conserved-trans
            (net_in ports sys spec.host_port spec.container_port) (λ mapped. pure tt)
            (λ h. record {
              same_handle = (net_in_keeps ports sys spec.host_port spec.container_port h).0;
              same_uid = (net_in_keeps ports sys spec.host_port spec.container_port h).1;
              same_network = (net_in_keeps ports sys spec.host_port spec.container_port h).2;
              same_count =
                  λ p. port_count-net_in ports sys laws p spec.host_port spec.container_port h;
              same_range = λ p. net_in-owns ports sys laws spec.host_port spec.container_port p h;
            })
            (λ mapped h. Conserved-refl h)

      -- Restore, whether it succeeds or not.
      pub restore-Conserves :
          (s : ContainerSnapshot) (h : Host P W)
          → Conserved h (restore ports sys cgroups_path s h).1
      unfolding set_state
      restore-Conserves s =
          restore-Keeps Conserved Conserved-refl Conserved-trans ports sys cgroups_path s (record {
            names = λ h.
                let e = register_events-keeps s.events (set_state s.state h.container) in
                conserved h
                  (record h {
                    container = register_events s.events (set_state s.state h.container);
                  })
                  e.0 e.1 refl;
            tracks = λ h.
                conserved h
                  (record h {
                    container = record h.container {
                      process_tracker = restore_processes s.processes h.container.process_tracker;
                    };
                  })
                  refl refl refl;
            limits = restore_memory-Conserves s.limits.memory;
            runs = λ cmd h. conserved h (in_world (sys.run cmd) h).1 refl refl refl;
            net_ins = restore_net_in-Conserves;
            net_outs = restore_net_out-Conserves;
          })
