-- ===== src/Container/Snapshots/Frames.antt =====
-- Methods of a container that keep a relation between what they work on before and after, and Restore
-- of linux_backend/linux_container.go as one that keeps what its steps keep.
use warden_linux.Base.{
  ℕ, inl, inr, List, [], ◌∷◌, String, Exec, ◌>>=◌, ◌>>◌, for_each, Result-cases,
}
use warden_linux.Container.Lifecycle.{set_state}
use warden_linux.Container.Net.{net_cmd}
use warden_linux.Container.Snapshots.{
  ContainerSnapshot, register_events, restore_processes, restore_memory, restore_net_in,
  restore_net_out, restore,
}
use warden_linux.Container.{Host, NetInSpec, NetOutSpec, in_world, on_container}
use warden_linux.IdPool.{IdPool}
use warden_linux.PortPool.{PortError}
use warden_linux.System.{Cmd, Error, System}

module _ {P W : Type 0} (R : Host P W → Host P W → Type 0) (stay : (h : Host P W) → R h h)
    (trans : (h t u : Host P W) → R h t → R t u → R h u) where
  abbrev pub Keeps : {A : Type 0} → Exec (Host P W) Error A → Type 0
  Keeps m = (h : Host P W) → R h (m h).1

  pub Keeps-bind :
      {A B : Type 0} (m : Exec (Host P W) Error A) (k : A → Exec (Host P W) Error B)
      → Keeps m
      → ((a : A) → Keeps (k a))
      → Keeps (m >>= k)
  Keeps-bind m k first rest h = elim (Result-cases (m h).0) [
    | inl (a, done) ↦ rw (done) (trans h (m h).1 (k a (m h).1).1 (first h) (rest a (m h).1))
    | inr (e, failed) ↦ rw (failed) (first h)
  ]

  pub for_each-Keeps :
      {A : Type 0} (body : A → Exec (Host P W) Error (Unit {0}))
      → ((a : A) → Keeps (body a))
      → (xs : List A) → Keeps (for_each body xs)
  for_each-Keeps body each [] h = stay h
  for_each-Keeps body each (x ∷ xs) h =
      Keeps-bind (body x) (λ _. for_each body xs) (each x) (λ _. for_each-Keeps body each xs) h

  module _ (ports : IdPool P ℕ PortError) (sys : System W) (cgroups_path : String) where
    abbrev pub named : ContainerSnapshot → Host P W → Host P W
    named s h = record h { container = register_events s.events (set_state s.state h.container) }

    abbrev pub tracked : ContainerSnapshot → Host P W → Host P W
    tracked s h = record h {
      container = record h.container {
        process_tracker = restore_processes s.processes h.container.process_tracker;
      };
    }

    -- The steps of Restore.
    pub record Steps (s : ContainerSnapshot) : Type 0 where
      pub names : (h : Host P W) → R h (named s h)
      pub tracks : (h : Host P W) → R h (tracked s h)
      pub limits : Keeps (restore_memory ports sys cgroups_path s.limits.memory)
      pub runs : (cmd : Cmd) → Keeps (in_world (sys.run cmd))
      pub net_ins : (spec : NetInSpec) → Keeps (restore_net_in ports sys cgroups_path spec)
      pub net_outs : (spec : NetOutSpec) → Keeps (restore_net_out ports sys cgroups_path spec)

    -- Whether it succeeds or not.
    pub restore-Keeps : (s : ContainerSnapshot) → Steps s → Keeps (restore ports sys cgroups_path s)
    unfolding restore set_state
    restore-Keeps s steps h =
        trans h (named s h) (rest (named s h)).1 (steps.names h) (rest-Keeps (named s h))
      where
        track : Exec (Host P W) Error (Unit {0})
        track =
            on_container
              (λ c. record c { process_tracker = restore_processes s.processes c.process_tracker })

        ends : Exec (Host P W) Error (Unit {0})
        ends =
            for_each (restore_net_in ports sys cgroups_path) s.net_ins
            >> for_each (restore_net_out ports sys cgroups_path) s.net_outs

        set_up : Exec (Host P W) Error (Unit {0})
        set_up h' = (in_world (sys.run (net_cmd h'.container ("setup" ∷ []) [])) >> ends) h'

        rest : Exec (Host P W) Error (Unit {0})
        rest = restore_memory ports sys cgroups_path s.limits.memory >> (track >> set_up)

        ends-Keeps : Keeps ends
        ends-Keeps =
            Keeps-bind (for_each (restore_net_in ports sys cgroups_path) s.net_ins)
              (λ _. for_each (restore_net_out ports sys cgroups_path) s.net_outs)
              (for_each-Keeps (restore_net_in ports sys cgroups_path) steps.net_ins s.net_ins)
              (λ _.
                for_each-Keeps (restore_net_out ports sys cgroups_path) steps.net_outs s.net_outs)

        set_up-Keeps : Keeps set_up
        set_up-Keeps h' =
            let cmd = net_cmd h'.container ("setup" ∷ []) [] in
            Keeps-bind (in_world (sys.run cmd)) (λ _. ends) (steps.runs cmd) (λ _. ends-Keeps) h'

        rest-Keeps : Keeps rest
        rest-Keeps =
            Keeps-bind (restore_memory ports sys cgroups_path s.limits.memory)
              (λ _. track >> set_up) steps.limits
              (λ _. Keeps-bind track (λ _. set_up) steps.tracks (λ _. set_up-Keeps))
