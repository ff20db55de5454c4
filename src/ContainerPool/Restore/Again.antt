-- ===== src/ContainerPool/Restore/Again.antt =====
-- Where Restore of container_pool.go succeeds: what the snapshot names is free.
use warden_linux.Base.{
  ℕ, ◌≤◌, ◌<◌, ◌≡◌, refl, inl, inr, List, [], ◌∷◌, String, some, ok, count, cut, cut-none,
  Option-cases, arith,
}
use warden_linux.Container.Snapshots
use warden_linux.Container.Snapshots.Restored.{AllMapped, AllPermitted, restore-snapshot}
use warden_linux.Container.Snapshots.{ContainerSnapshot, snapshot}
use warden_linux.Container.{Container, Host}
use warden_linux.Container
use warden_linux.ContainerPool.Create.Steps.{ConfigLaws, uid_count, network_count}
use warden_linux.ContainerPool.PortCounts.{port_count}
use warden_linux.ContainerPool.Restore.{
  decoded, remove_port, remove_ports, reclaim, blank_container, restore,
}
use warden_linux.ContainerPool.{Config, Pools}
use warden_linux.IdPool.Counting.{remove-count}
use warden_linux.IdPool.{IdPool, IdPoolLaws}
use warden_linux.ProcessTracker
use warden_linux.System.{Succeeds}
use warden_linux.Text.{path_join}

-- What is free can be taken out by name.
remove-free :
    {S A E : Type 0} (p : IdPool S A E) (laws : IdPoolLaws p) (s : S) (a : A)
    → 0 < count p.same a (p.free s)
    → (p.remove a s).0 ≡ ok tt
remove-free p laws s a free = elim (Option-cases (cut p.same a (p.free s))) [
  | inl taken ↦ absurd (ground (arith, free, cut-none p.same a (p.free s) taken))
  | inr (rest, found) ↦ (laws.remove_free s a rest found).0
]

-- What a restored container has in common with the one that was saved.
pub record Same (c d : Container) : Type 0 where
  pub same_id : d.id ≡ c.id
  pub same_handle : d.handle ≡ c.handle
  pub same_properties : d.properties ≡ c.properties
  pub same_state : d.state ≡ c.state
  pub same_events : d.events ≡ c.events
  pub same_resources : d.resources ≡ c.resources
  pub same_net_ins : d.net_ins ≡ c.net_ins
  pub same_net_outs : d.net_outs ≡ c.net_outs
  pub same_memory_limits : d.current_memory_limits ≡ c.current_memory_limits

module _ {U N P W : Type 0} (config : Config U N P W) where
  -- The user id, the network and the ports of a container are free.
  pub record CanReclaim (c : Container) (s : Pools U N P W) : Type 0 where
    pub uid_free : 0 < uid_count config c.resources.uid s
    pub network_free : 0 < network_count config c.resources.network s
    pub ports_free : (p : ℕ) → count config.ports.same p c.resources.ports ≤ port_count config p s

module _ {U N P W : Type 0} (config : Config U N P W) (laws : ConfigLaws config) where
  remove_ports-free :
      (s : ContainerSnapshot) (ports : List ℕ) (t : Pools U N P W)
      → ((p : ℕ) → count config.ports.same p ports ≤ port_count config p t)
      → (remove_ports config s ports t).0 ≡ ok tt
  unfolding remove_ports remove_port
  remove_ports-free s [] t enough = refl
  remove_ports-free s (a ∷ ports) t enough =
      let first : (config.ports.remove a t.port_pool).0 ≡ ok tt =
        remove-free config.ports laws.ports t.port_pool a
          (ground (arith, enough a, laws.ports.same_refl a)) in
      ground (
        arith,
        first,
        remove_ports-free s ports (remove_port config s a t).1 (λ p.
            ground
              (arith, first, enough p, remove-count config.ports laws.ports t.port_pool a p first)),
      )

  reclaim-free :
      (c : Container) (s : Pools U N P W)
      → CanReclaim config c s
      → (reclaim config (snapshot c) s).0 ≡ ok tt
  unfolding reclaim snapshot
  reclaim-free c s can =
      let r = c.resources in
      let no_uid : Pools U N P W = record s {
        uid_pool = (config.uids.remove r.uid s.uid_pool).1;
      } in
      let no_network : Pools U N P W = record no_uid {
        network_pool = (config.networks.remove r.network s.network_pool).1;
      } in
      ground (
        arith,
        remove-free config.uids laws.uids s.uid_pool r.uid can.uid_free,
        remove-free config.networks laws.networks s.network_pool r.network can.network_free,
        remove_ports-free (snapshot c) r.ports no_network can.ports_free,
      )

  pub restore-Same :
      (c : Container) (text : String) (s : Pools U N P W)
      → Succeeds config.sys
      → config.codec.decode text ≡ some (snapshot c)
      → AllMapped c.net_ins
      → AllPermitted c.net_outs
      → CanReclaim config c s
      → (d : Container) × ((restore config text s).0 ≡ ok d) × Same c d
  unfolding restore decoded blank_container snapshot
  restore-Same c text s works read mapped permitted can =
      let t = (reclaim config (snapshot c) s).1 in
      let path = path_join (config.depot_path ∷ c.id ∷ []) in
      let tracker = ProcessTracker.new path in
      let h : Host P W = record {
        container = Container.new c.id c.handle path c.properties c.grace_time c.resources tracker;
        port_pool = t.port_pool;
        world = t.world;
      } in
      let r =
        restore-snapshot config.ports config.sys config.cgroups_path works c path tracker
          t.port_pool t.world mapped permitted in
      let after = Snapshots.restore config.ports config.sys config.cgroups_path (snapshot c) h in
      let (
        done, id, handle, props, state, events, held, ins, outs, memory, pool, cpu, disk, bandwidth,
      ) =
        r in
      (
        after.1.container,
        ground (arith, read, reclaim-free c s can, done),
        record {
          same_id = id;
          same_handle = handle;
          same_properties = props;
          same_state = state;
          same_events = events;
          same_resources = held;
          same_net_ins = ins;
          same_net_outs = outs;
          same_memory_limits = memory;
        },
      )
