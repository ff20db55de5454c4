-- ===== src/Backend/Restart/Round.antt =====
-- Stop of linux_backend/linux_backend.go on one server, and Start on the next.
pub mod Examples
use mathlib.Core.Path.{subst}
use warden_linux.Backend.Exclusive.{holds_uid, holds_network, holds_port}
use warden_linux.Backend.Restart.Saves.{
  values, AllRecorded, NoId, DistinctIds, AllSame, Writes, AllCoded, stopped_container-Same,
  stopped_container-IsSaved, stopped_container-StaysHeld,
}
use warden_linux.Backend.Restart.{
  sum, Unnamed, Distinct, Files, IsSaved, AllSaved, AllSaved-StaysHeld, StaysHeld, Enough,
  AllRestored, restore_snapshots-AllRestored,
}
use warden_linux.Backend.Restart.Stopped.{
  all_linked, stopped_container, stopped_each, stopped, stop_lem,
}
use warden_linux.Backend.Snapshots.{stop, restore_snapshots}
use warden_linux.Backend.{Backend}
use warden_linux.Base.{
  ℕ, ◌+◌, ◌≤◌, ◌≡◌, ◌≢◌, refl, sym, ap, ◌∙◌, false, List, [], ◌∷◌, String, some, map, ok, arith,
}
use warden_linux.Container.Snapshots.{ContainerSnapshot}
use warden_linux.Container.{Container}
use warden_linux.ContainerPool.Create.Steps.{ConfigLaws}
use warden_linux.ContainerPool.Restore.Again.{Same}
use warden_linux.ContainerPool.{Config, Pools}
use warden_linux.Dict.{Dict, find}
use warden_linux.Network.{Network}
use warden_linux.System.{Succeeds}
use warden_linux.Text.{◌===◌}

Unnamed-AllSame :
    (k : String) (cs ds : List Container) → AllSame cs ds → Unnamed k cs → Unnamed k ds
Unnamed-AllSame k [] [] same u = tt
Unnamed-AllSame k (c ∷ cs) (d ∷ ds) same u =
    (λ e. u.0 (sym same.0.same_handle ∙ e), Unnamed-AllSame k cs ds same.1 u.1)
Unnamed-AllSame k [] (d ∷ ds) same u = absurd same
Unnamed-AllSame k (c ∷ cs) [] same u = absurd same

Distinct-AllSame : (cs ds : List Container) → AllSame cs ds → Distinct cs → Distinct ds
Distinct-AllSame [] [] same u = tt
Distinct-AllSame (c ∷ cs) (d ∷ ds) same u = (
  rw (same.0.same_handle) (Unnamed-AllSame c.handle cs ds same.1 u.0),
  Distinct-AllSame cs ds same.1 u.1,
)
Distinct-AllSame [] (d ∷ ds) same u = absurd same
Distinct-AllSame (c ∷ cs) [] same u = absurd same

-- A sum over what the containers hold.
sum-AllSame :
    (f : Container → ℕ)
    → ((c d : Container) → d.resources ≡ c.resources → f d ≡ f c)
    → (cs ds : List Container) → AllSame cs ds
    → sum f ds ≡ sum f cs
unfolding sum
sum-AllSame f same_held [] [] same = refl
sum-AllSame f same_held (c ∷ cs) (d ∷ ds) same =
    omega (arith, same_held c d same.0.same_resources, sum-AllSame f same_held cs ds same.1)
sum-AllSame f same_held [] (d ∷ ds) same = absurd same
sum-AllSame f same_held (c ∷ cs) [] same = absurd same

Same-trans : (c d e : Container) → Same c d → Same d e → Same c e
Same-trans c d e a b = record {
  same_id = b.same_id ∙ a.same_id;
  same_handle = b.same_handle ∙ a.same_handle;
  same_properties = b.same_properties ∙ a.same_properties;
  same_state = b.same_state ∙ a.same_state;
  same_events = b.same_events ∙ a.same_events;
  same_resources = b.same_resources ∙ a.same_resources;
  same_net_ins = b.same_net_ins ∙ a.same_net_ins;
  same_net_outs = b.same_net_outs ∙ a.same_net_outs;
  same_memory_limits = b.same_memory_limits ∙ a.same_memory_limits;
}

module _ {U N P W : Type 0} (config : Config U N P W) (snapshots_path : String) where
  Enough-AllSame :
      (cs ds : List Container) (s : Pools U N P W)
      → AllSame cs ds
      → Enough config snapshots_path cs s
      → Enough config snapshots_path ds s
  Enough-AllSame cs ds s same enough = record {
    uids = λ u.
        rw (sum-AllSame (holds_uid config u) (λ c d e. rw (e) refl) cs ds same) (enough.uids u);
    networks = λ n.
        rw (sum-AllSame (holds_network config n) (λ c d e. rw (e) refl) cs ds same)
          (enough.networks n);
    ports = λ p.
        rw (sum-AllSame (holds_port config p) (λ c d e. rw (e) refl) cs ds same) (enough.ports p);
  }

  AllRestored-AllSame :
      (cs ds : List Container) (m : Dict Container)
      → AllSame cs ds
      → AllRestored config snapshots_path ds m
      → AllRestored config snapshots_path cs m
  AllRestored-AllSame [] [] m same all = tt
  AllRestored-AllSame (c ∷ cs) (d ∷ ds) m same all =
      let (e, found, kept) = all.0 in
      (
        (e, rw (← same.0.same_handle) found, Same-trans c d e same.0 kept),
        AllRestored-AllSame cs ds m same.1 all.1,
      )
  AllRestored-AllSame [] (d ∷ ds) m same all = absurd same
  AllRestored-AllSame (c ∷ cs) [] m same all = absurd same

  module _ (works : Succeeds config.sys) (held : String → String → W → Type 0)
      (writes : Writes config snapshots_path held) (given : (snapshots_path === "") ≡ false) where
    -- Files of no container of the table.
    stopped_each-StaysHeld :
        (m : Dict Container) (ports : P) (w : W) (id text : String)
        → NoId id (values m)
        → held id text w
        → held id text (stopped_each config snapshots_path m ports w).1
    unfolding stopped_each
    stopped_each-StaysHeld [] ports w id text none_named kept = kept
    stopped_each-StaysHeld ((handle, c) ∷ m) ports w id text none_named kept =
        stopped_each-StaysHeld m ports (stopped_container config snapshots_path c ports w).1 id text
          none_named.1
          (stopped_container-StaysHeld config snapshots_path works held writes given c ports w id
            text none_named.0 kept)

    -- The containers after Stop, and their files.
    stopped_each-AllSaved :
        (m : Dict Container) (ports : P) (w : W)
        → AllRecorded (values m)
        → DistinctIds (values m)
        → let r = stopped_each config snapshots_path m ports w in
          AllCoded config snapshots_path (values r.0)
          → AllSame (values m) (values r.0) × AllSaved config snapshots_path held (values r.0) r.1
    unfolding stopped_each
    stopped_each-AllSaved [] ports w recorded distinct coded = (tt, tt)
    stopped_each-AllSaved ((handle, c) ∷ m) ports w recorded distinct coded =
        let r = stopped_container config snapshots_path c ports w in
        let same = stopped_container-Same config snapshots_path works held writes given c ports w in
        let saved =
          stopped_container-IsSaved config snapshots_path works held writes given c ports w
            recorded.0 recorded.1 coded.0 in
        let (others, all) = stopped_each-AllSaved m ports r.1 recorded.2 distinct.1 coded.1 in
        (
          (same, others),
          (
            record {
              text = saved.text;
              holds =
                  stopped_each-StaysHeld m ports r.1 r.0.id saved.text
                    (rw (same.same_id) distinct.0) saved.holds;
              decodes = saved.decodes;
              mapped = saved.mapped;
              permitted = saved.permitted;
            },
            all,
          ),
        )

    restored-stopped :
        (laws : ConfigLaws config)
        → Files config snapshots_path held
        → (b next : Backend U N P W)
        → next.pools.world ≡ (stopped config snapshots_path b).pools.world
        → (config.sys.read_dir snapshots_path next.pools.world).0
          ≡ ok (map (λ c. c.id) (values (stopped config snapshots_path b).containers))
        → AllCoded config snapshots_path (values (stopped config snapshots_path b).containers)
        → AllRecorded (values b.containers)
        → DistinctIds (values b.containers)
        → Distinct (values b.containers)
        → Enough config snapshots_path (values b.containers) next.pools
        → AllRestored config snapshots_path
            (values b.containers)
            (restore_snapshots config snapshots_path next).containers
    unfolding stopped
    restored-stopped laws files b next continued listed coded recorded ids distinct enough =
        let m = b.containers in
        let r = stopped_each config snapshots_path m b.pools.port_pool b.pools.world in
        let (same, saved) =
          stopped_each-AllSaved m b.pools.port_pool b.pools.world recorded ids coded in
        AllRestored-AllSame (values m) (values r.0)
          (restore_snapshots config snapshots_path next).containers same
          (restore_snapshots-AllRestored config snapshots_path laws works held files (values r.0)
            next listed (Distinct-AllSame (values m) (values r.0) same distinct)
            (rw (continued) saved) (Enough-AllSame (values m) (values r.0) next.pools same enough))

    stopped-stop :
        (b left : Backend U N P W)
        → stop config snapshots_path b ≡ some left
        → left ≡ stopped config snapshots_path b
    stopped-stop b left returned = ground (arith, stop_lem config snapshots_path b)

    -- A server with a path for its snapshots that stops, which it does where each of its processes
    -- has a link, and the next one that starts on the files it left: where no command and no write
    -- fails, the files keep what is written, the snapshots' texts are read back as the snapshots, the
    -- directory is listed with the containers' ids, the containers have ids and handles of their own,
    -- no mapping has a port 0 and each permission has a network or a port, and the next server's pools
    -- have free what the containers hold: each container that the first server had in its table is in
    -- the next one's under its handle, with the same id, properties, state, events, user id, network,
    -- ports, mappings, permissions and limit on memory.
    pub restore_snapshots-stop :
        (laws : ConfigLaws config)
        → Files config snapshots_path held
        → (b left next : Backend U N P W) → stop config snapshots_path b ≡ some left
        → next.pools.world ≡ left.pools.world
        → (config.sys.read_dir snapshots_path next.pools.world).0
          ≡ ok (map (λ c. c.id) (values left.containers))
        → AllCoded config snapshots_path (values left.containers)
        → AllRecorded (values b.containers)
        → DistinctIds (values b.containers)
        → Distinct (values b.containers)
        → Enough config snapshots_path (values b.containers) next.pools
        → AllRestored config snapshots_path
            (values b.containers)
            (restore_snapshots config snapshots_path next).containers
    restore_snapshots-stop laws files b left next returned continued listed coded recorded ids =
        let same = stopped-stop b left returned in
        restored-stopped laws files b next (continued ∙ ap (λ l. l.pools.world) same)
          (listed ∙ ap (λ l. ok (map (λ c. c.id) (values l.containers))) same)
          (subst (λ l. AllCoded config snapshots_path (values l.containers)) same coded) recorded
          ids
