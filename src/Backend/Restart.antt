-- ===== src/Backend/Restart.antt =====
-- restoreSnapshots of linux_backend/linux_backend.go on the files that saveSnapshot wrote.
pub mod Stopped
pub mod Saves
pub mod Round
use text.Mathlib.TextEquality.{eq_iff}
use text.Mathlib.TextPositions.{eq_refl}
use warden_linux.Backend.Exclusive.{holds_uid, holds_network, holds_port}
use warden_linux.Backend.Snapshots.{restore, restore_entry, restore_entries, restore_snapshots}
use warden_linux.Backend.{Backend, register}
use warden_linux.Base.{
  ℕ, ◌+◌, ◌≤◌, ◌≡◌, ◌≢◌, refl, sym, ◌∙◌, inl, inr, List, [], ◌∷◌, String, Option, none, some, map,
  ok, err, Result-cases, arith, count, if◌then◌else◌,
}
use warden_linux.Container.Snapshots.Restored.{AllMapped, AllPermitted}
use warden_linux.Container.Snapshots.World.{IsStable}
use warden_linux.Container.Snapshots.{snapshot}
use warden_linux.Container.{Container}
use warden_linux.ContainerPool.Create.Steps.{ConfigLaws, uid_count, network_count}
use warden_linux.ContainerPool.PortCounts.{port_count}
use warden_linux.ContainerPool.Restore as Pool
use warden_linux.ContainerPool.Restore.Again.{CanReclaim, Same, restore-Same}
use warden_linux.ContainerPool.Restore.Holds.{TakesOut, restore-TakesOut, restore-world}
use warden_linux.ContainerPool.{Config, Pools}
use warden_linux.Dict.{Dict, find, put, find-put}
use warden_linux.Network.{Network}
use warden_linux.System.{Succeeds}
use warden_linux.Text.{path_join, ◌===◌}

unfoldable pub sum : (Container → ℕ) → List Container → ℕ
sum f [] = 0
sum f (c ∷ cs) = f c + sum f cs

-- No container of the list has this handle.
abbrev pub Unnamed : String → List Container → Type 0
Unnamed k [] = Unit {0}
Unnamed k (c ∷ cs) = (c.handle ≢ k) × Unnamed k cs

abbrev pub Distinct : List Container → Type 0
Distinct [] = Unit {0}
Distinct (c ∷ cs) = Unnamed c.handle cs × Distinct cs

module _ {U N P W : Type 0} (config : Config U N P W) (snapshots_path : String) where
  -- What is known of the files in the directory: `held id text w` says that the file of this name
  -- holds this text in this world. Then it is read as such; and to read files and to list directories,
  -- to run commands and to write to files of the memory cgroup leaves it as it is.
  pub record Files (held : String → String → W → Type 0) : Type 0 where
    pub reads :
        (id text : String) (w : W)
        → held id text w
        → (config.sys.read_file (path_join (snapshots_path ∷ id ∷ [])) w).0 ≡ ok text
    pub read_keeps :
        (id text file : String) (w : W)
        → held id text w
        → held id text (config.sys.read_file file w).1
    pub list_keeps :
        (id text dir : String) (w : W) → held id text w → held id text (config.sys.read_dir dir w).1
    pub stable : (id text : String) → IsStable config.sys config.cgroups_path (held id text)

  -- The container's file holds its snapshot; and its mappings and permissions are such as NetIn and
  -- NetOut record.
  pub record IsSaved (held : String → String → W → Type 0) (c : Container) (w : W) : Type 0 where
    pub text : String
    pub holds : held c.id text w
    pub decodes : config.codec.decode text ≡ some (snapshot c)
    pub mapped : AllMapped c.net_ins
    pub permitted : AllPermitted c.net_outs

  abbrev pub AllSaved : (String → String → W → Type 0) → List Container → W → Type 0
  AllSaved held [] w = Unit {0}
  AllSaved held (c ∷ cs) w = IsSaved held c w × AllSaved held cs w

  -- What is held in one world is held in another.
  abbrev pub StaysHeld : (String → String → W → Type 0) → W → W → Type 0
  StaysHeld held v w = (id text : String) → held id text v → held id text w

  pub AllSaved-StaysHeld :
      (held : String → String → W → Type 0) (cs : List Container) (v w : W)
      → StaysHeld held v w
      → AllSaved held cs v
      → AllSaved held cs w
  AllSaved-StaysHeld held [] v w stays saved = tt
  AllSaved-StaysHeld held (c ∷ cs) v w stays saved = (
    record {
      text = saved.0.text;
      holds = stays c.id saved.0.text saved.0.holds;
      decodes = saved.0.decodes;
      mapped = saved.0.mapped;
      permitted = saved.0.permitted;
    },
    AllSaved-StaysHeld held cs v w stays saved.1,
  )

  -- Each user id, network and port is free at least as often as the containers hold it.
  pub record Enough (cs : List Container) (s : Pools U N P W) : Type 0 where
    pub uids : (u : ℕ) → sum (holds_uid config u) cs ≤ uid_count config u s
    pub networks : (n : Network) → sum (holds_network config n) cs ≤ network_count config n s
    pub ports : (p : ℕ) → sum (holds_port config p) cs ≤ port_count config p s

  -- The table has each of these containers again.
  abbrev pub AllRestored : List Container → Dict Container → Type 0
  AllRestored [] m = Unit {0}
  AllRestored (c ∷ cs) m =
      ((d : Container) × (find c.handle m ≡ some d) × Same c d) × AllRestored cs m

  module _ (laws : ConfigLaws config) (works : Succeeds config.sys)
      (held : String → String → W → Type 0) (files : Files held) where
    Enough-CanReclaim :
        (c : Container) (cs : List Container) (s : Pools U N P W)
        → Enough (c ∷ cs) s
        → CanReclaim config c s
    unfolding sum
    Enough-CanReclaim c cs s enough = record {
      uid_free = ground (arith, enough.uids c.resources.uid, laws.uids.same_refl c.resources.uid);
      network_free =
          ground (
            arith,
            enough.networks c.resources.network,
            laws.networks.same_refl c.resources.network,
          );
      ports_free = λ p. omega (arith, enough.ports p);
    }

    Enough-TakesOut :
        (c d : Container) (cs : List Container) (s t : Pools U N P W)
        → Enough (c ∷ cs) s
        → d.resources ≡ c.resources
        → TakesOut config laws d s t
        → Enough cs t
    unfolding sum
    Enough-TakesOut c d cs s t enough same out = record {
      uids = λ u. ground (arith, enough.uids u, same, out.uid_out u);
      networks = λ n. ground (arith, enough.networks n, same, out.network_out n);
      ports = λ p. ground (arith, enough.ports p, same, out.port_out p);
    }

    -- One file that is read: the table, the pools and the files behind it.
    abbrev pub Puts : Container → Backend U N P W → Backend U N P W → Type 0
    Puts c b t =
        (d : Container) × Same c d
        × (t.containers ≡ put d.handle d b.containers)
        × TakesOut config laws d b.pools t.pools
        × StaysHeld held b.pools.world t.pools.world

    restore_entry-Puts :
        (c : Container) (b : Backend U N P W)
        → IsSaved held c b.pools.world
        → CanReclaim config c b.pools
        → Puts c b (restore_entry config snapshots_path c.id b)
    unfolding restore_entry restore register
    restore_entry-Puts c b saved can =
        let file = path_join (snapshots_path ∷ c.id ∷ []) in
        let w = (config.sys.read_file file b.pools.world).1 in
        let opened : Pools U N P W = record b.pools { world = w } in
        let reopened : CanReclaim config c opened = record {
          uid_free = can.uid_free;
          network_free = can.network_free;
          ports_free = can.ports_free;
        } in
        let (d, made, same) =
          restore-Same config laws c saved.text opened works saved.decodes saved.mapped
            saved.permitted reopened in
        let out = restore-TakesOut config laws saved.text opened d made in
        let read = files.reads c.id saved.text b.pools.world saved.holds in
        let after : restore_entry config snapshots_path c.id b ≡ record b {
          containers = put d.handle d b.containers;
          pools = (Pool.restore config saved.text opened).1;
        } =
          ground (arith, read, made) in
        (
          d,
          same,
          ground (arith, after),
          rw (after) (record {
            uid_out = out.uid_out;
            network_out = out.network_out;
            port_out = out.port_out;
            uid_range = out.uid_range;
            network_range = out.network_range;
            port_range = out.port_range;
          }),
          λ id text kept. rw (after) (
              restore-world config laws (held id text) saved.text opened d (files.stable id text)
                made (files.read_keeps id text file b.pools.world kept)),
        )

    find-Puts :
        (c d : Container) (k : String) (b t : Backend U N P W)
        → d.handle ≡ c.handle
        → t.containers ≡ put d.handle d b.containers
        → find k t.containers ≡ (if c.handle === k then some d else find k b.containers)
    find-Puts c d k b t same after = rw (after, find-put d.handle k d b.containers, same) refl

    -- The table after all files were read, and what it has under other handles.
    entries-AllRestored :
        (cs : List Container) (b : Backend U N P W)
        → Distinct cs
        → AllSaved held cs b.pools.world
        → Enough cs b.pools
        → let r = restore_entries config snapshots_path (map (λ c. c.id) cs) b in
          AllRestored cs r.containers
          × ((k : String) → Unnamed k cs → find k r.containers ≡ find k b.containers)
    unfolding restore_entries
    entries-AllRestored [] b distinct saved enough = (tt, λ k unnamed. refl)
    entries-AllRestored (c ∷ cs) b distinct saved enough =
        let t = restore_entry config snapshots_path c.id b in
        let (d, same, after, out, stays) =
          restore_entry-Puts c b saved.0 (Enough-CanReclaim c cs b.pools enough) in
        let (others, kept) =
          entries-AllRestored cs t distinct.1
            (AllSaved-StaysHeld held cs b.pools.world t.pools.world stays saved.1)
            (Enough-TakesOut c d cs b.pools t.pools enough same.same_resources out) in
        (
          (
            (
              d,
              kept c.handle distinct.0
                  ∙ ground
                      (arith, find-Puts c d c.handle b t same.same_handle after, eq_refl c.handle),
              same,
            ),
            others,
          ),
          λ k unnamed.
              kept k unnamed.1
              ∙ ground
                  (arith, find-Puts c d k b t same.same_handle after, unnamed.0, eq_iff c.handle k),
        )

    -- Where the directory names the containers of a table, each file holds its container's snapshot,
    -- no two of them have a handle in common, no command and no write fails, and the pools have free
    -- what the containers hold: the next server has each of them again under its handle, with the same
    -- id, properties, state, events, user id, network, ports, mappings, permissions and limit on
    -- memory.
    pub restore_snapshots-AllRestored :
        (cs : List Container) (b : Backend U N P W)
        → (config.sys.read_dir snapshots_path b.pools.world).0 ≡ ok (map (λ c. c.id) cs)
        → Distinct cs
        → AllSaved held cs b.pools.world
        → Enough cs b.pools
        → AllRestored cs (restore_snapshots config snapshots_path b).containers
    unfolding restore_snapshots
    restore_snapshots-AllRestored cs b listed distinct saved enough =
        let w = (config.sys.read_dir snapshots_path b.pools.world).1 in
        let s : Pools U N P W = record b.pools { world = w } in
        let opened : Backend U N P W = record b { pools = s } in
        let still : Enough cs s = record {
          uids = enough.uids;
          networks = enough.networks;
          ports = enough.ports;
        } in
        let stays : StaysHeld held b.pools.world w =
          λ id text kept. files.list_keeps id text snapshots_path b.pools.world kept in
        rw (listed, restore_snapshots)
          (entries-AllRestored cs opened distinct
            (AllSaved-StaysHeld held cs b.pools.world w stays saved) still).0
