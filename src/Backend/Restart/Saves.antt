-- ===== src/Backend/Restart/Saves.antt =====
-- Stop of linux_backend/linux_backend.go, and the files that it leaves for the next server.
use warden_linux.Backend.Restart.{IsSaved}
use warden_linux.Backend.Restart.Stopped.{stopped_container}
use warden_linux.Backend.Snapshots.{save_snapshot}
use warden_linux.Base.{◌≡◌, ◌≢◌, refl, sym, ap, ◌∙◌, false, List, [], ◌∷◌, String, some, map, ok}
use warden_linux.Container.Lifecycle.Cleaned.{cleaned, cleaned_keeps, cleaned_world}
use warden_linux.Container.Snapshots.Restored.{AllMapped, AllPermitted}
use warden_linux.Container.Snapshots.{ContainerSnapshot, snapshot}
use warden_linux.Container.{Container, Host}
use warden_linux.ContainerPool.Restore.Again.{Same}
use warden_linux.ContainerPool.{Config}
use warden_linux.Dict.{Dict}
use warden_linux.System.{Cmd, Succeeds}
use warden_linux.Text.{◌===◌, path_join}

abbrev pub values : Dict Container → List Container
values m = map (λ e. e.1) m

-- Mappings and permissions such as NetIn and NetOut record.
abbrev pub AllRecorded : List Container → Type 0
AllRecorded [] = Unit {0}
AllRecorded (c ∷ cs) = AllMapped c.net_ins × AllPermitted c.net_outs × AllRecorded cs

abbrev pub NoId : String → List Container → Type 0
NoId id [] = Unit {0}
NoId id (c ∷ cs) = (c.id ≢ id) × NoId id cs

abbrev pub DistinctIds : List Container → Type 0
DistinctIds [] = Unit {0}
DistinctIds (c ∷ cs) = NoId c.id cs × DistinctIds cs

abbrev pub AllSame : List Container → List Container → Type 0
AllSame [] [] = Unit {0}
AllSame (c ∷ cs) (d ∷ ds) = Same c d × AllSame cs ds
AllSame _ _ = ⊥

module _ {U N P W : Type 0} (config : Config U N P W) (snapshots_path : String) where
  -- The text of the container's snapshot is read back as the snapshot.
  abbrev pub IsCoded : Container → Type 0
  IsCoded c = config.codec.decode (config.codec.encode (snapshot c)) ≡ some (snapshot c)

  abbrev pub AllCoded : List Container → Type 0
  AllCoded [] = Unit {0}
  AllCoded (c ∷ cs) = IsCoded c × AllCoded cs

  -- What Stop does to the files: a write of a snapshot that succeeds leaves its text in its file and
  -- the others as they are, and so does a signal.
  pub record Writes (held : String → String → W → Type 0) : Type 0 where
    pub written :
        (id : String) (s : ContainerSnapshot) (w : W)
        → let text = config.codec.encode s in
          let r = config.sys.write_file (path_join (snapshots_path ∷ id ∷ [])) text w in
          r.0 ≡ ok tt → held id text r.1
    pub others :
        (id other kept : String) (s : ContainerSnapshot) (w : W)
        → id ≢ other
        → held other kept w
        → held other kept
            (config.sys.write_file
              (path_join (snapshots_path ∷ id ∷ []))
              (config.codec.encode s)
              w).1
    pub kills :
        (id text : String) (cmd : Cmd) (w : W)
        → held id text w
        → held id text (config.sys.kill cmd w)
    pub interrupts :
        (id text : String) (cmd : Cmd) (w : W)
        → held id text w
        → held id text (config.sys.interrupt cmd w)

  module _ (works : Succeeds config.sys) (held : String → String → W → Type 0)
      (writes : Writes held) (given : (snapshots_path === "") ≡ false) where
    pub stopped_container-Same :
        (c : Container) (ports : P) (w : W)
        → Same c (stopped_container config snapshots_path c ports w).0
    unfolding stopped_container
    stopped_container-Same c ports w =
        let h : Host P W = record { container = c; port_pool = ports; world = w } in
        let kept = cleaned_keeps config.sys h in
        record {
          same_id = ap (λ d. d.id) kept;
          same_handle = ap (λ d. d.handle) kept;
          same_properties = ap (λ d. d.properties) kept;
          same_state = ap (λ d. d.state) kept;
          same_events = ap (λ d. d.events) kept;
          same_resources = ap (λ d. d.resources) kept;
          same_net_ins = ap (λ d. d.net_ins) kept;
          same_net_outs = ap (λ d. d.net_outs) kept;
          same_memory_limits = ap (λ d. d.current_memory_limits) kept;
        }

    stopped_container-writes :
        (c : Container) (ports : P) (w : W)
        → let r = stopped_container config snapshots_path c ports w in
          let h : Host P W = record { container = c; port_pool = ports; world = w } in
          r.1
          ≡ (config.sys.write_file
              (path_join (snapshots_path ∷ r.0.id ∷ []))
              (config.codec.encode (snapshot r.0))
              (cleaned config.sys h).world).1
    unfolding stopped_container save_snapshot
    stopped_container-writes c ports w = rw (given) refl

    pub stopped_container-IsSaved :
        (c : Container) (ports : P) (w : W)
        → AllMapped c.net_ins
        → AllPermitted c.net_outs
        → let r = stopped_container config snapshots_path c ports w in
          IsCoded r.0 → IsSaved config snapshots_path held r.0 r.1
    stopped_container-IsSaved c ports w mapped permitted coded =
        let r = stopped_container config snapshots_path c ports w in
        let h : Host P W = record { container = c; port_pool = ports; world = w } in
        let same = stopped_container-Same c ports w in
        let file = path_join (snapshots_path ∷ r.0.id ∷ []) in
        let text = config.codec.encode (snapshot r.0) in
        let v = (cleaned config.sys h).world in
        record {
          text = text;
          holds =
              rw (stopped_container-writes c ports w)
                (writes.written r.0.id (snapshot r.0) v (works.write_ok file text v));
          decodes = coded;
          mapped = rw (same.same_net_ins) mapped;
          permitted = rw (same.same_net_outs) permitted;
        }

    pub stopped_container-StaysHeld :
        (c : Container) (ports : P) (w : W) (id text : String)
        → c.id ≢ id
        → held id text w
        → held id text (stopped_container config snapshots_path c ports w).1
    stopped_container-StaysHeld c ports w id text ne kept =
        let r = stopped_container config snapshots_path c ports w in
        let h : Host P W = record { container = c; port_pool = ports; world = w } in
        rw (stopped_container-writes c ports w) (
          writes.others r.0.id id text (snapshot r.0) (cleaned config.sys h).world
            (λ e. ne (sym (stopped_container-Same c ports w).same_id ∙ e))
            (cleaned_world config.sys (held id text) (writes.kills id text)
              (writes.interrupts id text) h kept))
