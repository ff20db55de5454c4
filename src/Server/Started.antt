-- ===== src/Server/Started.antt =====
-- What main.go has put together when the backend is set up.
use mathlib.Core.Path.{subst}
use warden_linux.Backend
use warden_linux.Backend.Exclusive.Runs.{Call, run, run-new-Exclusive}
use warden_linux.Backend.Exclusive.{Inv}
use warden_linux.Backend.{new}
use warden_linux.Base.{
  ◌≡◌, refl, ap, sym, ◌∙◌, ◌+◌, ◌/◌, ◌%◌, ◌<◌, List, Result, ok, err, resume-ok, arith, u32_mod,
  ltb, if◌then◌else◌,
}
use warden_linux.ContainerPool
use warden_linux.ContainerPool.Create.Steps.{ConfigLaws}
use warden_linux.ContainerPool.{Config, Pools, max_containers}
use warden_linux.Network.{IpNet}
use warden_linux.NetworkPool.Laws.{network_pool-IdPoolLaws}
use warden_linux.NetworkPool.Sound
use warden_linux.NetworkPool.Subnets.{IsV4Block, initial_size-new}
use warden_linux.NetworkPool.{NetworkPool}
use warden_linux.PortPool.Laws as PortLaws
use warden_linux.PortPool.{PortPool}
use warden_linux.QuotaManager.{QuotaManager}
use warden_linux.RepositoryFetcher.{Registry, Graph}
use warden_linux.RootfsProviders.{GraphDriver}
use warden_linux.Server.{
  Flags, Libraries, Server, config_of, pools_of, checked, images, with_setup, set_up, main,
  quota_manager,
}
use warden_linux.System.{Error}
use warden_linux.UidPool.Laws as UidLaws
use warden_linux.UidPool.{UidPool}

module _ {W : Type 0} (lib : Libraries W) (f : Flags) where
  -- The server for a network, with its pools as they were made.
  abbrev pub server_of :
      IpNet → QuotaManager → GraphDriver W → Graph W → Registry W → W → W → Server W
  server_of net quota driver graph reg w w' = record {
    config = config_of lib f net quota driver graph reg;
    backend = new (record (pools_of lib f net w) { world = w' });
    snapshots_path = f.snapshots_path;
  }

  pub record IsStarted (s : Server W) : Type 0 where
    pub net : IpNet
    pub quota : QuotaManager
    pub driver : GraphDriver W
    pub graph : Graph W
    pub reg : Registry W
    pub before : W
    pub after : W
    pub parsed : lib.parse_cidr f.network_pool ≡ ok net
    pub is_server : s ≡ server_of net quota driver graph reg before after

  with_setup-ok :
      (config : Config UidPool NetworkPool PortPool W) (r : Result Error (Unit {0}))
      (b : Backend.Backend UidPool NetworkPool PortPool W) (s : Server W)
      → (with_setup lib f config (r, b)).0 ≡ ok s
      → s ≡ record { config = config; backend = b; snapshots_path = f.snapshots_path }
  with_setup-ok config (ok done) b s h = cc
  with_setup-ok config (err e) b s h = cc

  after_setup :
      (config : Config UidPool NetworkPool PortPool W)
      (pools : Pools UidPool NetworkPool PortPool W)
      → (w' : W) × ((Backend.setup config (new pools)).1 ≡ new (record pools { world = w' }))
  unfolding Backend.setup ContainerPool.setup new
  after_setup config pools = ((Backend.setup config (new pools)).1.pools.world, refl)

  set_up-ok :
      (net : IpNet) (config : Config UidPool NetworkPool PortPool W) (w : W) (s : Server W)
      → (set_up lib f net config w).0 ≡ ok s
      → (w' : W) × (s ≡ record {
        config = config;
        backend = new (record (pools_of lib f net w) { world = w' });
        snapshots_path = f.snapshots_path;
      })
  unfolding set_up
  set_up-ok net config w s h =
      let (w', e) = after_setup config (pools_of lib f net w) in
      let made = Backend.setup config (new (pools_of lib f net w)) in
      (
        w',
        with_setup-ok config made.0 made.1 s h
            ∙ ap (λ b. record { config = config; backend = b; snapshots_path = f.snapshots_path })
                e,
      )

  pub main-IsStarted : (w : W) (s : Server W) → (main lib f w).0 ≡ ok s → IsStarted s
  unfolding main
  main-IsStarted w s h =
      let (done, e1, h1) = resume-ok (checked lib f w).0 _ _ h in
      let (net, parsed, h2) = resume-ok (lib.parse_cidr f.network_pool) _ _ h1 in
      let (quota, e3, h3) = resume-ok (quota_manager lib f (checked lib f w).1).0 _ _ h2 in
      let (parts, e4, h4) =
        resume-ok (images lib f (quota_manager lib f (checked lib f w).1).1).0 _ _ h3 in
      let w4 = (images lib f (quota_manager lib f (checked lib f w).1).1).1 in
      let config = config_of lib f net quota parts.0 parts.1 parts.2 in
      let (w', e) = set_up-ok net config w4 s h4 in
      record {
        net = net;
        quota = quota;
        driver = parts.0;
        graph = parts.1;
        reg = parts.2;
        before = w4;
        after = w';
        parsed = parsed;
        is_server = e;
      }

  config-ConfigLaws :
      (net : IpNet) (quota : QuotaManager) (driver : GraphDriver W) (graph : Graph W)
      (reg : Registry W)
      → ConfigLaws (config_of lib f net quota driver graph reg)
  unfolding config_of
  config-ConfigLaws net quota driver graph reg = record {
    uids = UidLaws.uid_pool-IdPoolLaws;
    networks = network_pool-IdPoolLaws;
    ports = PortLaws.port_pool-IdPoolLaws;
  }

  server_of-Inv :
      (net : IpNet) (quota : QuotaManager) (driver : GraphDriver W) (graph : Graph W)
      (reg : Registry W) (w w' : W) (cs : List Call)
      → IsV4Block net
      → Inv (config_of lib f net quota driver graph reg) (
          run
            (config_of lib f net quota driver graph reg)
            (new (record (pools_of lib f net w) { world = w' }))
            cs)
  unfolding config_of pools_of
  server_of-Inv net quota driver graph reg w w' cs v =
      run-new-Exclusive (config_of lib f net quota driver graph reg)
        (config-ConfigLaws net quota driver graph reg)
        (record (pools_of lib f net w) { world = w' }) cs
        (UidLaws.new-IsSound (f.uid_pool_start % u32_mod) (f.uid_pool_size % u32_mod))
        (Sound.new-IsSound net v)
        (PortLaws.new-IsSound (f.port_pool_start % u32_mod) (f.port_pool_size % u32_mod))

  -- On a server that has started, whatever its flags are, and whatever calls of Create, Destroy and
  -- NetIn follow, also where they fail: no two containers have the same user id, network or host port
  -- from the pools, no container has one that is free, nothing is free twice, and each container
  -- stands under its handle. The network that the flag names is an IPv4 one of whole /30 networks.
  pub run-main-Exclusive :
      (w : W) (s : Server W) (cs : List Call)
      → (main lib f w).0 ≡ ok s
      → ((net : IpNet) → lib.parse_cidr f.network_pool ≡ ok net → IsV4Block net)
      → Inv s.config (run s.config s.backend cs)
  run-main-Exclusive w s cs h block =
      let i = main-IsStarted w s h in
      subst (λ (t : Server W). Inv t.config (run t.config t.backend cs)) (sym i.is_server)
        (server_of-Inv i.net i.quota i.driver i.graph i.reg i.before i.after cs
          (block i.net i.parsed))

  server_of-max :
      (net : IpNet) (quota : QuotaManager) (driver : GraphDriver W) (graph : Graph W)
      (reg : Registry W) (w w' : W)
      → IsV4Block net
      → f.uid_pool_start + f.uid_pool_size < u32_mod
      → max_containers
          (config_of lib f net quota driver graph reg)
          (record (pools_of lib f net w) { world = w' })
        ≡ (if ltb (net.addresses / 4) f.uid_pool_size then net.addresses / 4 else f.uid_pool_size)
  unfolding config_of pools_of max_containers
  server_of-max net quota driver graph reg w w' v h =
      ground
        (arith, UidLaws.initial_size-new f.uid_pool_start f.uid_pool_size, initial_size-new net v)

  -- A server that has started, on an IPv4 network of whole /30 networks and with user ids that end
  -- before 2 ^ 32, can have as many containers as the smaller of two numbers: a quarter of the
  -- addresses of its network, and the size of its pool of user ids.
  pub max_containers-main :
      (w : W) (s : Server W) (net : IpNet)
      → (main lib f w).0 ≡ ok s
      → lib.parse_cidr f.network_pool ≡ ok net
      → IsV4Block net
      → f.uid_pool_start + f.uid_pool_size < u32_mod
      → max_containers s.config s.backend.pools
        ≡ (if ltb (net.addresses / 4) f.uid_pool_size then net.addresses / 4 else f.uid_pool_size)
  unfolding new
  max_containers-main w s net h parsed v bound =
      let i = main-IsStarted w s h in
      let same : i.net ≡ net = cc (i.parsed, parsed) in
      subst
        (λ (t : Server W). max_containers t.config t.backend.pools ≡ (
          if ltb (net.addresses / 4) f.uid_pool_size then net.addresses / 4 else f.uid_pool_size))
        (sym i.is_server)
        (subst
          (λ (n : IpNet).
            max_containers (config_of lib f i.net i.quota i.driver i.graph i.reg)
              (record (pools_of lib f i.net i.before) { world = i.after })
            ≡ (if ltb (n.addresses / 4) f.uid_pool_size then n.addresses / 4 else f.uid_pool_size))
          same
          (server_of-max i.net i.quota i.driver i.graph i.reg i.before i.after
            (subst IsV4Block (sym same) v) bound))
