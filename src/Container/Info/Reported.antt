-- ===== src/Container/Info/Reported.antt =====
-- What Info of linux_backend/linux_container.go reports of a container.
use mathlib.Core.List.{map-append}
use warden_linux.Base.{
  ℕ, ◌≡◌, ap, ◌∙◌, [], ◌∷◌, ◌++◌, map, String, Option, none, some, Result, ok, err, arith,
}
use warden_linux.Container.Info.{
  ContainerInfo, mapping_of, mapped_ports_of, info_of, read_stats, finish, with_usage, with_stats,
  info,
}
use warden_linux.Container.Net.Ports.{net_in_ok}
use warden_linux.Container.Net.{net_in}
use warden_linux.Container.{Container, Host}
use warden_linux.IdPool.{IdPool}
use warden_linux.PortPool.{PortError}
use warden_linux.QuotaManager.Report.{DiskStat, get_usage}
use warden_linux.QuotaManager.{QuotaManager}
use warden_linux.System.{Error, System}

module _ {W : Type 0} (sys : System W) (cgroups_path : String) (quota : QuotaManager)
    (c : Container) where
  finish-ports :
      (stats : String × String × String) (disk : DiskStat) (w after : W) (i : ContainerInfo)
      → finish sys cgroups_path quota c stats disk w ≡ (ok i, after)
      → i.mapped_ports ≡ mapped_ports_of c
  unfolding finish info_of
  finish-ports (memory, usage, cpu) disk w after i e = ground arith

  with_usage-ports :
      (stats : String × String × String) (used : Option (Result Error DiskStat × W)) (after : W)
      (i : ContainerInfo)
      → with_usage sys cgroups_path quota c stats used ≡ some (ok i, after)
      → i.mapped_ports ≡ mapped_ports_of c
  unfolding with_usage
  with_usage-ports stats none after i e = ground arith
  with_usage-ports stats (some (err x, w)) after i e = ground arith
  with_usage-ports stats (some (ok disk, w)) after i e =
      ground (arith, finish-ports stats disk w after i)

  with_stats-ports :
      (read : Result Error (String × String × String) × W) (after : W) (i : ContainerInfo)
      → with_stats sys cgroups_path quota c read ≡ some (ok i, after)
      → i.mapped_ports ≡ mapped_ports_of c
  unfolding with_stats
  with_stats-ports (err x, w) after i e = ground arith
  with_stats-ports (ok stats, w) after i e =
      with_usage-ports stats (get_usage sys quota c.resources.uid w) after i e

  info-ports :
      (w after : W) (i : ContainerInfo)
      → info sys cgroups_path quota c w ≡ some (ok i, after)
      → i.mapped_ports ≡ mapped_ports_of c
  unfolding info
  info-ports w after i e = with_stats-ports (read_stats sys cgroups_path quota c w) after i e

module _ {P W : Type 0} (ports : IdPool P ℕ PortError) (sys : System W) (cgroups_path : String)
    (quota : QuotaManager) where
  -- An Info that returns after a NetIn that returned lists the mappings that it would have listed
  -- before, and behind them the one that NetIn returned.
  pub info-net_in :
      (host_port container_port host inner : ℕ) (h : Host P W) (w after : W) (i : ContainerInfo)
      → (net_in ports sys host_port container_port h).0 ≡ ok (host, inner)
      → info sys cgroups_path quota (net_in ports sys host_port container_port h).1.container w
        ≡ some (ok i, after)
      → i.mapped_ports
        ≡ mapped_ports_of h.container ++ record { host_port = host; container_port = inner } ∷ []
  unfolding mapped_ports_of
  info-net_in host_port container_port host inner h w after i e f =
      let c = (net_in ports sys host_port container_port h).1.container in
      info-ports sys cgroups_path quota c w after i f
      ∙ ap (map mapping_of) (net_in_ok ports sys host_port container_port host inner h e).0
      ∙ map-append mapping_of h.container.net_ins
          (record { host_port = host; container_port = inner } ∷ [])
