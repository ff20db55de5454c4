-- ===== src/Container/Net.antt =====
-- NetIn and NetOut of linux_backend/linux_container.go.
pub mod Keeps
pub mod Ports
pub mod Outcomes
pub mod Uninterrupted
use warden_linux.Base.{
  ℕ, false, List, [], ◌∷◌, ◌++◌, String, ◌==◌, if◌then◌else◌, ok, Exec, ◌>>=◌, ◌>>◌, pure, err,
}
use warden_linux.Container.{Container, Host, Resources, in_world, in_port_pool, on_container, this}
use warden_linux.IdPool.{IdPool}
use warden_linux.PortPool.{PortError}
use warden_linux.System.{Cmd, Error, System}
use warden_linux.Text.{◌<>◌, ◌===◌, decimal, path_join}

-- Resources.AddPort, of linux_backend/resources.go
pub add_port : ℕ → Resources → Resources
add_port port r = record r { ports = r.ports ++ port ∷ [] }

pub net_cmd : Container → List String → List String → Cmd
net_cmd c args env = record { path = path_join (c.path ∷ "net.sh" ∷ []); args = args; env = env }

module _ {P W : Type 0} (ports : IdPool P ℕ PortError) (sys : System W) where
  -- A fresh port of the pool, which becomes the container's.
  pub acquire_port : Exec (Host P W) Error ℕ
  unfolding add_port
  acquire_port = do
    random_port ← in_port_pool ports.acquire
    on_container (λ c. record c { resources = add_port random_port c.resources })
    pure random_port

  unfoldable pub choose_host_port : ℕ → Exec (Host P W) Error ℕ
  unfolding acquire_port
  choose_host_port host_port h = if host_port == 0 then acquire_port h else (ok host_port, h)

  pub in_env : ℕ → ℕ → List String
  in_env host inner =
      ("HOST_PORT=" <> decimal host)
      ∷ ("CONTAINER_PORT=" <> decimal inner)
      ∷ ("PATH=" <> sys.search_path)
      ∷ []

  unfoldable pub net_in : ℕ → ℕ → Exec (Host P W) Error (ℕ × ℕ)
  unfolding choose_host_port
  net_in host_port container_port = do
    host ← choose_host_port host_port
    let inner = if container_port == 0 then host else container_port
    c ← this
    in_world (sys.run (net_cmd c ("in" ∷ []) (in_env host inner)))
    on_container (λ c. record c {
      net_ins = c.net_ins ++ record { host_port = host; container_port = inner } ∷ [];
    })
    pure (host, inner)

  -- PORT is left empty where no port is given.
  pub net_out_env : String → ℕ → List String
  net_out_env network port =
      ("NETWORK=" <> network)
      ∷ ("PORT=" <> (if port == 0 then "" else decimal port))
      ∷ ("PATH=" <> sys.search_path)
      ∷ []

  pub permit : String → ℕ → Exec (Host P W) Error (Unit {0})
  unfolding net_out_env
  permit network port = do
    c ← this
    in_world (sys.run (net_cmd c ("out" ∷ []) (net_out_env network port)))
    on_container
        (λ c. record c { net_outs = c.net_outs ++ record { network = network; port = port } ∷ [] })

  pub net_out : String → ℕ → Exec (Host P W) Error (Unit {0})
  unfolding permit
  net_out network port h =
      if (if port == 0 then network === "" else false)
      then (err Error.no_network_or_port, h)
      else permit network port h
