-- ===== src/RootfsProviders.antt =====
-- The two providers of linux_backend/container_pool/rootfs_provider, docker_rootfs_provider.go and
-- overlay_rootfs_provider.go, and linux_backend/container_pool/repository_fetcher/retryable.go.
pub mod Layers
pub mod Examples
use warden_linux.Base.{
  ℕ, zero, suc, List, [], ◌∷◌, String, if◌then◌else◌, Result, ok, err, Exec, ◌>>=◌, ◌>>◌, pure,
}
use warden_linux.ContainerPool.{Url, RootfsProvider}
use warden_linux.System.{Error, System}
use warden_linux.Text.{◌===◌, path_join}

-- graphdriver.Driver of github.com/docker/docker
pub record GraphDriver (W : Type 0) : Type 0 where
  pub create : String → String → Exec W Error (Unit {0})
  pub get : String → String → Exec W Error String
  pub put : String → W → W
  pub remove : String → Exec W Error (Unit {0})

module _ {W : Type 0} where
  -- A call, and so many more of them after a failure.
  pub attempts : ℕ → Exec W Error String → Exec W Error String
  attempts zero fetch w = fetch w
  attempts (suc n) fetch w =
      let later = attempts n fetch (fetch w).1 in
      elim (fetch w).0 [ ok res ↦ (ok res, (fetch w).1) | err e ↦ later ]

  -- Retryable.Fetch: three attempts.
  pub retrying : (String → String → Exec W Error String) → String → String → Exec W Error String
  unfolding attempts
  retrying fetch repo_name tag = attempts 2 (fetch repo_name tag)

-- `url.Path[1:]`
abbrev pub repo_name_of : String → String
repo_name_of String.[] = ""
repo_name_of (String.◌∷◌ c rest) = rest

abbrev pub tag_of : Url → String
tag_of url = if url.fragment === "" then "latest" else url.fragment

module _ {W : Type 0} (fetch : String → String → Exec W Error String) (driver : GraphDriver W) where
  pub create_layer : String → String → Exec W Error String
  create_layer id image_id = do driver.create id image_id; driver.get id ""

  pub docker_provide : String → Url → Exec W Error String
  unfolding create_layer
  docker_provide id url w =
      if url.path === ""
      then (err Error.invalid_docker_url, w)
      else (fetch (repo_name_of url.path) (tag_of url) >>= create_layer id) w

  pub docker_cleanup : String → Exec W Error (Unit {0})
  docker_cleanup id w = driver.remove id (driver.put id w)

  -- NewDocker
  pub new_docker : RootfsProvider W
  unfolding docker_provide docker_cleanup
  new_docker = record { provide_rootfs = docker_provide; cleanup_rootfs = docker_cleanup }

module _ {W : Type 0} (sys : System W) (bin_path overlays_path default_rootfs : String) where
  pub overlay_provide : String → Url → Exec W Error String
  overlay_provide id url = do
    sys.run (record {
      path = path_join (bin_path ∷ "overlay.sh" ∷ []);
      args =
          "create"
          ∷ path_join (overlays_path ∷ id ∷ [])
          ∷ (if url.path === "" then default_rootfs else url.path)
          ∷ [];
      env = [];
    })
    pure (path_join (overlays_path ∷ id ∷ "rootfs" ∷ []))

  pub overlay_cleanup : String → Exec W Error (Unit {0})
  overlay_cleanup id = sys.run (record {
    path = path_join (bin_path ∷ "overlay.sh" ∷ []);
    args = "cleanup" ∷ path_join (overlays_path ∷ id ∷ []) ∷ [];
    env = [];
  })

  -- NewOverlay
  pub new_overlay : RootfsProvider W
  unfolding overlay_provide overlay_cleanup
  new_overlay = record { provide_rootfs = overlay_provide; cleanup_rootfs = overlay_cleanup }
