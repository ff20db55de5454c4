-- ===== src/RootfsProviders/Layers.antt =====
-- docker_rootfs_provider.go on top of retryable.go and repository_fetcher.go.
use warden_linux.Base.{
  ℕ, zero, suc, ◌≡◌, refl, true, String, Result, ok, Exec, Result-cases, inl, inr, arith, List,
  Bool-cases, some,
}
use warden_linux.ContainerPool.{Url}
use warden_linux.Dict
use warden_linux.Dict.{Dict}
use warden_linux.RepositoryFetcher.Complete.{
  GraphLaws, AllExist-Grows, Grows, IsComplete, fetch-IsComplete,
}
use warden_linux.RepositoryFetcher.{Registry, Graph, RepositoryData, fetch}
use warden_linux.RootfsProviders.{
  GraphDriver, attempts, retrying, repo_name_of, tag_of, create_layer, docker_provide,
}
use warden_linux.System.{Error}
use warden_linux.Text.{◌===◌}

module _ {W : Type 0} where
  -- An attempt that returned was made in some world, and its outcome is the whole call's.
  attempts_ok :
      (n : ℕ) (m : Exec W Error String) (w : W) (res : String)
      → (attempts n m w).0 ≡ ok res
      → (v : W) × ((m v).0 ≡ ok res) × (attempts n m w ≡ m v)
  unfolding attempts
  attempts_ok zero m w res e = (w, e, refl)
  attempts_ok (suc n) m w res e = elim (Result-cases (m w).0) [
    | inl (a, got) ↦ (w, ground (arith, got), ground (arith, got))
    | inr (x, failed) ↦
        (let (v, f, same) = attempts_ok n m (m w).1 res (ground (arith, failed)) in
          (v, f, ground (arith, failed, same)))
  ]

module _ {W : Type 0} (registry : Registry W) (graph : Graph W) (driver : GraphDriver W) where
  -- What the provider relies on of the graph driver: it removes no layer.
  pub record DriverLaws : Type 0 where
    pub create_grows : (id image : String) (w : W) → Grows graph w (driver.create id image w)
    pub get_grows : (id label : String) (w : W) → Grows graph w (driver.get id label w)

  module _ (laws : GraphLaws registry graph) (driver_laws : DriverLaws) where
    create_layer-Grows :
        (id image : String) (w : W)
        → Grows graph w (create_layer (retrying (fetch registry graph)) driver id image w)
    unfolding create_layer
    create_layer-Grows id image w other there = elim (Result-cases (driver.create id image w).0) [
      | inl (tt, made) ↦ ground (
        arith,
        made,
        driver_laws.create_grows id image w other,
        driver_laws.get_grows id "" (driver.create id image w).1 other,
      )
      | inr (e, failed) ↦ ground (arith, failed, driver_laws.create_grows id image w other)
    ]

    -- What is said of an image in a world is said of it in one with more layers.
    IsComplete-Grows :
        (img : String) (token : List String) (v w : W)
        → ((id : String) → graph.exists id v ≡ true → graph.exists id w ≡ true)
        → IsComplete registry graph laws img token v
        → IsComplete registry graph laws img token w
    IsComplete-Grows img token v w grows (endpoint, asked, history, got, all) =
        (endpoint, asked, history, got, AllExist-Grows registry graph history v w grows all)

    created-IsComplete :
        (id img path : String) (token : List String) (r : Result Error String × W)
        → r.0 ≡ ok img
        → IsComplete registry graph laws img token r.1
        → IsComplete registry graph laws img token
            (create_layer (retrying (fetch registry graph)) driver id img r.1).1
    created-IsComplete id img path token r got =
        IsComplete-Grows img token r.1
          (create_layer (retrying (fetch registry graph)) driver id img r.1).1
          (create_layer-Grows id img r.1)

    create_layer_ok :
        (id img path : String) (w : W)
        → let r = create_layer (retrying (fetch registry graph)) driver id img w in
          r.0 ≡ ok path
          → let made = driver.create id img w in
            (made.0 ≡ ok tt) × (driver.get id "" made.1 ≡ (ok path, r.1))
    unfolding create_layer
    create_layer_ok id img path w done = elim (Result-cases (driver.create id img w).0) [
      | inl (_, made) ↦ ground (arith, made, done)
      | inr (e, failed) ↦ absurd (ground (arith, failed, done))
    ]

    -- What was done for a root file system at a path: in some world the registry knew the repository
    -- of the URL and listed its tags, among them the URL's, latest where it has none; the image of
    -- that tag was fetched, the driver made the container's layer on that image, and gave the path of
    -- the layer; some endpoint gave the image's history, and every layer of it is in the graph of the
    -- last world.
    pub record Provided (id path : String) (url : Url) (last : W) : Type 0 where
      pub world : W
      pub img : String
      pub repo : RepositoryData
      pub tags : Dict String
      pub known_repo : (registry.get_repository_data (repo_name_of url.path) world).0 ≡ ok repo
      pub listed :
          (registry.get_remote_tags repo.endpoints
            (repo_name_of url.path)
            repo.tokens
            (registry.get_repository_data (repo_name_of url.path) world).1).0
          ≡ ok tags
      pub tag_named : Dict.find (tag_of url) tags ≡ some img
      pub created :
          (driver.create id img
            (fetch registry graph (repo_name_of url.path) (tag_of url) world).1).0
          ≡ ok tt
      pub given :
          driver.get id ""
            (driver.create id img
              (fetch registry graph (repo_name_of url.path) (tag_of url) world).1).1
          ≡ (ok path, last)
      pub complete : IsComplete registry graph laws img repo.tokens last

    -- A root file system that the Docker provider returns, on a fetcher that retries, is the path that
    -- the driver gave of a layer for the container, which it made on the image that the registry listed
    -- under the URL's tag, latest where the URL has none, at some attempt; some endpoint gave the
    -- image's history, and every layer of it is in the graph at the end. This is so for a registry
    -- and a graph as Fetch needs them, and a driver that removes no layer.
    pub docker_provide-IsComplete :
        (id path : String) (url : Url) (w : W)
        → (docker_provide (retrying (fetch registry graph)) driver id url w).0 ≡ ok path
        → Provided id path url (docker_provide (retrying (fetch registry graph)) driver id url w).1
    unfolding docker_provide retrying
    docker_provide-IsComplete id path url w done =
        let m = fetch registry graph (repo_name_of url.path) (tag_of url) in
        let make = create_layer (retrying (fetch registry graph)) driver id in
        elim (Bool-cases (url.path === "")) [
          | inl none_given ↦ absurd (ground (arith, none_given))
          | inr given ↦ elim (Result-cases (attempts 2 m w).0) [
            | inr (e, failed) ↦ absurd (ground (arith, given, failed))
            | inl (img, got) ↦
                (let (v, fetched, same) = attempts_ok 2 m w img got in
                  let (repo, tags, d, t, known, complete) =
                    fetch-IsComplete registry graph laws (repo_name_of url.path) (tag_of url) img v
                      fetched in
                  let layer =
                    create_layer_ok id img path (m v).1 (ground (arith, given, got, same, done)) in
                  record {
                    world = v;
                    img = img;
                    repo = repo;
                    tags = tags;
                    known_repo = d;
                    listed = t;
                    tag_named = known;
                    created = layer.0;
                    given = rw (given, got, same) layer.1;
                    complete =
                        rw (given, got, same)
                          (created-IsComplete id img path repo.tokens (m v) fetched complete);
                  })
          ]
        ]
