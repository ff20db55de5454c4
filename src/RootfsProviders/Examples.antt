-- ===== src/RootfsProviders/Examples.antt =====
-- The Docker provider at a registry with one image of three layers.
use warden_linux.Base.{◌≡◌, refl, List, [], ◌∷◌, String, ok, arith}
use warden_linux.ContainerPool.{Url}
use warden_linux.Dict
use warden_linux.Dict.{Dict}
use warden_linux.RepositoryFetcher.Examples.{docker, layers, layers-GraphLaws}
use warden_linux.RepositoryFetcher.{
  download, fetch_layer, fetch_layers, fetch_from_endpoint, try_endpoints, fetch,
}
use warden_linux.RootfsProviders.Layers.{Provided, DriverLaws, docker_provide-IsComplete}
use warden_linux.RootfsProviders.{GraphDriver, attempts, retrying, create_layer, docker_provide}

abbrev driver : GraphDriver (List String)
driver = record {
  create = λ id image w. (ok tt, id ∷ w);
  get = λ id label w. (ok "/graph/c7", w);
  put = λ id w. w;
  remove = λ id w. (ok tt, w);
}

abbrev busybox : Url
busybox = record { scheme = "docker"; path = "/busybox"; fragment = "" }

driver-DriverLaws : DriverLaws docker layers driver
driver-DriverLaws = record {
  create_grows = λ id image w other there. ground arith;
  get_grows = λ id label w other there. there;
}

provided :
    (docker_provide (retrying (fetch docker layers)) driver "c7" busybox []).0 ≡ ok "/graph/c7"
unfolding docker_provide retrying attempts create_layer fetch try_endpoints fetch_from_endpoint
    fetch_layers fetch_layer download Dict.find
provided = refl

docker_provide-IsComplete_example :
    Provided docker layers driver layers-GraphLaws driver-DriverLaws "c7" "/graph/c7" busybox
      (docker_provide (retrying (fetch docker layers)) driver "c7" busybox []).1
docker_provide-IsComplete_example =
    docker_provide-IsComplete docker layers driver layers-GraphLaws driver-DriverLaws "c7"
      "/graph/c7" busybox [] provided
