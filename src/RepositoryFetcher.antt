-- ===== src/RepositoryFetcher.antt =====
-- linux_backend/container_pool/repository_fetcher/repository_fetcher.go: the images of a registry,
-- layer by layer. The registry and the graph of the layers are a parameter
-- (github.com/docker/docker). While a layer is fetched, no other call fetches it, so one call of
-- Fetch is modelled alone.
pub mod Complete
pub mod Locks
pub mod Examples
use warden_linux.Base.{
  ℕ, Bool, List, [], ◌∷◌, String, Option, none, some, if◌then◌else◌, Result, ok, err, Exec, ◌>>=◌,
  ◌>>◌, pure,
}
use warden_linux.Dict
use warden_linux.Dict.{Dict}
use warden_linux.System.{Error}

-- registry.RepositoryData
pub record RepositoryData : Type 0 where
  pub endpoints : List String
  pub tokens : List String

-- Registry: its methods take the image or the layer, the endpoint and the tokens.
pub record Registry (W : Type 0) : Type 0 where
  pub get_repository_data : String → Exec W Error RepositoryData
  pub get_remote_tags : List String → String → List String → Exec W Error (Dict String)
  pub get_remote_history : String → String → List String → Exec W Error (List String)
  pub get_remote_image_json : String → String → List String → Exec W Error (String × ℕ)
  pub get_remote_image_layer : String → String → List String → ℕ → Exec W Error String
  -- image.NewImgJSON, of which the id is used
  pub new_img_json : String → Result Error String

-- Graph: Register takes the JSON text, the layer and the image's id.
pub record Graph (W : Type 0) : Type 0 where
  pub exists : String → W → Bool
  pub register : String → String → String → Exec W Error (Unit {0})

abbrev pub tagged : String → String → Option String → Result Error String
tagged repo_name tag none = err (Error.unknown_tag repo_name tag)
tagged repo_name tag (some id) = ok id

module _ {W A : Type 0} where
  abbrev pub from_result : Result Error A → Exec W Error A
  from_result r w = (r, w)

module _ {W : Type 0} (registry : Registry W) (graph : Graph W) where
  unfoldable pub download : String → String → List String → Exec W Error (Unit {0})
  download endpoint layer_id token = do
    json ← registry.get_remote_image_json layer_id endpoint token
    img ← from_result (registry.new_img_json json.0)
    layer ← registry.get_remote_image_layer img endpoint token json.1
    graph.register json.0 layer img

  -- A layer that is there is not downloaded again.
  unfoldable pub fetch_layer : String → String → List String → Exec W Error (Unit {0})
  fetch_layer endpoint layer_id token w =
      if graph.exists layer_id w then (ok tt, w) else download endpoint layer_id token w

  -- `for i := len(history) - 1; i >= 0; i--`: the oldest layer is the last of the history.
  unfoldable pub fetch_layers : String → List String → List String → Exec W Error (Unit {0})
  fetch_layers endpoint token [] = pure tt
  fetch_layers endpoint token (layer_id ∷ history) =
      fetch_layers endpoint token history >> fetch_layer endpoint layer_id token

  unfoldable pub fetch_from_endpoint : String → String → List String → Exec W Error (Unit {0})
  fetch_from_endpoint endpoint img_id token = do
    history ← registry.get_remote_history img_id endpoint token
    fetch_layers endpoint token history

  -- The first endpoint that works ends the loop; else the last one's error is reported.
  unfoldable pub try_endpoints : String → List String → Error → List String → Exec W Error String
  try_endpoints img_id token last [] w = (err last, w)
  try_endpoints img_id token last (endpoint ∷ rest) w =
      let r = fetch_from_endpoint endpoint img_id token w in
      elim r.0 [
        | ok done ↦ (ok img_id, r.1)
        | err e ↦ try_endpoints img_id token (Error.all_endpoints_failed e) rest r.1
      ]

  unfoldable pub fetch : String → String → Exec W Error String
  fetch repo_name tag = do
    repo ← registry.get_repository_data repo_name
    tags ← registry.get_remote_tags repo.endpoints repo_name repo.tokens
    img_id ← from_result (tagged repo_name tag (Dict.find tag tags))
    try_endpoints img_id repo.tokens Error.no_endpoints repo.endpoints
