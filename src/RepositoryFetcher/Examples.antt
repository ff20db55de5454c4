-- ===== src/RepositoryFetcher/Examples.antt =====
-- The theorem on Fetch at a registry with one image of three layers, of which one is there.
use text.Mathlib.TextPositions.{eq_refl}
use warden_linux.Base.{List, [], ◌∷◌, String, ok, contains, arith}
use warden_linux.RepositoryFetcher.Complete.{GraphLaws}
use warden_linux.RepositoryFetcher.{Registry, Graph}
use warden_linux.Text.{◌===◌}

-- The world is the list of the layers in the graph; the JSON text of a layer is its id.
abbrev pub docker : Registry (List String)
docker = record {
  get_repository_data = λ repo w. (ok (record { endpoints = "registry" ∷ []; tokens = [] }), w);
  get_remote_tags = λ endpoints repo tokens w. (ok (("latest", "top") ∷ []), w);
  get_remote_history = λ img endpoint tokens w. (ok ("top" ∷ "middle" ∷ "base" ∷ []), w);
  get_remote_image_json = λ id endpoint tokens w. (ok (id, 10), w);
  get_remote_image_layer = λ img endpoint tokens size w. (ok "tar", w);
  new_img_json = λ json. ok json;
}

abbrev pub layers : Graph (List String)
layers = record {
  exists = λ id w. contains ◌===◌ id w;
  register = λ json layer img w. (ok tt, img ∷ w);
}

pub layers-GraphLaws : GraphLaws docker layers
layers-GraphLaws = record {
  history_grows = λ img endpoint token w id there. there;
  json_grows = λ i endpoint token w id there. there;
  json_id = λ id endpoint json img size token w got parsed. ground arith;
  layer_grows = λ img endpoint token size w id there. there;
  register_grows = λ json layer img w id there. ground arith;
  register_ok = λ json layer img w done. ground (arith, eq_refl img);
}
