-- ===== src/RepositoryFetcher/Complete.antt =====
-- The layers in the graph after Fetch of repository_fetcher.go.
use warden_linux.Base.{
  ℕ, ◌≡◌, inl, inr, true, List, [], ◌∷◌, String, some, Result, ok, arith, Result-cases,
  Option-cases,
}
use warden_linux.RepositoryFetcher.{
  Registry, Graph, RepositoryData, download, fetch_layer, fetch_layers, fetch_from_endpoint,
  try_endpoints, fetch,
}
use warden_linux.Dict
use warden_linux.Dict.{Dict}
use warden_linux.System.{Error}

-- A call after which every layer is there that was there before.
abbrev pub Grows : {W A : Type 0} → Graph W → W → Result Error A × W → Type 0
Grows {W = W} graph w r = (id : String) → graph.exists id w ≡ true → graph.exists id r.1 ≡ true

-- What the code relies on of the registry and the graph: calls of the registry remove no layer from
-- the graph, the JSON text of a layer bears the layer's id, and Register adds the image of its
-- argument and removes nothing.
pub record GraphLaws {W : Type 0} (registry : Registry W) (graph : Graph W) : Type 0 where
  pub history_grows :
      (img endpoint : String) (token : List String) (w : W)
      → Grows graph w (registry.get_remote_history img endpoint token w)
  pub json_grows :
      (id endpoint : String) (token : List String) (w : W)
      → Grows graph w (registry.get_remote_image_json id endpoint token w)
  pub json_id :
      (id endpoint json img : String) (size : ℕ) (token : List String) (w : W)
      → (registry.get_remote_image_json id endpoint token w).0 ≡ ok (json, size)
      → registry.new_img_json json ≡ ok img
      → img ≡ id
  pub layer_grows :
      (img endpoint : String) (token : List String) (size : ℕ) (w : W)
      → Grows graph w (registry.get_remote_image_layer img endpoint token size w)
  pub register_grows :
      (json layer img : String) (w : W) → Grows graph w (graph.register json layer img w)
  pub register_ok :
      (json layer img : String) (w : W)
      → (graph.register json layer img w).0 ≡ ok tt
      → graph.exists img (graph.register json layer img w).1 ≡ true

module _ {W : Type 0} (registry : Registry W) (graph : Graph W) where
  abbrev pub AllExist : List String → W → Type 0
  AllExist [] w = Unit {0}
  AllExist (id ∷ ids) w = (graph.exists id w ≡ true) × AllExist ids w

  pub AllExist-Grows :
      (ids : List String) (v w : W)
      → ((id : String) → graph.exists id v ≡ true → graph.exists id w ≡ true)
      → AllExist ids v
      → AllExist ids w
  AllExist-Grows [] v w grows all = tt
  AllExist-Grows (id ∷ ids) v w grows all = (grows id all.0, AllExist-Grows ids v w grows all.1)

  module _ (laws : GraphLaws registry graph) where
    download-Grows :
        (endpoint id : String) (token : List String) (w : W)
        → Grows graph w (download registry graph endpoint id token w)
    unfolding download
    download-Grows endpoint id token w other there =
        let j = registry.get_remote_image_json id endpoint token w in
        elim (Result-cases j.0) [
          | inr (e, failed) ↦ ground (arith, failed, laws.json_grows id endpoint token w other)
          | inl ((json, size), got) ↦ elim (Result-cases (registry.new_img_json json)) [
            | inr (e, failed) ↦
                ground (arith, got, failed, laws.json_grows id endpoint token w other)
            | inl (img, parsed) ↦
                (let l = registry.get_remote_image_layer img endpoint token size j.1 in
                  elim (Result-cases l.0) [
                    | inr (e, failed) ↦ ground (
                      arith,
                      got,
                      parsed,
                      failed,
                      laws.json_grows id endpoint token w other,
                      laws.layer_grows img endpoint token size j.1 other,
                    )
                    | inl (layer, read) ↦ ground (
                      arith,
                      got,
                      parsed,
                      read,
                      laws.json_grows id endpoint token w other,
                      laws.layer_grows img endpoint token size j.1 other,
                      laws.register_grows json layer img l.1 other,
                    )
                  ])
          ]
        ]

    download-exists :
        (endpoint id : String) (token : List String) (w : W)
        → (download registry graph endpoint id token w).0 ≡ ok tt
        → graph.exists id (download registry graph endpoint id token w).1 ≡ true
    unfolding download
    download-exists endpoint id token w done =
        let j = registry.get_remote_image_json id endpoint token w in
        elim (Result-cases j.0) [
          | inr (e, failed) ↦ ground (arith, failed)
          | inl ((json, size), got) ↦ elim (Result-cases (registry.new_img_json json)) [
            | inr (e, failed) ↦ ground (arith, got, failed)
            | inl (img, parsed) ↦
                (let l = registry.get_remote_image_layer img endpoint token size j.1 in
                  elim (Result-cases l.0) [
                    | inr (e, failed) ↦ ground (arith, got, parsed, failed)
                    | inl (layer, read) ↦ ground (
                      arith,
                      got,
                      parsed,
                      read,
                      laws.json_id id endpoint json img size token w got parsed,
                      laws.register_ok json layer img l.1,
                    )
                  ])
          ]
        ]

    fetch_layer-Grows :
        (endpoint id : String) (token : List String) (w : W)
        → Grows graph w (fetch_layer registry graph endpoint id token w)
    unfolding fetch_layer
    fetch_layer-Grows endpoint id token w other there =
        ground (arith, download-Grows endpoint id token w other)

    fetch_layer-exists :
        (endpoint id : String) (token : List String) (w : W)
        → (fetch_layer registry graph endpoint id token w).0 ≡ ok tt
        → graph.exists id (fetch_layer registry graph endpoint id token w).1 ≡ true
    unfolding fetch_layer
    fetch_layer-exists endpoint id token w done =
        ground (arith, download-exists endpoint id token w)

    fetch_layers-cons :
        (endpoint id : String) (token ids : List String) (w : W)
        → (fetch_layers registry graph endpoint token (id ∷ ids) w).0 ≡ ok tt
        → let r = fetch_layers registry graph endpoint token ids w in
          (r.0 ≡ ok tt)
          × (fetch_layers registry graph endpoint token (id ∷ ids) w
              ≡ fetch_layer registry graph endpoint id token r.1)
    unfolding fetch_layers
    fetch_layers-cons endpoint id token ids w done =
        elim (Result-cases (fetch_layers registry graph endpoint token ids w).0) [
          | inl (tt, fetched) ↦ ground (arith, fetched)
          | inr (e, failed) ↦ ground (arith, failed)
        ]

    fetch_layers-AllExist :
        (endpoint : String) (token history : List String) (w : W)
        → (fetch_layers registry graph endpoint token history w).0 ≡ ok tt
        → AllExist history (fetch_layers registry graph endpoint token history w).1
    fetch_layers-AllExist endpoint token [] w done = tt
    fetch_layers-AllExist endpoint token (id ∷ ids) w done =
        let v = (fetch_layers registry graph endpoint token ids w).1 in
        let (fetched, last) = fetch_layers-cons endpoint id token ids w done in
        rw last (
          fetch_layer-exists endpoint id token v (rw (← last) done),
          AllExist-Grows ids v (fetch_layer registry graph endpoint id token v).1
              (fetch_layer-Grows endpoint id token v)
              (fetch_layers-AllExist endpoint token ids w fetched),
        )

    -- There is a world in which an endpoint gave the history of the image, and every layer of that
    -- history is in the graph now.
    abbrev pub IsComplete : String → List String → W → Type 0
    IsComplete img token w =
        (endpoint : String) × (asked : W) × (history : List String) × ((registry.get_remote_history
            img endpoint token asked).0
          ≡ ok history)
        × AllExist history w

    endpoint-IsComplete :
        (endpoint img : String) (token : List String) (w : W)
        → (fetch_from_endpoint registry graph endpoint img token w).0 ≡ ok tt
        → IsComplete img token (fetch_from_endpoint registry graph endpoint img token w).1
    unfolding fetch_from_endpoint
    endpoint-IsComplete endpoint img token w done =
        let h = registry.get_remote_history img endpoint token w in
        elim (Result-cases h.0) [
          | inr (e, failed) ↦ absurd (ground (arith, failed))
          | inl (history, got) ↦ (
            endpoint,
            w,
            history,
            got,
            rw (got, fetch_from_endpoint)
                (fetch_layers-AllExist endpoint token history h.1 (ground (arith, got))),
          )
        ]

    try-IsComplete :
        (img found : String) (token endpoints : List String) (last : Error) (w : W)
        → (try_endpoints registry graph img token last endpoints w).0 ≡ ok found
        → (found ≡ img)
          × IsComplete img token (try_endpoints registry graph img token last endpoints w).1
    unfolding try_endpoints
    try-IsComplete img found token [] last w done = absurd (ground arith)
    try-IsComplete img found token (endpoint ∷ rest) last w done =
        elim (Result-cases (fetch_from_endpoint registry graph endpoint img token w).0) [
          | inl (tt, fetched) ↦ (
            ground (arith, fetched),
            rw (fetched, try_endpoints) (endpoint-IsComplete endpoint img token w fetched),
          )
          | inr (e, failed) ↦
              rw (failed, try_endpoints)
                (try-IsComplete img found token rest (Error.all_endpoints_failed e)
                  (fetch_from_endpoint registry graph endpoint img token w).1
                  (rw (← done) (ground (arith, failed))))
        ]

    fetch-tries :
        (repo_name tag id : String) (repo : RepositoryData) (tags : Dict String) (w : W)
        → let d = registry.get_repository_data repo_name w in
          let t = registry.get_remote_tags repo.endpoints repo_name repo.tokens d.1 in
          d.0 ≡ ok repo
          → t.0 ≡ ok tags
          → Dict.find tag tags ≡ some id
          → fetch registry graph repo_name tag w
            ≡ try_endpoints registry graph id repo.tokens Error.no_endpoints repo.endpoints t.1
    unfolding fetch
    fetch-tries repo_name tag id repo tags w got listed known = ground (arith, got, listed, known)

    -- A Fetch that returns an image has found its tag among the tags that the registry listed for the
    -- repository, and some endpoint has given the image's history, every layer of which is in the
    -- graph at the end. This is so for a registry whose layers bear their ids, and a graph that keeps
    -- what was registered.
    pub fetch-IsComplete :
        (repo_name tag img : String) (w : W)
        → (fetch registry graph repo_name tag w).0 ≡ ok img
        → (repo : RepositoryData) × (tags : Dict String) × ((registry.get_repository_data repo_name
              w).0
            ≡ ok repo)
          × ((registry.get_remote_tags repo.endpoints repo_name repo.tokens
                (registry.get_repository_data repo_name w).1).0
              ≡ ok tags)
          × (Dict.find tag tags ≡ some img)
          × IsComplete img repo.tokens (fetch registry graph repo_name tag w).1
    unfolding fetch
    fetch-IsComplete repo_name tag img w done =
        let d = registry.get_repository_data repo_name w in
        elim (Result-cases d.0) [
          | inr (e, failed) ↦ absurd (ground (arith, failed))
          | inl (repo, got) ↦
              (let t = registry.get_remote_tags repo.endpoints repo_name repo.tokens d.1 in
                elim (Result-cases t.0) [
                  | inr (e, failed) ↦ absurd (ground (arith, got, failed))
                  | inl (tags, listed) ↦ elim (Option-cases (Dict.find tag tags)) [
                    | inl unknown ↦ absurd (ground (arith, got, listed, unknown))
                    | inr (id, known) ↦
                        (let tries = fetch-tries repo_name tag id repo tags w got listed known in
                          let (same, complete) =
                            try-IsComplete id img repo.tokens repo.endpoints Error.no_endpoints t.1
                              (rw (← tries) done) in
                          (repo, tags, got, listed, rw same known, rw (same, tries) complete))
                  ]
                ])
        ]
