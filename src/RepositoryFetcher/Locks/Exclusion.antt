-- ===== src/RepositoryFetcher/Locks/Exclusion.antt =====
-- The invariant of the locks on layers, of repository_fetcher.go.
use text.Mathlib.TextEquality.{eq_iff}
use warden_linux.Base.{
  ℕ, ◌≡◌, ◌≢◌, ◌⊎◌, inl, inr, String, none, some, Option-cases, Bool-cases, arith, ==_refl,
}
use warden_linux.Dict
use warden_linux.Dict.{Dict, find-put, find-delete}
use warden_linux.RepositoryFetcher.Locks.{
  trying, waiting, holding, Locks, fetching, done_fetching, wake, new, Step, tries, ends, wakes,
  Reachable, start, after,
}
use warden_linux.Text.{◌===◌}

-- A layer is in the table exactly if a call holds it, and then that call is the only one.
pub record Inv (s : Locks) : Type 0 where
  pub listed :
      (i : ℕ) (layer_id : String)
      → s.calls i ≡ holding layer_id
      → Dict.find layer_id s.fetching_layers ≢ none
  pub alone :
      (i j : ℕ) (layer_id : String)
      → s.calls i ≡ holding layer_id
      → s.calls j ≡ holding layer_id
      → i ≡ j
  pub held :
      (layer_id : String) (channel : ℕ)
      → Dict.find layer_id s.fetching_layers ≡ some channel
      → (i : ℕ) × (s.calls i ≡ holding layer_id)

new-Inv : Inv new
unfolding new Dict.find
new-Inv = record {
  listed = λ i layer_id h. absurd (ground arith);
  alone = λ i j layer_id h k. absurd (ground arith);
  held = λ layer_id channel found. absurd (ground (arith, found));
}

wake-Inv :
    (i : ℕ) (layer_id : String) (channel : ℕ) (s : Locks)
    → s.calls i ≡ waiting layer_id channel
    → Inv s
    → Inv (wake i s)
unfolding wake
wake-Inv i layer_id channel s w v = record {
  listed = λ j l h. ground (arith, v.listed j l);
  alone = λ j k l h g. ground (arith, v.alone j k l);
  held = λ l c found. let (j, h) = v.held l c found in (j, ground arith);
}

done_fetching-Inv :
    (i : ℕ) (layer_id : String) (s : Locks)
    → s.calls i ≡ holding layer_id
    → Inv s
    → Inv (done_fetching i layer_id s)
unfolding done_fetching
done_fetching-Inv i layer_id s held v = record {
  listed = λ j l h. ground (
    arith,
    v.listed j l,
    v.alone i j layer_id,
    find-delete layer_id l s.fetching_layers,
    eq_iff layer_id l,
  );
  alone = λ j k l h g. ground (arith, v.alone j k l);
  held = λ l c found.
      let there : Dict.find l s.fetching_layers ≡ some c =
        ground (arith, find-delete layer_id l s.fetching_layers) in
      let (j, h) = v.held l c there in
      (j, ground (arith, found, find-delete layer_id l s.fetching_layers, eq_iff layer_id l));
}

fetching-Inv :
    (i : ℕ) (layer_id : String) (s : Locks)
    → s.calls i ≡ trying
    → Inv s
    → Inv (fetching i layer_id s)
unfolding fetching
fetching-Inv i layer_id s t v = elim (Option-cases (Dict.find layer_id s.fetching_layers)) [
  | inr (channel, found) ↦
      rw (found, fetching)
        (record {
          listed = λ j l h. ground (arith, v.listed j l);
          alone = λ j k l h g. ground (arith, v.alone j k l);
          held = λ l c there. let (j, h) = v.held l c there in (j, ground arith);
        })
  | inl absent ↦
      rw (absent, fetching)
        (record {
          listed = λ j l h. ground (
            arith,
            v.listed j l,
            find-put layer_id l s.next_channel s.fetching_layers,
            eq_iff layer_id l,
          );
          alone = λ j k l h g. ground (arith, v.alone j k l, v.listed j l, v.listed k l);
          held = λ l c there. elim (Bool-cases (layer_id === l)) [
            | inl same ↦ (i, ground (arith, eq_iff layer_id l, ==_refl i))
            | inr other ↦
                (let (j, h) =
                    v.held l c
                      (ground (arith, find-put layer_id l s.next_channel s.fetching_layers)) in
                  (j, ground arith))
          ];
        })
]

Step-Inv : (s t : Locks) → Step s t → Inv s → Inv t
Step-Inv _ _ (tries i layer_id s h) v = fetching-Inv i layer_id s h v
Step-Inv _ _ (ends i layer_id s h) v = done_fetching-Inv i layer_id s h v
Step-Inv _ _ (wakes i layer_id channel s h closed) v = wake-Inv i layer_id channel s h v

Reachable-Inv : (s : Locks) → Reachable s → Inv s
Reachable-Inv s start = new-Inv
Reachable-Inv t (after {s = s} reached step) = Step-Inv s t step (Reachable-Inv s reached)

-- However the calls take turns, no two of them fetch the same layer at the same time.
pub Reachable-alone :
    (s : Locks) (i j : ℕ) (layer_id : String)
    → Reachable s
    → s.calls i ≡ holding layer_id
    → s.calls j ≡ holding layer_id
    → i ≡ j
Reachable-alone s i j layer_id reached = (Reachable-Inv s reached).alone i j layer_id

-- However the calls take turns, one that waits for a layer is not forgotten: it can go on, or else
-- another call fetches that layer, whose end lets it go on.
pub Reachable-waiting :
    (s : Locks) (i : ℕ) (layer_id : String) (channel : ℕ)
    → Reachable s
    → s.calls i ≡ waiting layer_id channel
    → Step s (wake i s) ⊎ ((k : ℕ) × (s.calls k ≡ holding layer_id))
Reachable-waiting s i layer_id channel reached w =
    elim (Option-cases (Dict.find layer_id s.fetching_layers)) [
      | inl gone ↦ inl (wakes i layer_id channel s w (ground (arith, gone)))
      | inr (c, found) ↦ inr ((Reachable-Inv s reached).held layer_id c found)
    ]
