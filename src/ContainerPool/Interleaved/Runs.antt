-- ===== src/ContainerPool/Interleaved/Runs.antt =====
-- The steps of one of the calls of container_pool.go, while the others take none.
use warden_linux.Base.{refl, List, ◌∷◌, ◌++◌}
use warden_linux.ContainerPool.Create.Steps.{SamePools}
use warden_linux.ContainerPool.Interleaved.{Phase, Local, works, one, Steps, here, next}
use warden_linux.ContainerPool.{Config, Pools}

module _ {U N P W : Type 0} (config : Config U N P W) (front back : List Phase) where
  abbrev pub Run : Pools U N P W → Phase → Pools U N P W → Phase → Type 0
  Run s ph t ph' = Steps config s (front ++ ph ∷ back) t (front ++ ph' ∷ back)

  pub Run-step :
      {s t u : Pools U N P W} {ph ph' : Phase} (last : Phase)
      → Local config s ph t ph'
      → Run t ph' u last
      → Run s ph u last
  Run-step last local more = next (one front back refl refl local) more

  pub Run-same : {s t : Pools U N P W} (ph : Phase) → SamePools config s t → Run s ph t ph
  Run-same {s} {t} ph (u, n, p) = Run-step ph (works ph s t u n p) here

module _ {U N P W : Type 0} (config : Config U N P W) where
  pub Steps-trans :
      {s t u : Pools U N P W} {calls others last : List Phase}
      → Steps config s calls t others
      → Steps config t others u last
      → Steps config s calls u last
  Steps-trans here more = more
  Steps-trans (next step steps) more = next step (Steps-trans steps more)
