-- ===== src/ContainerPool/Destroy/Uninterrupted.antt =====
-- Destroy of container_pool.go, run without interruption, as steps among other calls.
use mathlib.Core.Path.{subst}
use warden_linux.Base.{
  ℕ, ◌≡◌, sym, inl, inr, List, [], ◌∷◌, ◌++◌, Result, ok, err, Result-cases, arith,
}
use warden_linux.Container.{Container}
use warden_linux.ContainerPool.Destroy.Accounting.{destroy_id-pools}
use warden_linux.ContainerPool.Destroy.{destroy_id, destroy}
use warden_linux.ContainerPool.Interleaved.Runs.{Run, Run-step, Run-same, Steps-trans}
use warden_linux.ContainerPool.Interleaved.{
  in_destroy, Phase, Steps, idle, made, emptying, here, destroys, gives_port, emptied, gives_uid,
  gives_network,
}
use warden_linux.ContainerPool.{
  Config, Pools, release_uid, release_network, release_port, release_ports,
}
use warden_linux.Network.{Network}
use warden_linux.System.{Error}

abbrev pub holding : Container → Phase
holding c = made c.resources.uid c.resources.network c.resources.ports

abbrev pub after_destroy : Container → Result Error (Unit {0}) → Phase
after_destroy c (ok _) = idle
after_destroy c (err e) = holding c

module _ {U N P W : Type 0} (config : Config U N P W) (front back : List Phase) where
  release_ports-Run :
      (uid : ℕ) (network : Network) (ports : List ℕ) (s : Pools U N P W)
      → Run config front back s
          (emptying uid network ports)
          (release_ports config ports s)
          (emptying uid network [])
  unfolding release_ports
  release_ports-Run uid network [] s = here
  release_ports-Run uid network (port ∷ ports) s =
      Run-step config front back (emptying uid network [])
        (in_destroy (gives_port uid network port ports s))
        (release_ports-Run uid network ports (release_port config port s))

  released-Run :
      (c : Container) (s : Pools U N P W)
      → let t = release_ports config c.resources.ports s in
        Run config front back s
          (holding c)
          (release_network config c.resources.network (release_uid config c.resources.uid t))
          idle
  released-Run c s =
      let uid = c.resources.uid in
      let network = c.resources.network in
      let t = release_ports config c.resources.ports s in
      Run-step config front back idle (in_destroy (destroys uid network c.resources.ports s)) (
        Steps-trans config (release_ports-Run uid network c.resources.ports s) (
          Run-step config front back idle (in_destroy (emptied uid network t)) (
            Run-step config front back idle (in_destroy (gives_uid uid network t)) (
              Run-step config front back idle
                (in_destroy (gives_network network (release_uid config uid t))) here))))

  destroy-ends :
      (c : Container) (s : Pools U N P W) (r : Result Error (Unit {0}))
      → (destroy config c s).0 ≡ r
      → Run config front back s (holding c) (destroy config c s).1 (after_destroy c r)
      → Run config front back s
          (holding c)
          (destroy config c s).1
          (after_destroy c (destroy config c s).0)
  destroy-ends c s r ends run =
      subst (λ r. Run config front back s (holding c) (destroy config c s).1 (after_destroy c r))
        (sym ends) run

  -- A Destroy that is not interrupted is a run of one call among any others that stand still: when
  -- it succeeds, what the container held is given back, and when it fails, it is held as before.
  pub destroy-Steps :
      (c : Container) (s : Pools U N P W)
      → Steps config s
          (front ++ holding c ∷ back)
          (destroy config c s).1
          (front ++ after_destroy c (destroy config c s).0 ∷ back)
  unfolding destroy
  destroy-Steps c s =
      let gone = (destroy_id config c.id s).1 in
      elim (Result-cases (destroy_id config c.id s).0) [
        | inr (e, failed) ↦ destroy-ends c s (err e) (ground (arith, failed)) (
            Run-same config front back (holding c)
              (ground (arith, failed, destroy_id-pools config c.id s)))
        | inl (_, done) ↦ destroy-ends c s (ok tt) (ground (arith, done)) (
            Steps-trans config
              (Run-same config front back (holding c) (destroy_id-pools config c.id s))
              (Steps-trans config (released-Run c gone)
                (Run-same config front back idle (ground (arith, done)))))
      ]
