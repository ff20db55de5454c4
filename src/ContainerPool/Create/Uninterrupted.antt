-- ===== src/ContainerPool/Create/Uninterrupted.antt =====
-- Create of container_pool.go, run without interruption, as steps among other calls.
use mathlib.Core.Path.{subst}
use warden_linux.Base.{
  ℕ, ◌≡◌, sym, inl, inr, List, String, [], ◌∷◌, ◌++◌, Result, ok, err, Result-cases, arith,
}
use warden_linux.Container
use warden_linux.Container.{Container}
use warden_linux.ContainerPool.Create.Steps.{
  SamePools, provide-SamePools, save-SamePools, write_bind_mounts-SamePools, id, named, provided,
  container, made, saved,
}
use warden_linux.ContainerPool.Create.{
  reserve, next_id, provide, new_container, create_cmd, save_rootfs_provider, write_bind_mounts,
  create,
}
use warden_linux.ContainerPool.Interleaved.{
  in_create, Phase, Steps, idle, making, lost, takes_uid, takes_network, no_uid, no_network,
  refunds_uid, makes, fails, create_sh_fails, undoes_uid, undoes_network,
}
use warden_linux.ContainerPool.Interleaved.Runs.{Run, Run-step, Run-same, Steps-trans}
use warden_linux.ContainerPool.{
  Config, Pools, ContainerSpec, Url, in_uid_pool, in_network_pool, release_uid, release_network,
}
use warden_linux.Network.{Network}
use warden_linux.System.{Error}

module _ {U N P W : Type 0} (config : Config U N P W) (front back : List Phase) where
  abbrev after_reserve : Result Error (ℕ × Network) → Phase
  after_reserve (ok (uid, network)) = making uid network
  after_reserve (err e) = idle

  reserve-ends :
      (s : Pools U N P W) (r : Result Error (ℕ × Network))
      → (reserve config s).0 ≡ r
      → Run config front back s idle (reserve config s).1 (after_reserve r)
      → Run config front back s idle (reserve config s).1 (after_reserve (reserve config s).0)
  reserve-ends s r ends run =
      subst (λ r. Run config front back s idle (reserve config s).1 (after_reserve r)) (sym ends)
        run

  reserve-Run :
      (s : Pools U N P W)
      → Run config front back s idle (reserve config s).1 (after_reserve (reserve config s).0)
  unfolding reserve release_uid
  reserve-Run s = elim (Result-cases (config.uids.acquire s.uid_pool).0) [
    | inr (e, failed) ↦ reserve-ends s (err (Error.uids e)) (ground (arith, failed)) (
        Run-step config front back idle (in_create (no_uid e s failed))
          (Run-same config front back idle (ground (arith, failed))))
    | inl (uid, got) ↦
        (let s1 = (in_uid_pool config.uids.acquire s).1 in
          elim (Result-cases (config.networks.acquire s.network_pool).0) [
            | inr (e, failed) ↦
                reserve-ends s (err (Error.networks e)) (ground (arith, got, failed)) (
                  Run-step config front back idle (in_create (takes_uid uid s got)) (
                    Run-step config front back idle (in_create (no_network uid e s1 failed)) (
                      Run-step config front back idle
                        (in_create (refunds_uid uid (in_network_pool config.networks.acquire s1).1))
                        (Run-same config front back idle (ground (arith, got, failed))))))
            | inl (network, got') ↦ reserve-ends s (ok (uid, network)) (ground (arith, got, got')) (
                Run-step config front back (making uid network) (in_create (takes_uid uid s got)) (
                  Run-step config front back (making uid network)
                    (in_create (takes_network uid network s1 got'))
                    (Run-same config front back (making uid network) (ground (arith, got, got')))))
          ])
  ]

-- Where a call of Create ends.
pub data AfterCreate : Result Error Container → Phase → Type 0 where
  created :
      (c : Container)
      → AfterCreate (ok c) (Phase.made c.resources.uid c.resources.network c.resources.ports)
  gave_back : (e : Error) → AfterCreate (err e) idle
  kept : (e : Error) (uid : ℕ) (network : Network) → AfterCreate (err e) (lost uid network [])

module _ {U N P W : Type 0} (config : Config U N P W) (spec : ContainerSpec)
    (front back : List Phase) (s : Pools U N P W) where
  abbrev Ends : Type 0
  Ends =
      (call : Phase) × Run config front back s idle (create config spec s).1 call
      × AfterCreate (create config spec s).0 call

  create-ends :
      (r : Result Error Container) (q : Result Error (ℕ × Network)) (call : Phase)
      → (create config spec s).0 ≡ r
      → (reserve config s).0 ≡ q
      → AfterCreate r call
      → Run config front back
          (reserve config s).1
          (after_reserve config front back q)
          (create config spec s).1
          call
      → Ends
  create-ends r q call ends got after run = (
    call,
    Steps-trans config
        (subst
          (λ q.
            Run config front back s idle (reserve config s).1 (after_reserve config front back q))
          got (reserve-Run config front back s))
        run,
    subst (λ r. AfterCreate r call) (sym ends) after,
  )

  create-kept :
      (e : Error) (uid : ℕ) (network : Network)
      → (create config spec s).0 ≡ err e
      → (reserve config s).0 ≡ ok (uid, network)
      → SamePools config (reserve config s).1 (create config spec s).1
      → Ends
  create-kept e uid network ends got same =
      create-ends (err e) (ok (uid, network)) (lost uid network []) ends got (kept e uid network) (
        Run-step config front back (lost uid network [])
          (in_create (fails uid network (reserve config s).1))
          (Run-same config front back (lost uid network []) same))

  -- Once create.sh has run and the provider's name is saved: the bind mounts.
  saved-Run :
      (uid : ℕ) (network : Network) (url : Url) (rootfs : String)
      → (reserve config s).0 ≡ ok (uid, network)
      → (provide config (id config spec s) spec.rootfs_path (named config spec s)).0
        ≡ ok (url, rootfs)
      → (config.sys.run
          (create_cmd config (container config spec s uid network) rootfs)
          (provided config spec s).world).0
        ≡ ok tt
      → (save_rootfs_provider config
          (id config spec s)
          url.scheme
          (made config spec s uid network rootfs)).0
        ≡ ok tt
      → Ends
  unfolding create next_id new_container Container.new
  saved-Run uid network url rootfs got found ran wrote =
      let c = container config spec s uid network in
      let last = saved config spec s uid network url rootfs in
      let same =
        provide-SamePools config (id config spec s) spec.rootfs_path (named config spec s) in
      let same' =
        save-SamePools config (id config spec s) url.scheme
          (made config spec s uid network rootfs) in
      let same'' = write_bind_mounts-SamePools config c.path spec.bind_mounts last in
      elim (Result-cases (write_bind_mounts config c.path spec.bind_mounts last).0) [
        | inr (e, failed) ↦
            create-kept e uid network (ground (arith, got, found, ran, wrote, failed)) got
              (ground (arith, got, found, ran, wrote, failed, same, same', same''))
        | inl (_, bound) ↦
            create-ends (ok c) (ok (uid, network)) (Phase.made uid network [])
              (ground (arith, got, found, ran, wrote, bound)) got (created c)
              (Run-step config front back (Phase.made uid network [])
                (in_create (makes uid network (reserve config s).1))
                (Run-same config front back (Phase.made uid network [])
                  (ground (arith, got, found, ran, wrote, bound, same, same', same''))))
      ]

  -- Once there is a root file system: create.sh, the file for the provider, and the bind mounts.
  provided-Run :
      (uid : ℕ) (network : Network) (url : Url) (rootfs : String)
      → (reserve config s).0 ≡ ok (uid, network)
      → (provide config (id config spec s) spec.rootfs_path (named config spec s)).0
        ≡ ok (url, rootfs)
      → Ends
  unfolding create next_id release_uid release_network new_container Container.new
  provided-Run uid network url rootfs got found =
      let c = container config spec s uid network in
      let same =
        provide-SamePools config (id config spec s) spec.rootfs_path (named config spec s) in
      let same' =
        save-SamePools config (id config spec s) url.scheme
          (made config spec s uid network rootfs) in
      elim (Result-cases
        (config.sys.run (create_cmd config c rootfs) (provided config spec s).world).0) [
          | inr (e, failed) ↦
              create-ends (err e) (ok (uid, network)) idle (ground (arith, got, found, failed)) got
                (gave_back e)
                (Run-step config front back idle
                  (in_create (create_sh_fails uid network (reserve config s).1))
                  (Run-step config front back idle
                    (in_create (undoes_uid uid network (reserve config s).1))
                    (Run-step config front back idle
                      (in_create
                        (undoes_network network (release_uid config uid (reserve config s).1)))
                      (Run-same config front back idle
                        (ground (arith, got, found, failed, same))))))
          | inl (_, ran) ↦
              elim (Result-cases
                (save_rootfs_provider config (id config spec s) url.scheme
                  (made config spec s uid network rootfs)).0) [
                    | inr (e, failed) ↦
                        create-kept e uid network (ground (arith, got, found, ran, failed)) got
                          (ground (arith, got, found, ran, failed, same, same'))
                    | inl (_, wrote) ↦ saved-Run uid network url rootfs got found ran wrote
                  ]
        ]

  -- A Create that is not interrupted is a run of one call among any others that stand still: it
  -- ends with what the container that it returns holds, with nothing held, or with a user id and a
  -- network that are held for good.
  pub create-Steps :
      (call : Phase) × Steps config s
        (front ++ idle ∷ back)
        (create config spec s).1
        (front ++ call ∷ back)
      × AfterCreate (create config spec s).0 call
  unfolding create next_id
  create-Steps = elim (Result-cases (reserve config s).0) [
    | inr (e, failed) ↦
        create-ends (err e) (err e) idle (ground (arith, failed)) failed (gave_back e)
          (Run-same config front back idle (ground (arith, failed)))
    | inl ((uid, network), got) ↦
        elim (Result-cases
          (provide config (id config spec s) spec.rootfs_path (named config spec s)).0) [
            | inr (e, failed) ↦ create-kept e uid network (ground (arith, got, failed)) got (
                ground (
                  arith,
                  got,
                  failed,
                  provide-SamePools config (id config spec s) spec.rootfs_path
                      (named config spec s),
                ))
            | inl ((url, rootfs), found) ↦ provided-Run uid network url rootfs got found
          ]
  ]
