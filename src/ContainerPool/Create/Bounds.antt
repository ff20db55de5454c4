-- ===== src/ContainerPool/Create/Bounds.antt =====
-- What is free and held before and after Create of container_pool.go.
use warden_linux.Base.{
  String, ℕ, ◌+◌, ◌≤◌, ◌≡◌, inl, inr, ok, err, Result, Result-cases, arith, if◌then◌else◌,
}
use warden_linux.Container
use warden_linux.Container.{Container}
use warden_linux.ContainerPool.Create.Accounting.{create_sh_err, create-provide_err}
use warden_linux.ContainerPool.Create.Steps.{
  ConfigLaws, uid_count, network_count, Took, reserve_ok, reserve_err, provide-SamePools,
  save-SamePools, write_bind_mounts-SamePools, id, named, provided, container, made, saved,
}
use warden_linux.ContainerPool.Create.{reserve, next_id, provide, new_container, create_cmd, create}
use warden_linux.ContainerPool.{ContainerSpec, Config, Pools, Url}
use warden_linux.IdPool.{IsSound}
use warden_linux.Network.{Network}
use warden_linux.System.{Error}

-- How often a returned container holds a user id, or a network.
abbrev pub uid_held_by : {U N P W : Type 0} → Config U N P W → Result Error Container → ℕ → ℕ
uid_held_by config (ok c) uid = if config.uids.same c.resources.uid uid then 1 else 0
uid_held_by config (err e) uid = 0

abbrev pub network_held_by :
    {U N P W : Type 0} → Config U N P W → Result Error Container → Network → ℕ
network_held_by config (ok c) network =
    if config.networks.same c.resources.network network then 1 else 0
network_held_by config (err e) network = 0

module _ {U N P W : Type 0} (config : Config U N P W) (laws : ConfigLaws config)
    (spec : ContainerSpec) (s : Pools U N P W) where
  -- After create.sh has succeeded, only a container that holds what was taken is returned.
  after_run :
      (uid : ℕ) (network : Network) (url : Url) (rootfs : String)
      → (reserve config s).0 ≡ ok (uid, network)
      → (provide config (id config spec s) spec.rootfs_path (named config spec s)).0
        ≡ ok (url, rootfs)
      → (config.sys.run
          (create_cmd config (container config spec s uid network) rootfs)
          (provided config spec s).world).0
        ≡ ok tt
      → Took config uid network s (create config spec s).1
        × ((u : ℕ)
            → uid_held_by config (create config spec s).0 u
              ≤ (if config.uids.same uid u then 1 else 0))
        × ((n : Network)
            → network_held_by config (create config spec s).0 n
              ≤ (if config.networks.same network n then 1 else 0))
  unfolding create next_id new_container Container.new
  after_run uid network url rootfs got found made_it =
      let taken = reserve_ok config laws s uid network got in
      let same =
        provide-SamePools config (id config spec s) spec.rootfs_path (named config spec s) in
      let kept =
        save-SamePools config (id config spec s) url.scheme
          (made config spec s uid network rootfs) in
      let bound =
        write_bind_mounts-SamePools config (container config spec s uid network).path
          spec.bind_mounts (saved config spec s uid network url rootfs) in
      (
        ground (arith, got, found, made_it, taken, same, kept, bound),
        λ u. ground (arith, got, found, made_it),
        λ n. ground (arith, got, found, made_it),
      )

  refused :
      (e : Error)
      → (reserve config s).0 ≡ err e
      → ((create config spec s).0 ≡ err e)
        × ((create config spec s).1.uid_pool ≡ (reserve config s).1.uid_pool)
        × ((create config spec s).1.network_pool ≡ (reserve config s).1.network_pool)
  unfolding create
  refused e failed = ground (arith, failed)

  -- However Create ends, no user id and no network is free, or held by the container that it
  -- returned, more often than it was free before; for pools in which nothing is free twice.
  pub create_le :
      (u : ℕ) (n : Network)
      → IsSound config.uids s.uid_pool
      → IsSound config.networks s.network_pool
      → let r = create config spec s in
        (uid_count config u r.1 + uid_held_by config r.0 u ≤ uid_count config u s)
        × (network_count config n r.1 + network_held_by config r.0 n ≤ network_count config n s)
  create_le u n uids networks = elim (Result-cases (reserve config s).0) [
    | inr (e, failed) ↦
        (let (us, ns) = reserve_err config laws s e uids failed in
          ground (arith, refused e failed, us u, ns n))
    | inl ((uid, network), got) ↦
        elim (Result-cases
          (provide config (id config spec s) spec.rootfs_path (named config spec s)).0) [
            | inr (e, failed) ↦
                ground (arith, create-provide_err config laws spec s uid network e got failed)
            | inl ((url, rootfs), found) ↦
                elim (Result-cases
                  (config.sys.run (create_cmd config (container config spec s uid network) rootfs)
                    (provided config spec s).world).0) [
                      | inr (e, failed) ↦
                          (let (ended, (us, ns)) =
                              create_sh_err config laws spec s uid network url rootfs e uids
                                networks got found failed in
                            ground (arith, ended, us u, ns n))
                      | inl (done, made_it) ↦
                          (let (taken, us, ns) =
                              after_run uid network url rootfs got found made_it in
                            ground (arith, taken, us u, ns n))
                    ]
          ]
  ]
