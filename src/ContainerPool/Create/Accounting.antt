-- ===== src/ContainerPool/Create/Accounting.antt =====
-- Where the user id and the network go, on each way through Create of container_pool.go.
use warden_linux.Base.{ℕ, ◌≡◌, inl, inr, [], String, ok, err, Result-cases, arith, if◌then◌else◌}
use warden_linux.Container
use warden_linux.Container.{Container}
use warden_linux.ContainerPool.Create.{reserve, next_id, provide, new_container, create_cmd, create}
use warden_linux.ContainerPool.Ids.{container_id}
use warden_linux.ContainerPool.{ContainerSpec, Config, Pools, Url, release_uid, release_network}
use warden_linux.IdPool.{IsSound}
use warden_linux.IdPool.Counting.{release-acquire}
use warden_linux.Network.{Network}
use warden_linux.System.{Error}
use warden_linux.Text.{◌===◌}
use warden_linux.ContainerPool.Create.Steps.{
  ConfigLaws, Took, SameCounts, reserve_ok, reserve_parts, provide-SamePools, save-SamePools,
  write_bind_mounts-SamePools, container_num-reserve, id, named, provided, container, made, saved,
}

module _ {U N P W : Type 0} (config : Config U N P W) (laws : ConfigLaws config)
    (spec : ContainerSpec) (s : Pools U N P W) where
  -- A container that Create returns has the oldest free user id and the oldest free network,
  -- which are in the pools no more, and no port; the rest of the pools is as it was. Its id is
  -- the next one, which is also its handle if none was asked for, and it is not started yet.
  pub create_ok :
      (c : Container)
      → (create config spec s).0 ≡ ok c
      → Took config c.resources.uid c.resources.network s (create config spec s).1
        × ((create config spec s).1.port_pool ≡ s.port_pool)
        × (c.resources.ports ≡ [])
        × (c.id ≡ container_id s.container_num)
        × (c.handle ≡ (if spec.handle === "" then c.id else spec.handle))
        × (c.state ≡ "born")
  unfolding create next_id new_container Container.new
  create_ok c made_it = elim (Result-cases (reserve config s).0) [
    | inr (e, failed) ↦ ground (arith, failed)
    | inl ((uid, network), got) ↦
        elim (Result-cases
          (provide config (id config spec s) spec.rootfs_path (named config spec s)).0) [
            | inr (e, failed) ↦ ground (arith, got, failed)
            | inl ((url, rootfs), found) ↦ ground (
              arith,
              got,
              found,
              reserve_ok config laws s uid network got,
              container_num-reserve config s,
              provide-SamePools config (id config spec s) spec.rootfs_path (named config spec s),
              save-SamePools config (id config spec s) url.scheme
                  (made config spec s uid network rootfs),
              write_bind_mounts-SamePools config (container config spec s uid network).path
                  spec.bind_mounts (saved config spec s uid network url rootfs),
            )
          ]
  ]

  -- When create.sh fails, Create returns its error, and every user id and every network is free
  -- as often as before: what was taken for the container is back. This is so for pools in which
  -- nothing is free twice or out of range.
  pub create_sh_err :
      (uid : ℕ) (network : Network) (url : Url) (rootfs : String) (e : Error)
      → IsSound config.uids s.uid_pool
      → IsSound config.networks s.network_pool
      → (reserve config s).0 ≡ ok (uid, network)
      → (provide config (id config spec s) spec.rootfs_path (named config spec s)).0
        ≡ ok (url, rootfs)
      → (config.sys.run
          (create_cmd config (container config spec s uid network) rootfs)
          (provided config spec s).world).0
        ≡ err e
      → ((create config spec s).0 ≡ err e) × SameCounts config s (create config spec s).1
  unfolding create next_id release_uid release_network
  create_sh_err uid network url rootfs e uids networks got found failed =
      let parts = reserve_parts config laws s uid network got in
      let same =
        provide-SamePools config (id config spec s) spec.rootfs_path (named config spec s) in
      (
        ground (arith, got, found, failed),
        (
          λ u. ground (
            arith,
            got,
            found,
            failed,
            parts,
            same,
            release-acquire config.uids laws.uids s.uid_pool uid u uids parts.0,
          ),
          λ n. ground (
            arith,
            got,
            found,
            failed,
            parts,
            same,
            release-acquire config.networks laws.networks s.network_pool network n networks parts.1,
          ),
        ),
      )

  -- When the root file system cannot be provided (its URL does not parse, no provider is
  -- registered for the scheme, or the provider fails), Create returns the error, and the user
  -- id and the network that were taken for the container are lost: they are out of the pools,
  -- and there is no container that holds them.
  pub create-provide_err :
      (uid : ℕ) (network : Network) (e : Error)
      → (reserve config s).0 ≡ ok (uid, network)
      → (provide config (id config spec s) spec.rootfs_path (named config spec s)).0 ≡ err e
      → ((create config spec s).0 ≡ err e) × Took config uid network s (create config spec s).1
  unfolding create next_id
  create-provide_err uid network e got failed = ground (
    arith,
    got,
    failed,
    reserve_ok config laws s uid network got,
    provide-SamePools config (id config spec s) spec.rootfs_path (named config spec s),
  )
