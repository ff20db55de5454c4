-- ===== src/ContainerPool/Create/Ranges.antt =====
-- The ranges of the pools before and after Create of container_pool.go.
use warden_linux.Base.{ℕ, ◌≡◌, ◌⊎◌, inl, inr, Result-cases, arith}
use warden_linux.ContainerPool.Create.Steps.{
  ConfigLaws, provide-SamePools, save-SamePools, write_bind_mounts-SamePools, reserve-port_pool,
  reserved, id, named, provided, container, made, saved,
}
use warden_linux.ContainerPool.Create.{reserve, next_id, provide, create_cmd, create}
use warden_linux.ContainerPool.{ContainerSpec, Config, Pools, release_uid, release_network}
use warden_linux.Network.{Network}

module _ {U N P W : Type 0} (config : Config U N P W) (spec : ContainerSpec)
    (s : Pools U N P W) where
  -- The pools after Create are those after the reservation, with or without a release of both.
  abbrev Kept : Pools U N P W → Type 0
  Kept t =
      (t.uid_pool ≡ (reserved config spec s).uid_pool)
      × (t.network_pool ≡ (reserved config spec s).network_pool)
      × (t.port_pool ≡ s.port_pool)

  abbrev Released : Pools U N P W → Type 0
  Released t =
      (uid : ℕ) × (network : Network) × (t.uid_pool
        ≡ config.uids.release uid (reserved config spec s).uid_pool)
      × (t.network_pool ≡ config.networks.release network (reserved config spec s).network_pool)
      × (t.port_pool ≡ s.port_pool)

  create-pools : Kept (create config spec s).1 ⊎ Released (create config spec s).1
  unfolding create next_id release_uid release_network
  create-pools =
      let same =
        provide-SamePools config (id config spec s) spec.rootfs_path (named config spec s) in
      let ports = reserve-port_pool config s in
      elim (Result-cases (reserve config s).0) [
        | inr (e, failed) ↦ inl (ground (arith, failed, ports))
        | inl ((uid, network), got) ↦
            elim (Result-cases
              (provide config (id config spec s) spec.rootfs_path (named config spec s)).0) [
                | inr (e, failed) ↦ inl (ground (arith, got, failed, same, ports))
                | inl ((url, rootfs), found) ↦
                    elim (Result-cases
                      (config.sys.run
                        (create_cmd config (container config spec s uid network) rootfs)
                        (provided config spec s).world).0) [
                          | inr (e, failed) ↦ inr (
                            uid,
                            network,
                            ground (arith, got, found, failed, same),
                            ground (arith, got, found, failed, same),
                            ground (arith, got, found, failed, same, ports),
                          )
                          | inl (done, made_it) ↦ inl (
                              ground (
                                arith,
                                got,
                                found,
                                made_it,
                                same,
                                ports,
                                save-SamePools config (id config spec s) url.scheme
                                    (made config spec s uid network rootfs),
                                write_bind_mounts-SamePools config
                                    (container config spec s uid network).path spec.bind_mounts
                                    (saved config spec s uid network url rootfs),
                              ))
                        ]
              ]
      ]

  module _ (laws : ConfigLaws config) where
    reserve-owns :
        (u : ℕ) (n : Network)
        → (config.uids.owns (reserve config s).1.uid_pool u ≡ config.uids.owns s.uid_pool u)
          × (config.networks.owns (reserve config s).1.network_pool n
              ≡ config.networks.owns s.network_pool n)
    unfolding reserve release_uid
    reserve-owns u n = elim (Result-cases (config.uids.acquire s.uid_pool).0) [
      | inr (e, failed) ↦ ground (arith, failed, laws.uids.acquire_owns s.uid_pool u)
      | inl (uid, got) ↦ ground (
        arith,
        got,
        laws.uids.acquire_owns s.uid_pool u,
        laws.uids.release_owns (config.uids.acquire s.uid_pool).1 uid u,
        laws.networks.acquire_owns s.network_pool n,
      )
    ]

    pub create-owns :
        (u : ℕ) (n : Network)
        → let t = (create config spec s).1 in
          (config.uids.owns t.uid_pool u ≡ config.uids.owns s.uid_pool u)
          × (config.networks.owns t.network_pool n ≡ config.networks.owns s.network_pool n)
    create-owns u n = elim create-pools [
      | inl kept ↦ ground (arith, kept, reserve-owns u n)
      | inr (uid, network, us, ns, ps) ↦ ground (
        arith,
        us,
        ns,
        reserve-owns u n,
        laws.uids.release_owns (reserved config spec s).uid_pool uid u,
        laws.networks.release_owns (reserved config spec s).network_pool network n,
      )
    ]

  pub create-port_pool : (create config spec s).1.port_pool ≡ s.port_pool
  create-port_pool = elim create-pools [
    | inl kept ↦ ground (arith, kept)
    | inr (uid, network, us, ns, ps) ↦ ground (arith, ps)
  ]
