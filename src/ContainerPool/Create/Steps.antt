-- ===== src/ContainerPool/Create/Steps.antt =====
-- The steps of Create and what each does to the pools.
use warden_linux.Base.{ℕ, ◌≡◌, inl, inr, List, [], ◌∷◌, String, ok, err, Result-cases, count, arith}
use warden_linux.Container.{Container}
use warden_linux.ContainerPool.Create.{
  reserve, next_id, provide, new_container, create_cmd, save_rootfs_provider, write_bind_mount,
  write_bind_mounts,
}
use warden_linux.ContainerPool.Ids.{container_id}
use warden_linux.ContainerPool.{BindMount, ContainerSpec, Config, Pools, Url, release_uid}
use warden_linux.IdPool.{IdPoolLaws, IsSound}
use warden_linux.IdPool.Counting.{acquire_ok, acquire_err, release-acquire}
use warden_linux.Network.{Network}
use warden_linux.System.{Error}

-- The laws of the pools that a container pool is configured with.
pub record ConfigLaws {U N P W : Type 0} (config : Config U N P W) : Type 0 where
  pub uids : IdPoolLaws config.uids
  pub networks : IdPoolLaws config.networks
  pub ports : IdPoolLaws config.ports

module _ {U N P W : Type 0} (config : Config U N P W) where
  abbrev pub uid_count : ℕ → Pools U N P W → ℕ
  uid_count uid s = count config.uids.same uid (config.uids.free s.uid_pool)

  abbrev pub network_count : Network → Pools U N P W → ℕ
  network_count network s = count config.networks.same network (config.networks.free s.network_pool)

  -- The pools hold what they held before, as often.
  abbrev pub SameCounts : Pools U N P W → Pools U N P W → Type 0
  SameCounts s t =
      ((uid : ℕ) → uid_count uid t ≡ uid_count uid s)
      × ((network : Network) → network_count network t ≡ network_count network s)

  -- The oldest free user id and the oldest free network are out of the pools, the rest is there.
  abbrev pub Took : ℕ → Network → Pools U N P W → Pools U N P W → Type 0
  Took uid network s t =
      (config.uids.free s.uid_pool ≡ uid ∷ config.uids.free t.uid_pool)
      × (config.networks.free s.network_pool ≡ network ∷ config.networks.free t.network_pool)

  abbrev pub SamePools : Pools U N P W → Pools U N P W → Type 0
  SamePools s t =
      (t.uid_pool ≡ s.uid_pool) × (t.network_pool ≡ s.network_pool) × (t.port_pool ≡ s.port_pool)

  pub write_bind_mounts-SamePools :
      (path : String) (bms : List BindMount) (s : Pools U N P W)
      → SamePools s (write_bind_mounts config path bms s).1
  unfolding write_bind_mounts
  write_bind_mounts-SamePools path [] s = ground arith
  write_bind_mounts-SamePools path (bm ∷ bms) s =
      ground (arith, write_bind_mounts-SamePools path bms (write_bind_mount config path bm s).1)

  pub provide-SamePools :
      (id rootfs_path : String) (s : Pools U N P W)
      → SamePools s (provide config id rootfs_path s).1
  unfolding provide
  provide-SamePools id rootfs_path s = ground arith

  pub save-SamePools :
      (id scheme : String) (s : Pools U N P W)
      → SamePools s (save_rootfs_provider config id scheme s).1
  unfolding save_rootfs_provider
  save-SamePools id scheme s = ground arith

  pub container_num-reserve :
      (s : Pools U N P W) → (reserve config s).1.container_num ≡ s.container_num
  unfolding reserve release_uid
  container_num-reserve s = ground arith

  pub reserve-port_pool : (s : Pools U N P W) → (reserve config s).1.port_pool ≡ s.port_pool
  unfolding reserve release_uid
  reserve-port_pool s = ground arith

  module _ (laws : ConfigLaws config) where
    pub reserve_ok :
        (s : Pools U N P W) (uid : ℕ) (network : Network)
        → (reserve config s).0 ≡ ok (uid, network)
        → Took uid network s (reserve config s).1 × ((reserve config s).1.port_pool ≡ s.port_pool)
    unfolding reserve
    reserve_ok s uid network got = elim (Result-cases (config.uids.acquire s.uid_pool).0) [
      | inr (e, none_free) ↦ ground (arith, none_free)
      | inl (u, got_uid) ↦ ground (
        arith,
        got_uid,
        acquire_ok config.uids laws.uids s.uid_pool u got_uid,
        acquire_ok config.networks laws.networks s.network_pool network,
      )
    ]

    pub reserve_parts :
        (s : Pools U N P W) (uid : ℕ) (network : Network)
        → (reserve config s).0 ≡ ok (uid, network)
        → ((config.uids.acquire s.uid_pool).0 ≡ ok uid)
          × ((config.networks.acquire s.network_pool).0 ≡ ok network)
          × ((reserve config s).1.uid_pool ≡ (config.uids.acquire s.uid_pool).1)
          × ((reserve config s).1.network_pool ≡ (config.networks.acquire s.network_pool).1)
    unfolding reserve
    reserve_parts s uid network got = ground arith

    pub reserve_err :
        (s : Pools U N P W) (e : Error)
        → IsSound config.uids s.uid_pool
        → (reserve config s).0 ≡ err e
        → SameCounts s (reserve config s).1
    unfolding reserve release_uid
    reserve_err s e sound failed = elim (Result-cases (config.uids.acquire s.uid_pool).0) [
      | inr (e', none_free) ↦ (
        λ uid. ground (arith, none_free, acquire_err config.uids laws.uids s.uid_pool e'),
        λ network. ground (arith, none_free),
      )
      | inl (u, got_uid) ↦ elim (Result-cases (config.networks.acquire s.network_pool).0) [
        | inl (n, got_network) ↦ (
          λ uid. ground (arith, got_uid, got_network),
          λ network. ground (arith, got_uid, got_network),
        )
        | inr (e', none_free) ↦ (
          λ uid. ground (
            arith,
            got_uid,
            none_free,
            release-acquire config.uids laws.uids s.uid_pool u uid sound got_uid,
          ),
          λ network. ground (
            arith,
            got_uid,
            none_free,
            acquire_err config.networks laws.networks s.network_pool e',
          ),
        )
      ]
    ]

-- The states that Create goes through.
module _ {U N P W : Type 0} (config : Config U N P W) (spec : ContainerSpec)
    (s : Pools U N P W) where
  abbrev pub reserved : Pools U N P W
  reserved = (reserve config s).1

  abbrev pub id : String
  id = container_id reserved.container_num

  abbrev pub named : Pools U N P W
  named = (next_id config reserved).1

  abbrev pub provided : Pools U N P W
  provided = (provide config id spec.rootfs_path named).1

  abbrev pub container : ℕ → Network → Container
  container uid network = new_container config spec id uid network

  abbrev pub made : ℕ → Network → String → Pools U N P W
  made uid network rootfs = record provided {
    world = (config.sys.run (create_cmd config (container uid network) rootfs) provided.world).1;
  }

  abbrev pub saved : ℕ → Network → Url → String → Pools U N P W
  saved uid network url rootfs =
      (save_rootfs_provider config id url.scheme (made uid network rootfs)).1
