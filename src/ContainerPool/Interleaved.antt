-- ===== src/ContainerPool/Interleaved.antt =====
-- The calls of Create, NetIn and Destroy that run at the same time on container_pool.go and
-- linux_container.go. A method of a pool of ids holds the pool's mutex, so each use of a pool is one
-- step, and between two of them the steps of other calls take place. On one container, NetIn is over
-- when Destroy begins to give back, and one call of Destroy does so.
pub mod Held
pub mod Kept
pub mod Exclusion
pub mod Runs
pub mod Examples
use warden_linux.Base.{ℕ, ◌≡◌, ◌+◌, zero, suc, List, [], ◌∷◌, ◌++◌, ok, err}
use warden_linux.ContainerPool.{
  Config, Pools, in_uid_pool, in_network_pool, in_port_pool, release_uid, release_network,
  release_port,
}
use warden_linux.Network.{Network}
use warden_linux.NetworkPool.{NetworkError}
use warden_linux.PortPool.{PortError}
use warden_linux.UidPool.{UidError}

-- Where the calls for one container are, and what they hold.
pub data Phase : Type 0 where
  idle : Phase
  -- Create has a user id, and no network yet, or is refused one.
  with_uid : ℕ → Phase
  refused : ℕ → Phase
  -- Create has both; its container is then there with its ports, or what it had is lost.
  making : ℕ → Network → Phase
  made : ℕ → Network → List ℕ → Phase
  lost : ℕ → Network → List ℕ → Phase
  -- Destroy gives back the ports, and then as Create after create.sh the user id and the network.
  emptying : ℕ → Network → List ℕ → Phase
  undoing : ℕ → Network → Phase
  without_uid : Network → Phase

module _ {U N P W : Type 0} (config : Config U N P W) where
  -- Create, at one use of a pool or between two of them.
  pub data CreateStep : Pools U N P W → Phase → Pools U N P W → Phase → Type 0 where
    takes_uid :
        (uid : ℕ) (s : Pools U N P W)
        → (config.uids.acquire s.uid_pool).0 ≡ ok uid
        → CreateStep s idle (in_uid_pool config.uids.acquire s).1 (with_uid uid)
    no_uid :
        (e : UidError) (s : Pools U N P W)
        → (config.uids.acquire s.uid_pool).0 ≡ err e
        → CreateStep s idle (in_uid_pool config.uids.acquire s).1 idle
    takes_network :
        (uid : ℕ) (network : Network) (s : Pools U N P W)
        → (config.networks.acquire s.network_pool).0 ≡ ok network
        → CreateStep s
            (with_uid uid)
            (in_network_pool config.networks.acquire s).1
            (making uid network)
    no_network :
        (uid : ℕ) (e : NetworkError) (s : Pools U N P W)
        → (config.networks.acquire s.network_pool).0 ≡ err e
        → CreateStep s (with_uid uid) (in_network_pool config.networks.acquire s).1 (refused uid)
    refunds_uid :
        (uid : ℕ) (s : Pools U N P W) → CreateStep s (refused uid) (release_uid config uid s) idle
    makes :
        (uid : ℕ) (network : Network) (s : Pools U N P W)
        → CreateStep s (making uid network) s (made uid network [])
    fails :
        (uid : ℕ) (network : Network) (s : Pools U N P W)
        → CreateStep s (making uid network) s (lost uid network [])
    create_sh_fails :
        (uid : ℕ) (network : Network) (s : Pools U N P W)
        → CreateStep s (making uid network) s (undoing uid network)
    undoes_uid :
        (uid : ℕ) (network : Network) (s : Pools U N P W)
        → CreateStep s (undoing uid network) (release_uid config uid s) (without_uid network)
    undoes_network :
        (network : Network) (s : Pools U N P W)
        → CreateStep s (without_uid network) (release_network config network s) idle

  -- NetIn, where it is asked for a port of the pool.
  pub data NetInStep : Pools U N P W → Phase → Pools U N P W → Phase → Type 0 where
    takes_port :
        (uid : ℕ) (network : Network) (ports : List ℕ) (port : ℕ) (s : Pools U N P W)
        → (config.ports.acquire s.port_pool).0 ≡ ok port
        → NetInStep s
            (made uid network ports)
            (in_port_pool config.ports.acquire s).1
            (made uid network (ports ++ port ∷ []))
    no_port :
        (uid : ℕ) (network : Network) (ports : List ℕ) (e : PortError) (s : Pools U N P W)
        → (config.ports.acquire s.port_pool).0 ≡ err e
        → NetInStep s
            (made uid network ports)
            (in_port_pool config.ports.acquire s).1
            (made uid network ports)

  -- Destroy, once destroy.sh has run.
  pub data DestroyStep : Pools U N P W → Phase → Pools U N P W → Phase → Type 0 where
    destroys :
        (uid : ℕ) (network : Network) (ports : List ℕ) (s : Pools U N P W)
        → DestroyStep s (made uid network ports) s (emptying uid network ports)
    gives_port :
        (uid : ℕ) (network : Network) (port : ℕ) (ports : List ℕ) (s : Pools U N P W)
        → DestroyStep s
            (emptying uid network (port ∷ ports))
            (release_port config port s)
            (emptying uid network ports)
    emptied :
        (uid : ℕ) (network : Network) (s : Pools U N P W)
        → DestroyStep s (emptying uid network []) s (undoing uid network)
    gives_uid :
        (uid : ℕ) (network : Network) (s : Pools U N P W)
        → DestroyStep s (undoing uid network) (release_uid config uid s) (without_uid network)
    gives_network :
        (network : Network) (s : Pools U N P W)
        → DestroyStep s (without_uid network) (release_network config network s) idle

  -- What one call does: a step of a method; Create of the backend forgets the container, where it
  -- cannot be started; and commands are run and files are written, which is no use of a pool.
  pub data Local : Pools U N P W → Phase → Pools U N P W → Phase → Type 0 where
    in_create : {s t : Pools U N P W} {ph ph' : Phase} → CreateStep s ph t ph' → Local s ph t ph'
    in_net_in : {s t : Pools U N P W} {ph ph' : Phase} → NetInStep s ph t ph' → Local s ph t ph'
    in_destroy : {s t : Pools U N P W} {ph ph' : Phase} → DestroyStep s ph t ph' → Local s ph t ph'
    not_started :
        (uid : ℕ) (network : Network) (ports : List ℕ) (s : Pools U N P W)
        → Local s (made uid network ports) s (lost uid network ports)
    works :
        (ph : Phase) (s t : Pools U N P W)
        → t.uid_pool ≡ s.uid_pool
        → t.network_pool ≡ s.network_pool
        → t.port_pool ≡ s.port_pool
        → Local s ph t ph

  -- One of the calls takes a step.
  pub data Step : Pools U N P W → List Phase → Pools U N P W → List Phase → Type 0 where
    one :
        {s t : Pools U N P W} {ph ph' : Phase} (front back : List Phase) {before after : List Phase}
        → before ≡ front ++ ph ∷ back
        → after ≡ front ++ ph' ∷ back
        → Local s ph t ph'
        → Step s before t after

  pub data Steps : Pools U N P W → List Phase → Pools U N P W → List Phase → Type 0 where
    here : {s : Pools U N P W} {calls : List Phase} → Steps s calls s calls
    next :
        {s t u : Pools U N P W} {calls others last : List Phase}
        → Step s calls t others
        → Steps t others u last
        → Steps s calls u last

-- So many calls that have not begun.
abbrev pub idles : ℕ → List Phase
idles zero = []
idles (suc n) = idle ∷ idles n
