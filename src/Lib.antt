-- ===== src/Lib.antt =====
-- Verification library of warden-linux, the Linux backend of the container manager warden.
--
-- The program makes containers for its clients, limits and connects them, saves them when the server
-- stops and restores them when it starts. The parts that are modelled, from the bottom up:
--
-- UidPool        linux_backend/uid_pool/unix_uid_pool.go: user ids
-- PortPool       linux_backend/port_pool/port_pool.go: host ports
-- NetworkPool    linux_backend/network_pool/network_pool.go: /30 networks, one for each container
-- Network        linux_backend/network/network.go: a network and the addresses of its two ends
-- IdPool         the interface of the three pools and its laws, for the clients of a pool
-- ProcessTracker linux_backend/process_tracker/process_tracker.go, and Unlink of process.go
-- Process        linux_backend/process_tracker/process.go: one process and its linker, as a step
--                relation; Spawn and SetTTY
-- Iodaemon       iodaemon/input.go and link.go: what a link sends to the daemon of its process, and how
--                it ends; in its child Spawn the daemon of spawn.go, as a step relation, and in Flags
--                the command line of main.go
-- ProcessStreams linux_backend/process_tracker/fanin_writer.go and fanout_writer.go: the streams
--                between a process and its clients
-- CgroupsManager linux_backend/cgroups_manager/container_cgroups_manager.go
-- QuotaManager   linux_backend/quota_manager/quota_manager.go: SetLimits, and in its child Report
--                GetLimits and GetUsage, with the rows of linux_backend/src/repquota/repquota.c
-- BandwidthManager  linux_backend/bandwidth_manager/bandwidth_manager.go: GetLimits
-- Container      linux_backend/linux_container.go, resources.go, snapshot.go: the state of a
--                container, and in its children Start, Stop and the notifier (Lifecycle), NetIn and
--                NetOut (Net), the limits (Limits), Snapshot and Restore (Snapshots), the
--                parsers of the statistics (Stats), Run and Attach (Run, with the options of
--                linux_backend/src/wsh/wsh.c), Info (Info), StreamIn and StreamOut (Streams)
-- ContainerPool  linux_backend/container_pool/container_pool.go: Setup, and in its children Create,
--                Restore, Destroy with Prune, the ids of new containers (Ids), and the calls of Create,
--                NetIn and Destroy that run at the same time (Interleaved), of which an uninterrupted
--                call is a run (the modules Uninterrupted of Create, Destroy and Container/Net)
-- Backend        linux_backend/linux_backend.go: the table of containers, in its child Snapshots
--                Start and Stop, in Exclusive what the containers hold, and in Restart what the next
--                server restores
-- Server         main.go: the flags, and how the parts are put together
-- RepositoryFetcher  linux_backend/container_pool/repository_fetcher/repository_fetcher.go: the
--                layers of Docker images, and in its child Locks the calls that run at the same time
-- RootfsProviders  the two providers of linux_backend/container_pool/rootfs_provider, and
--                linux_backend/container_pool/repository_fetcher/retryable.go
-- Sysconfig      sysconfig/config.go, sysconfig/runner.go and system_info/provider.go
-- System         the command runner and the operating system, which are a parameter
-- Base, Text, Dict   numbers, lists, results, texts and maps that the others share
-- Examples, and the modules of that name below a part: concrete values
--
-- State is passed on explicitly: a method that may fail is an Exec, a function from a state to a
-- result and a state, so that what was written before an error stays written, as in Go. The pools are
-- shared: a method of a container works on a Host, which is the container, the port pool and the
-- world; the container pool works on Pools, which are the three pools, the world and the number that
-- the generator of ids has come to; the backend adds the table. A pool is reached through the record
-- IdPool; its clients take IdPoolLaws as their hypothesis.
--
-- Each method of a pool, of the tracker and of a container's fields holds a mutex, so a call is one
-- step. Calls of Create, NetIn and Destroy that run at the same time are a step relation on any number
-- of containers, with a step for each use of a pool; two calls of Destroy, or NetIn and Destroy, for
-- one container at the same time are left out, and so are goroutines that only wait for a command. The
-- locks on the layers of images, which calls wait for, are such a relation too, and so is a process,
-- whose linker, waiters and unlinkers meet at channels. A call that never returns is a none.
--
-- Machine integers are native numbers with the wrap written out. A loop that counts up to a sum, or
-- through the networks of a range, has fuel: the end of the range, since the counter grows in each
-- round, and the number of the addresses, since each round takes another one. A map is an
-- association list; a range over it visits its entries in the list's order.
--
-- Not modelled: what the commands do, JSON, the streams of files, sockets and terminals; the
-- vendored packages; of main.go, the server that listens and the signals. The two patterns of the
-- bandwidth manager are matched as what they are, not by an engine for regular expressions.
pub mod Base
pub mod IdPool
pub mod UidPool
pub mod PortPool
pub mod Text
pub mod Network
pub mod NetworkPool
pub mod System
pub mod Process
pub mod ProcessStreams
pub mod ProcessTracker
pub mod BandwidthManager
pub mod CgroupsManager
pub mod Container
pub mod QuotaManager
pub mod ContainerPool
pub mod Dict
pub mod Backend
pub mod Examples
pub mod RepositoryFetcher
pub mod RootfsProviders
pub mod Sysconfig
pub mod Iodaemon
pub mod Server
