-- ===== src/Backend/Registry.antt =====
-- What Lookup finds after Create and after Destroy.
use text.Mathlib.TextEquality.{eq_iff}
use warden_linux.Backend.{Backend, register, lookup, create, destroy}
use warden_linux.Base.{
  ◌≡◌, inl, inr, String, some, ok, err, Result-cases, Option-cases, arith, if◌then◌else◌,
}
use warden_linux.Container.Lifecycle.Keeps.{start_ok}
use warden_linux.Container.{Container, Host, state_active}
use warden_linux.ContainerPool.Create
use warden_linux.ContainerPool.{Config, ContainerSpec}
use warden_linux.Dict.{find, find-put, find-delete}
use warden_linux.System.{Error}
use warden_linux.Text.{◌===◌}

module _ {U N P W : Type 0} (config : Config U N P W) where
  -- After a Create that returns a container, the container is active, Lookup of its handle returns
  -- it, and Lookup of any other handle returns what it did before.
  pub lookup-create :
      (spec : ContainerSpec) (b : Backend U N P W) (c : Container) (handle : String)
      → (create config spec b).0 ≡ ok c
      → (c.state ≡ state_active)
        × ((lookup handle (create config spec b).1).0
            ≡ (if c.handle === handle then ok c else (lookup handle b).0))
  unfolding create register lookup
  lookup-create spec b c handle returned =
      elim (Result-cases (Create.create config spec b.pools).0) [
        | inr (e, failed) ↦ ground (arith, failed)
        | inl (made, created) ↦
            (let s = (Create.create config spec b.pools).1 in
              let h : Host P W = record {
                container = made;
                port_pool = s.port_pool;
                world = s.world;
              } in
              ground
                (arith, created, start_ok config.sys h, find-put c.handle handle c b.containers))
      ]

  -- A Create that fails, of the container or of its start, changes what no Lookup returns.
  pub lookup-create_err :
      (spec : ContainerSpec) (b : Backend U N P W) (e : Error) (handle : String)
      → (create config spec b).0 ≡ err e
      → (lookup handle (create config spec b).1).0 ≡ (lookup handle b).0
  unfolding create register lookup
  lookup-create_err spec b e handle failed = ground arith

  -- Where the container of a handle bears it, and is destroyed: Lookup of the handle fails from then
  -- on, with an error that names it, and Lookup of any other handle returns what it did before.
  pub lookup-destroy :
      (handle other : String) (b : Backend U N P W) (c : Container)
      → find handle b.containers ≡ some c
      → c.handle ≡ handle
      → (destroy config handle b).0 ≡ ok tt
      → (lookup other (destroy config handle b).1).0
        ≡ (if handle === other then err (Error.unknown_handle handle) else (lookup other b).0)
  unfolding destroy lookup
  lookup-destroy handle other b c found named done =
      ground (arith, found, named, eq_iff handle other, find-delete c.handle other b.containers)

  -- A Destroy that fails, because the handle is unknown or because the container cannot be
  -- destroyed, leaves the table as it is: the container can be looked up, and destroyed, again.
  pub destroy_err_keeps :
      (handle : String) (b : Backend U N P W) (e : Error)
      → (destroy config handle b).0 ≡ err e
      → (destroy config handle b).1.containers ≡ b.containers
  unfolding destroy lookup
  destroy_err_keeps handle b e failed = elim (Option-cases (find handle b.containers)) [
    | inl absent ↦ ground (arith, absent)
    | inr (c, found) ↦ ground (arith, found)
  ]
