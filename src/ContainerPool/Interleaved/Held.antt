-- ===== src/ContainerPool/Interleaved/Held.antt =====
-- What the calls of container_pool.go that run at the same time hold.
use warden_linux.Base.{
  ℕ, ◌+◌, ◌≡◌, refl, sym, zero, suc, List, [], ◌∷◌, ◌++◌, count, arith, if◌then◌else◌,
}
use warden_linux.ContainerPool.Interleaved.{
  Phase, idle, with_uid, refused, making, made, lost, emptying, undoing, without_uid, idles,
}
use warden_linux.ContainerPool.{Config, Pools}
use warden_linux.IdPool.Accounted.{Accounted, Accounted-same}
use warden_linux.Network.{Network}

-- How often the calls hold something, by how often one in a phase does.
abbrev pub total : (Phase → ℕ) → List Phase → ℕ
total f [] = 0
total f (ph ∷ calls) = f ph + total f calls

pub total-at :
    (f : Phase → ℕ) (ph : Phase) (front back : List Phase)
    → total f (front ++ ph ∷ back) ≡ f ph + total f (front ++ back)
total-at f ph [] back = refl
total-at f ph (x ∷ front) back = omega (arith, total-at f ph front back)

module _ {U N P W : Type 0} (config : Config U N P W) where
  abbrev one_uid : ℕ → ℕ → ℕ
  one_uid held uid = if config.uids.same held uid then 1 else 0

  abbrev one_network : Network → Network → ℕ
  one_network held network = if config.networks.same held network then 1 else 0

  abbrev pub holds_uid : ℕ → Phase → ℕ
  holds_uid uid idle = 0
  holds_uid uid (with_uid u) = one_uid u uid
  holds_uid uid (refused u) = one_uid u uid
  holds_uid uid (making u n) = one_uid u uid
  holds_uid uid (made u n ps) = one_uid u uid
  holds_uid uid (lost u n ps) = one_uid u uid
  holds_uid uid (emptying u n ps) = one_uid u uid
  holds_uid uid (undoing u n) = one_uid u uid
  holds_uid uid (without_uid n) = 0

  abbrev pub holds_network : Network → Phase → ℕ
  holds_network network idle = 0
  holds_network network (with_uid u) = 0
  holds_network network (refused u) = 0
  holds_network network (making u n) = one_network n network
  holds_network network (made u n ps) = one_network n network
  holds_network network (lost u n ps) = one_network n network
  holds_network network (emptying u n ps) = one_network n network
  holds_network network (undoing u n) = one_network n network
  holds_network network (without_uid n) = one_network n network

  abbrev pub holds_port : ℕ → Phase → ℕ
  holds_port port (made u n ps) = count config.ports.same port ps
  holds_port port (lost u n ps) = count config.ports.same port ps
  holds_port port (emptying u n ps) = count config.ports.same port ps
  holds_port port _ = 0

module _ {U N P W : Type 0} (config : Config U N P W) (start : Pools U N P W) where
  -- A user id, a network or a port is free or held by the calls as often as it was free at the start.
  pub record Inv (s : Pools U N P W) (calls : List Phase) : Type 0 where
    pub uids :
        Accounted config.uids start.uid_pool s.uid_pool (λ uid. total (holds_uid config uid) calls)
    pub networks :
        Accounted config.networks start.network_pool s.network_pool
          (λ n. total (holds_network config n) calls)
    pub ports :
        Accounted config.ports start.port_pool s.port_pool
          (λ port. total (holds_port config port) calls)

  -- The same for one call in a phase, beside what the others hold.
  pub record Beside (uids : ℕ → ℕ) (networks : Network → ℕ) (ports : ℕ → ℕ) (s : Pools U N P W)
      (ph : Phase) : Type 0 where
    pub uids_apart :
        Accounted config.uids start.uid_pool s.uid_pool (λ uid. holds_uid config uid ph + uids uid)
    pub networks_apart :
        Accounted config.networks start.network_pool s.network_pool
          (λ n. holds_network config n ph + networks n)
    pub ports_apart :
        Accounted config.ports start.port_pool s.port_pool
          (λ port. holds_port config port ph + ports port)

  -- One call beside the others, which are those in front of it and those behind.
  pub Inv-Beside :
      (front back : List Phase) (ph : Phase) (s : Pools U N P W)
      → Inv s (front ++ ph ∷ back)
      → Beside
          (λ u. total (holds_uid config u) (front ++ back))
          (λ n. total (holds_network config n) (front ++ back))
          (λ p. total (holds_port config p) (front ++ back))
          s
          ph
  Inv-Beside front back ph s v = record {
    uids_apart =
        Accounted-same config.uids start.uid_pool s.uid_pool s.uid_pool
          (λ u. total (holds_uid config u) (front ++ ph ∷ back))
          (λ u. holds_uid config u ph + total (holds_uid config u) (front ++ back)) v.uids refl
          (λ u. sym (total-at (holds_uid config u) ph front back));
    networks_apart =
        Accounted-same config.networks start.network_pool s.network_pool s.network_pool
          (λ n. total (holds_network config n) (front ++ ph ∷ back))
          (λ n. holds_network config n ph + total (holds_network config n) (front ++ back))
          v.networks refl (λ n. sym (total-at (holds_network config n) ph front back));
    ports_apart =
        Accounted-same config.ports start.port_pool s.port_pool s.port_pool
          (λ p. total (holds_port config p) (front ++ ph ∷ back))
          (λ p. holds_port config p ph + total (holds_port config p) (front ++ back)) v.ports refl
          (λ p. sym (total-at (holds_port config p) ph front back));
  }

  pub Beside-Inv :
      (front back : List Phase) (ph : Phase) (s : Pools U N P W)
      → Beside
          (λ u. total (holds_uid config u) (front ++ back))
          (λ n. total (holds_network config n) (front ++ back))
          (λ p. total (holds_port config p) (front ++ back))
          s
          ph
      → Inv s (front ++ ph ∷ back)
  Beside-Inv front back ph s v = record {
    uids =
        Accounted-same config.uids start.uid_pool s.uid_pool s.uid_pool
          (λ u. holds_uid config u ph + total (holds_uid config u) (front ++ back))
          (λ u. total (holds_uid config u) (front ++ ph ∷ back)) v.uids_apart refl
          (λ u. total-at (holds_uid config u) ph front back);
    networks =
        Accounted-same config.networks start.network_pool s.network_pool s.network_pool
          (λ n. holds_network config n ph + total (holds_network config n) (front ++ back))
          (λ n. total (holds_network config n) (front ++ ph ∷ back)) v.networks_apart refl
          (λ n. total-at (holds_network config n) ph front back);
    ports =
        Accounted-same config.ports start.port_pool s.port_pool s.port_pool
          (λ p. holds_port config p ph + total (holds_port config p) (front ++ back))
          (λ p. total (holds_port config p) (front ++ ph ∷ back)) v.ports_apart refl
          (λ p. total-at (holds_port config p) ph front back);
  }

total-idles : (f : Phase → ℕ) (n : ℕ) → f idle ≡ 0 → total f (idles n) ≡ 0
total-idles f zero none = refl
total-idles f (suc n) none = omega (arith, total-idles f n none)

module _ {U N P W : Type 0} (config : Config U N P W) where
  pub idles-Inv : (s : Pools U N P W) (n : ℕ) → Inv config s s (idles n)
  idles-Inv s n = record {
    uids = record {
      accounted = λ u. omega (arith, total-idles (holds_uid config u) n refl);
      same_range = λ u. refl;
    };
    networks = record {
      accounted = λ b. omega (arith, total-idles (holds_network config b) n refl);
      same_range = λ b. refl;
    };
    ports = record {
      accounted = λ p. omega (arith, total-idles (holds_port config p) n refl);
      same_range = λ p. refl;
    };
  }
