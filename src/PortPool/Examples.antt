-- ===== src/PortPool/Examples.antt =====
-- A small pool of ports in which nothing is free twice.
use warden_linux.Base.{arith, [], ◌∷◌}
use warden_linux.Examples.{ports_left}
use warden_linux.IdPool.{IsSound}
use warden_linux.PortPool.Laws.{port_pool}

pub one_left-IsSound : IsSound port_pool (ports_left (61000 ∷ []))
one_left-IsSound = record { once = λ a. ground arith; in_range = λ a free. ground arith }
