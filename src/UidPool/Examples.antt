-- ===== src/UidPool/Examples.antt =====
-- A small pool of user ids in which nothing is free twice.
use warden_linux.Base.{arith, [], ◌∷◌}
use warden_linux.Examples.{uids_left}
use warden_linux.IdPool.{IsSound}
use warden_linux.UidPool.Laws.{uid_pool}

pub two_left-IsSound : IsSound uid_pool (uids_left (10 ∷ 11 ∷ []))
two_left-IsSound = record { once = λ a. ground arith; in_range = λ a free. ground arith }
