-- ===== src/BandwidthManager.antt =====
-- GetLimits of linux_backend/bandwidth_manager/bandwidth_manager.go; SetLimits stands beside its
-- caller in Container/Limits.antt.
pub mod Patterns
pub mod Tokens
pub mod Printed
pub mod Reported
use warden_linux.BandwidthManager.Patterns.{
  Token, literal, some_hex, some_digits, group_digits, group_unit, find_submatch,
}
use warden_linux.Base.{
  ℕ, ◌*◌, ◌/◌, ◌%◌, String, Option, none, some, Result, ok, err, Exec, ◌>>=◌, pure, List, [], ◌∷◌,
  if◌then◌else◌, u64_mod,
}
use warden_linux.System.{Cmd, Error, System}
use warden_linux.Text.{◌<>◌, ◌===◌, parse_uint, path_join}

-- warden.ContainerBandwidthStat
pub record BandwidthStat : Type 0 where
  pub in_rate : ℕ
  pub in_burst : ℕ
  pub out_rate : ℕ
  pub out_burst : ℕ

-- The part that the two patterns share.
abbrev pub rate_and_burst : List Token
rate_and_burst =
    group_digits ∷ group_unit ∷ literal "bit burst " ∷ group_digits ∷ group_unit ∷ literal "b" ∷ []

unfoldable pub in_rate_pattern : List Token
in_rate_pattern =
    literal "qdisc tbf "
    ∷ some_hex
    ∷ literal ": root refcnt "
    ∷ some_digits
    ∷ literal " rate "
    ∷ rate_and_burst

unfoldable pub out_rate_pattern : List Token
out_rate_pattern = literal "police 0x" ∷ some_hex ∷ literal " rate " ∷ rate_and_burst

-- The factors are those of the source: in Go, `1024 ^ 2` and `1024 ^ 3` are exclusive ors.
pub convert_units : ℕ → String → ℕ
convert_units num unit =
    if unit === "K"
    then num * 1024 % u64_mod
    else if unit === "M"
    then num * 1026 % u64_mod
    else if unit === "G"
    then num * 1027 % u64_mod
    else num

-- strconv.ParseUint with its error
pub parse_number : String → Result Error ℕ
parse_number text = elim (parse_uint text) [ none ↦ err (Error.bad_number text) | some n ↦ ok n ]

-- A rate in bytes and a burst; the first error is returned.
pub rate_from : String → String → Result Error ℕ → Result Error ℕ → Result Error (Option (ℕ × ℕ))
unfolding convert_units
rate_from rate_unit burst_unit (err e) burst = err e
rate_from rate_unit burst_unit (ok r) (err e) = err e
rate_from rate_unit burst_unit (ok r) (ok b) =
    ok (some (convert_units r rate_unit / 8, convert_units b burst_unit))

-- From the groups of a match; none where the text does not match.
unfoldable pub rate_of : Option (List String) → Result Error (Option (ℕ × ℕ))
unfolding rate_from parse_number
rate_of (some (rate ∷ rate_unit ∷ burst ∷ burst_unit ∷ [])) =
    rate_from rate_unit burst_unit (parse_number rate) (parse_number burst)
rate_of _ = ok none

abbrev with_in : Option (ℕ × ℕ) → BandwidthStat → BandwidthStat
with_in none stat = stat
with_in (some (rate, burst)) stat = record stat { in_rate = rate; in_burst = burst }

abbrev with_out : Option (ℕ × ℕ) → BandwidthStat → BandwidthStat
with_out none stat = stat
with_out (some (rate, burst)) stat = record stat { out_rate = rate; out_burst = burst }

pub info_cmd : String → String → String → Cmd
info_cmd container_path container_id what = record {
  path = path_join (container_path ∷ "net.sh" ∷ []);
  args = what ∷ [];
  env = ("ID=" <> container_id) ∷ [];
}

module _ {W : Type 0} (sys : System W) (container_path container_id : String) where
  unfoldable pub get_limits : Exec W Error BandwidthStat
  unfolding info_cmd rate_of in_rate_pattern out_rate_pattern find_submatch
  get_limits = do
    egress ← sys.output (info_cmd container_path container_id "get_egress_info")
    in_limits ← λ w. (rate_of (find_submatch in_rate_pattern egress), w)
    ingress ← sys.output (info_cmd container_path container_id "get_ingress_info")
    out_limits ← λ w. (rate_of (find_submatch out_rate_pattern ingress), w)
    pure (
        with_out out_limits
          (with_in in_limits (record { in_rate = 0; in_burst = 0; out_rate = 0; out_burst = 0 })))
