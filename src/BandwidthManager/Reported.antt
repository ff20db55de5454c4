-- ===== src/BandwidthManager/Reported.antt =====
-- GetLimits of linux_backend/bandwidth_manager/bandwidth_manager.go where tc prints what it was asked.
pub mod Examples
use Prim.Native.Char.{Char}
use warden_linux.BandwidthManager.Patterns.{is_hex}
use warden_linux.BandwidthManager.Tokens.{all_pass, lacks}
use warden_linux.BandwidthManager.Printed.{
  Scale, plain, kilo, mega, giga, scale_text, scale_factor, rates, groups_of, tbf_line, police_line,
  find_submatch-tbf_line, find_submatch-police_line,
}
use warden_linux.BandwidthManager.{
  convert_units, parse_number, rate_from, rate_of, info_cmd, get_limits,
}
use warden_linux.Base.{
  ℕ, ◌*◌, ◌/◌, ◌%◌, ◌<◌, ◌≡◌, refl, ap, ◌∙◌, String, true, some, ok, List, u64_mod, arith,
}
use warden_linux.System.{Error, System}
use warden_linux.Text.Decimal.{parse_uint-decimal}
use warden_linux.Text.{◌<>◌, decimal}

abbrev pub scaled : ℕ → Scale → ℕ
scaled n u = n * scale_factor u % u64_mod

convert_units-scale :
    (n : ℕ) (u : Scale) → n < u64_mod → convert_units n (scale_text u) ≡ scaled n u
unfolding convert_units
convert_units-scale n plain h = omega arith
convert_units-scale n kilo h = refl
convert_units-scale n mega h = refl
convert_units-scale n giga h = refl

parse_number-decimal : (n : ℕ) → n < u64_mod → parse_number (decimal n) ≡ ok n
unfolding parse_number
parse_number-decimal n h = rw (parse_number, parse_uint-decimal n h) refl

rate_of-groups :
    (n : ℕ) (u : Scale) (b : ℕ) (v : Scale)
    → n < u64_mod
    → b < u64_mod
    → rate_of (some (groups_of n u b v)) ≡ ok (some (scaled n u / 8, scaled b v))
unfolding rate_of rate_from groups_of
rate_of-groups n u b v h k =
    ap (λ r. rate_from (scale_text u) (scale_text v) r (parse_number (decimal b)))
      (parse_number-decimal n h)
    ∙ ap (rate_from (scale_text u) (scale_text v) (ok n)) (parse_number-decimal b k)
    ∙ ap (λ r. ok (some (r / 8, convert_units b (scale_text v)))) (convert_units-scale n u h)
    ∙ ap (λ r. ok (some (scaled n u / 8, r))) (convert_units-scale b v k)

-- What tc prints of a limit: a number in hexadecimal digits, the first of which is c, and then a rate
-- in bits and a burst, each with its unit; and the texts before and behind.
pub record Shown : Type 0 where
  pub before : String
  pub first_digit : Char
  pub digits : String
  pub rate : ℕ
  pub rate_unit : Scale
  pub burst : ℕ
  pub burst_unit : Scale
  pub behind : String

abbrev pub number : Shown → String
number s = String.◌∷◌ s.first_digit s.digits

abbrev pub shown : Shown → String
shown s = rates s.rate s.rate_unit s.burst s.burst_unit s.behind

-- What is before does not have these words, and the numbers fit 64 bits.
pub record Fits (words : String) (s : Shown) : Type 0 where
  pub words_first : lacks words s.before ≡ true
  pub is_hexadecimal : all_pass is_hex (number s) ≡ true
  pub rate_fits : s.rate < u64_mod
  pub burst_fits : s.burst < u64_mod

-- Where net.sh prints a token bucket for the one direction and a policing filter for the other, each
-- behind any text without the words that the pattern begins with, and before any text, with any
-- hexadecimal handle and index, numbers below 2 ^ 64 and units: GetLimits returns the two rates,
-- divided by eight, and the two bursts, each times the factor of its unit, which is 1024 for K, but
-- 1026 for M and 1027 for G.
pub get_limits-shown :
    {W : Type 0} (sys : System W) (path id : String) (w egress ingress : W) (count : ℕ)
    (incoming outgoing : Shown)
    → sys.output (info_cmd path id "get_egress_info") w
      ≡ (ok (incoming.before <> tbf_line (number incoming) count (shown incoming)), egress)
    → sys.output (info_cmd path id "get_ingress_info") egress
      ≡ (ok (outgoing.before <> police_line (number outgoing) (shown outgoing)), ingress)
    → Fits "qdisc tbf " incoming
    → Fits "police 0x" outgoing
    → get_limits sys path id w ≡ (
      ok (record {
        in_rate = scaled incoming.rate incoming.rate_unit / 8;
        in_burst = scaled incoming.burst incoming.burst_unit;
        out_rate = scaled outgoing.rate outgoing.rate_unit / 8;
        out_burst = scaled outgoing.burst outgoing.burst_unit;
      }),
      ingress,
    )
unfolding get_limits
get_limits-shown sys path id w egress ingress count i o p q f g = rw (
  p,
  find_submatch-tbf_line i.rate i.rate_unit i.burst i.burst_unit i.behind i.before i.first_digit
      i.digits f.is_hexadecimal count f.words_first,
  rate_of-groups i.rate i.rate_unit i.burst i.burst_unit f.rate_fits f.burst_fits,
  q,
  find_submatch-police_line o.rate o.rate_unit o.burst o.burst_unit o.behind o.before o.first_digit
      o.digits g.is_hexadecimal g.words_first,
  rate_of-groups o.rate o.rate_unit o.burst o.burst_unit g.rate_fits g.burst_fits,
)
