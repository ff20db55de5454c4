-- ===== src/BandwidthManager/Printed.antt =====
-- The patterns of linux_backend/bandwidth_manager/bandwidth_manager.go on the lines that tc prints.
use Prim.Native.Char.{Char}
use mathlib.Core.Path.{subst}
use text.Mathlib.TextLemmas.{nil-append, cons-append}
use warden_linux.BandwidthManager.{rate_and_burst, in_rate_pattern, out_rate_pattern}
use warden_linux.BandwidthManager.Patterns.{
  Token, literal, some_hex, some_digits, group_digits, group_unit, is_digit, is_hex, span, unit_of,
  group, match_at, find_submatch,
}
use warden_linux.Base.{ℕ, ◌≡◌, refl, ◌∙◌, sym, String, true, some, List, [], ◌∷◌, arith}
use warden_linux.BandwidthManager.Tokens.{
  span-stops, is_digit-digits, is_hex-digits, match-literal, match-hex, match-digits,
  match-group_digits, all_pass, lacks, find_submatch-lacks,
}
use warden_linux.Text.{◌<>◌, decimal}

-- The units that tc prints, and the factors that the program takes for them.
pub data Scale : Type 0 where
  plain kilo mega giga : Scale

abbrev pub scale_text : Scale → String
scale_text plain = ""
scale_text kilo = "K"
scale_text mega = "M"
scale_text giga = "G"

abbrev pub scale_factor : Scale → ℕ
scale_factor plain = 1
scale_factor kilo = 1024
scale_factor mega = 1026
scale_factor giga = 1027

-- What follows a number: a unit, and then a text that begins with b.
digit-stops :
    (u : Scale) (t s : String)
    → let rest = scale_text u <> String.◌∷◌ "b" t <> s in span is_digit rest ≡ ("", rest)
digit-stops plain t s =
    subst (λ r. span is_digit r ≡ ("", r)) (sym (nil-append (String.◌∷◌ "b" t <> s)))
      (span-stops is_digit is_digit-digits "b" t s refl)
digit-stops kilo t s = span-stops is_digit is_digit-digits "K" "" (String.◌∷◌ "b" t <> s) refl
digit-stops mega t s = span-stops is_digit is_digit-digits "M" "" (String.◌∷◌ "b" t <> s) refl
digit-stops giga t s = span-stops is_digit is_digit-digits "G" "" (String.◌∷◌ "b" t <> s) refl

unit-scale :
    (u : Scale) (t s : String)
    → unit_of (scale_text u <> String.◌∷◌ "b" t <> s) ≡ (scale_text u, String.◌∷◌ "b" t <> s)
unit-scale plain t s = rw (nil-append (String.◌∷◌ "b" t <> s), cons-append "b" t s) refl
unit-scale kilo t s =
    let rest = String.◌∷◌ "b" t <> s in ground (arith, cons-append "K" "" rest, nil-append rest)
unit-scale mega t s =
    let rest = String.◌∷◌ "b" t <> s in ground (arith, cons-append "M" "" rest, nil-append rest)
unit-scale giga t s =
    let rest = String.◌∷◌ "b" t <> s in ground (arith, cons-append "G" "" rest, nil-append rest)

match-group_unit :
    (ts : List Token) (u : Scale) (t s : String) (groups : List String)
    → match_at ts (String.◌∷◌ "b" t <> s) ≡ some groups
    → match_at (group_unit ∷ ts) (scale_text u <> String.◌∷◌ "b" t <> s)
      ≡ some (scale_text u ∷ groups)
unfolding match_at
match-group_unit ts u t s groups m =
    subst (λ run. group (match_at ts) run ≡ some (scale_text u ∷ groups)) (sym (unit-scale u t s))
      (rw (group, m) refl)

-- A rate and a burst, in their units, and what follows them.
pub rates : ℕ → Scale → ℕ → Scale → String → String
rates n u b v rest =
    decimal n <> scale_text u <> "bit burst " <> decimal b <> scale_text v <> "b" <> rest

unfoldable pub groups_of : ℕ → Scale → ℕ → Scale → List String
groups_of n u b v = decimal n ∷ scale_text u ∷ decimal b ∷ scale_text v ∷ []

match-rates :
    (n : ℕ) (u : Scale) (b : ℕ) (v : Scale) (rest : String)
    → match_at rate_and_burst (rates n u b v rest) ≡ some (groups_of n u b v)
unfolding rates groups_of match_at
match-rates n u b v rest =
    let burst = decimal b <> scale_text v <> "b" <> rest in
    let end = match-literal [] "b" rest in
    let burst_unit = match-group_unit (literal "b" ∷ []) v "" rest [] end in
    let burst_digits =
      match-group_digits (group_unit ∷ literal "b" ∷ []) b (scale_text v <> "b" <> rest)
        (scale_text v ∷ []) (digit-stops v "" rest) burst_unit in
    let burst_tokens : List Token = group_digits ∷ group_unit ∷ literal "b" ∷ [] in
    let between = match-literal burst_tokens "bit burst " burst ∙ burst_digits in
    let rate_unit =
      match-group_unit (literal "bit burst " ∷ burst_tokens) u "it burst " burst
        (decimal b ∷ scale_text v ∷ []) between in
    match-group_digits (group_unit ∷ literal "bit burst " ∷ burst_tokens) n
      (scale_text u <> "bit burst " <> burst) (scale_text u ∷ decimal b ∷ scale_text v ∷ [])
      (digit-stops u "it burst " burst) rate_unit

pub find_submatch-match :
    (ts : List Token) (s : String) (groups : List String)
    → match_at ts s ≡ some groups
    → find_submatch ts s ≡ some groups
unfolding find_submatch
find_submatch-match ts String.[] groups m = m
find_submatch-match ts (String.◌∷◌ c s) groups m = rw (find_submatch, m) refl

-- The line of a token bucket, as `tc qdisc show` prints it from its first word on; tc prints handles
-- in hexadecimal digits.
pub tbf_line : String → ℕ → String → String
tbf_line handle count rest =
    "qdisc tbf " <> handle <> ": root refcnt " <> decimal count <> " rate " <> rest

-- The part about policing of what `tc filter show` prints.
pub police_line : String → String → String
police_line index rest = "police 0x" <> index <> " rate " <> rest

module _ (n : ℕ) (u : Scale) (b : ℕ) (v : Scale) (rest : String) (before : String) (c : Char)
    (t : String) (hex : all_pass is_hex (String.◌∷◌ c t) ≡ true) where
  pub find_submatch-tbf_line :
      (count : ℕ)
      → lacks "qdisc tbf " before ≡ true
      → find_submatch in_rate_pattern
          (before <> tbf_line (String.◌∷◌ c t) count (rates n u b v rest))
        ≡ some (groups_of n u b v)
  unfolding in_rate_pattern tbf_line
  find_submatch-tbf_line count none_there =
      let id = String.◌∷◌ c t in
      let line = rates n u b v rest in
      let from_rate : List Token = literal " rate " ∷ rate_and_burst in
      let from_count : List Token = literal ": root refcnt " ∷ some_digits ∷ from_rate in
      let after_id = ": root refcnt " <> decimal count <> " rate " <> line in
      find_submatch-lacks "qdisc tbf " (some_hex ∷ from_count) before (tbf_line id count line)
        none_there
      ∙ find_submatch-match in_rate_pattern (tbf_line id count line) (groups_of n u b v) (
          match-literal (some_hex ∷ from_count) "qdisc tbf " (id <> after_id)
          ∙ match-hex from_count c t after_id hex (
              span-stops is_hex is_hex-digits ":" " root refcnt "
                (decimal count <> " rate " <> line) refl)
          ∙ match-literal (some_digits ∷ from_rate) ": root refcnt "
              (decimal count <> " rate " <> line)
          ∙ match-digits from_rate count (" rate " <> line)
              (span-stops is_digit is_digit-digits " " "rate " line refl)
          ∙ match-literal rate_and_burst " rate " line
          ∙ match-rates n u b v rest)

  pub find_submatch-police_line :
      lacks "police 0x" before ≡ true
      → find_submatch out_rate_pattern (before <> police_line (String.◌∷◌ c t) (rates n u b v rest))
        ≡ some (groups_of n u b v)
  unfolding out_rate_pattern police_line
  find_submatch-police_line none_there =
      let id = String.◌∷◌ c t in
      let line = rates n u b v rest in
      let from_rate : List Token = literal " rate " ∷ rate_and_burst in
      find_submatch-lacks "police 0x" (some_hex ∷ from_rate) before (police_line id line) none_there
      ∙ find_submatch-match out_rate_pattern (police_line id line) (groups_of n u b v) (
          match-literal (some_hex ∷ from_rate) "police 0x" (id <> " rate " <> line)
          ∙ match-hex from_rate c t (" rate " <> line) hex
              (span-stops is_hex is_hex-digits " " "rate " line refl)
          ∙ match-literal rate_and_burst " rate " line
          ∙ match-rates n u b v rest)
