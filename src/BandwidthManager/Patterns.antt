-- ===== src/BandwidthManager/Patterns.antt =====
-- FindStringSubmatch of Go's regexp on the patterns of
-- linux_backend/bandwidth_manager/bandwidth_manager.go. In these no part can end at two places, since
-- what follows a run of digits is no digit, and what follows a unit is no unit: a match takes the
-- longest run and never turns back.
use Prim.Native.Char.{Char, code}
use warden_linux.Base.{
  Bool, ◌&&◌, ◌||◌, leb, ◌==◌, List, [], ◌∷◌, String, Option, none, some, if◌then◌else◌,
}

-- A text; `[0-9a-f]+`; `\d+`; `(\d+)`; `([KMG]?)`.
pub data Token : Type 0 where
  literal : String → Token
  some_hex some_digits group_digits group_unit : Token

abbrev pub is_digit : Char → Bool
is_digit c = leb 48 (code c) && leb (code c) 57

abbrev pub is_hex : Char → Bool
is_hex c = is_digit c || (leb 97 (code c) && leb (code c) 102)

abbrev pub is_unit : Char → Bool
is_unit c = code c == 75 || (code c == 77 || code c == 71)

abbrev prepend : Char → String × String → String × String
prepend c (taken, rest) = (String.◌∷◌ c taken, rest)

-- The longest run of characters that pass a test, and the rest.
unfoldable pub span : (Char → Bool) → String → String × String
span test String.[] = ("", "")
span test (String.◌∷◌ c s) =
    let more = span test s in if test c then prepend c more else ("", String.◌∷◌ c s)

unfoldable pub strip_prefix : String → String → Option String
strip_prefix String.[] s = some s
strip_prefix (String.◌∷◌ c p) String.[] = none
strip_prefix (String.◌∷◌ c p) (String.◌∷◌ d s) =
    let more = strip_prefix p s in if code c == code d then more else none

abbrev pub non_empty : String × String → Option (String × String)
non_empty (String.[], rest) = none
non_empty (String.◌∷◌ c taken, rest) = some (String.◌∷◌ c taken, rest)

-- `[KMG]?`: at most one character.
abbrev pub unit_of : String → String × String
unit_of String.[] = ("", "")
unit_of (String.◌∷◌ c s) = if is_unit c then (String.◌∷◌ c "", s) else ("", String.◌∷◌ c s)

module _ (rest_of : String → Option (List String)) where
  abbrev pub skip : Option String → Option (List String)
  skip none = none
  skip (some s) = rest_of s

  abbrev pub skip_run : Option (String × String) → Option (List String)
  skip_run none = none
  skip_run (some (taken, s)) = rest_of s

  abbrev pub group : String × String → Option (List String)
  group (taken, s) = elim (rest_of s) [ none ↦ none | some groups ↦ some (taken ∷ groups) ]

  abbrev pub group_run : Option (String × String) → Option (List String)
  group_run none = none
  group_run (some run) = group run

-- A match that begins at the first character: its groups.
unfoldable pub match_at : List Token → String → Option (List String)
unfolding span strip_prefix
match_at [] s = some []
match_at (literal text ∷ ts) s = skip (match_at ts) (strip_prefix text s)
match_at (some_hex ∷ ts) s = skip_run (match_at ts) (non_empty (span is_hex s))
match_at (some_digits ∷ ts) s = skip_run (match_at ts) (non_empty (span is_digit s))
match_at (group_digits ∷ ts) s = group_run (match_at ts) (non_empty (span is_digit s))
match_at (group_unit ∷ ts) s = group (match_at ts) (unit_of s)

-- The groups of the leftmost match.
unfoldable pub find_submatch : List Token → String → Option (List String)
unfolding match_at
find_submatch ts String.[] = match_at ts String.[]
find_submatch ts (String.◌∷◌ c s) =
    let later = find_submatch ts s in
    elim (match_at ts (String.◌∷◌ c s)) [ none ↦ later | some groups ↦ some groups ]
