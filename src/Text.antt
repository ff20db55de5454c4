-- ===== src/Text.antt =====
-- What the program uses of Go's strings: concatenation, `path.Join`, `%d` and `strconv.ParseUint`.
-- Text is the native `String`; the program's texts are ASCII. `path.Join` also rewrites `.`, `..`
-- and repeated slashes inside its parts; the parts that the program joins are taken to have none.
pub mod Decimal
pub mod Paths
use Prim.Native.Char.{Char, code}
use Prim.Native.String.{◌++◌ as append}
use text.Mathlib.Text
use warden_linux.Base.{
  ℕ, ℤ, pos, negsuc, zero, suc, ◌+◌, ◌-◌, ◌*◌, ◌/◌, ◌%◌, ◌&&◌, Bool, Option, none, some, List, [],
  ◌∷◌, ◌++◌, String, ltb, leb, ◌==◌, if◌then◌else◌, u64_mod,
}

infixr 66 ◌<>◌
abbrev pub ◌<>◌ : String → String → String
s <> t = append s t

infix 50 ◌===◌
abbrev pub ◌===◌ : String → String → Bool
s === t = Text.◌==◌ s t

-- strings.Join
unfoldable pub join_with : String → List String → String
join_with sep [] = ""
join_with sep (s ∷ []) = s
join_with sep (s ∷ t ∷ rest) = s <> sep <> join_with sep (t ∷ rest)

abbrev add_char : Char → List String → List String
add_char c [] = String.◌∷◌ c "" ∷ []
add_char c (s ∷ rest) = String.◌∷◌ c s ∷ rest

-- strings.Split, by one character
unfoldable pub split_on : ℕ → String → List String
split_on sep String.[] = "" ∷ []
split_on sep (String.◌∷◌ c s) =
    let more = split_on sep s in if code c == sep then "" ∷ more else add_char c more

without_empty : List String → List String
without_empty [] = []
without_empty (s ∷ rest) = if s === "" then without_empty rest else s ∷ without_empty rest

-- path.Join
unfoldable pub path_join : List String → String
unfolding join_with without_empty
path_join parts = join_with "/" (without_empty parts)

abbrev digit_char : ℕ → Char
digit_char zero = "0"
digit_char (suc zero) = "1"
digit_char (suc (suc zero)) = "2"
digit_char (suc (suc (suc zero))) = "3"
digit_char (suc (suc (suc (suc zero)))) = "4"
digit_char (suc (suc (suc (suc (suc zero))))) = "5"
digit_char (suc (suc (suc (suc (suc (suc zero)))))) = "6"
digit_char (suc (suc (suc (suc (suc (suc (suc zero))))))) = "7"
digit_char (suc (suc (suc (suc (suc (suc (suc (suc zero)))))))) = "8"
digit_char _ = "9"

-- The decimal digits of `n`, most significant first; `n` rounds are enough.
digits : ℕ → ℕ → List ℕ
digits zero n = n ∷ []
digits (suc fuel) n =
    let more = digits fuel (n / 10) ++ (n % 10) ∷ [] in if ltb n 10 then n ∷ [] else more

text_of : List ℕ → String
text_of [] = ""
text_of (d ∷ ds) = String.◌∷◌ (digit_char d) (text_of ds)

-- fmt.Sprintf("%d", n)
pub decimal : ℕ → String
unfolding digits text_of
decimal n = text_of (digits n n)

-- fmt.Sprintf("%d", n) for an int
unfoldable pub decimal_int : ℤ → String
decimal_int (pos n) = decimal n
decimal_int (negsuc n) = "-" <> decimal (suc n)

parse_digits : ℕ → String → Option ℕ
parse_digits n String.[] = some n
parse_digits n (String.◌∷◌ c rest) =
    let c' = code c in
    let n' = n * 10 + (c' - 48) in
    let more = parse_digits n' rest in
    if leb 48 c' && leb c' 57 then (if ltb n' u64_mod then more else none) else none

-- strconv.ParseUint(s, 10, 0) on a 64-bit machine; `none` is an error.
pub parse_uint : String → Option ℕ
unfolding parse_digits
parse_uint String.[] = none
parse_uint (String.◌∷◌ c rest) = parse_digits 0 (String.◌∷◌ c rest)
