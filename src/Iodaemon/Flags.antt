-- ===== src/Iodaemon/Flags.antt =====
-- iodaemon/main.go: its flags, as Go's package flag reads them, and what it does with the arguments
-- behind them. A duration, which the program reads and never uses, is kept as its text, whose form a
-- parameter tells.
pub mod Tokens
pub mod CommandLines
pub mod Examples
use Prim.Native.Char.{code}
use warden_linux.Base.{
  ℕ, zero, suc, ℤ, pos, negsuc, ◌+◌, ◌-◌, ◌*◌, ◌^◌, ◌&&◌, ◌||◌, Bool, true, false, List, [], ◌∷◌,
  String, Option, none, some, ltb, leb, ◌==◌, if◌then◌else◌,
}
use warden_linux.Text.{◌===◌}

pub record Flags : Type 0 where
  pub timeout : String
  pub tty : Bool
  pub window_columns : ℤ
  pub window_rows : ℤ

abbrev pub defaults : Flags
defaults = record { timeout = "10s"; tty = false; window_columns = pos 80; window_rows = pos 24 }

digit_value : ℕ → ℕ
digit_value c =
    if leb 48 c && leb c 57
    then c - 48
    else if leb 97 c && leb c 122
    then c - 87
    else if leb 65 c && leb c 90
    then c - 55
    else 36

pub parse_digits : ℕ → ℕ → ℕ → String → Option ℕ
unfolding digit_value
parse_digits base bound n String.[] = some n
parse_digits base bound n (String.◌∷◌ c s) =
    let d = digit_value (code c) in
    let n' = n * base + d in
    let more = parse_digits base bound n' s in if ltb d base && ltb n' bound then more else none

parse_some : ℕ → ℕ → String → Option ℕ
unfolding parse_digits
parse_some base bound String.[] = none
parse_some base bound (String.◌∷◌ c s) = parse_digits base bound 0 (String.◌∷◌ c s)

-- Behind a zero at the beginning.
abbrev parse_zero : ℕ → String → Option ℕ
parse_zero bound String.[] = some 0
parse_zero bound (String.◌∷◌ c s) =
    if code c == 120 || code c == 88
    then parse_some 16 bound s
    else parse_some 8 bound (String.◌∷◌ c s)

pub parse_magnitude : ℕ → String → Option ℕ
unfolding parse_some
parse_magnitude bound String.[] = none
parse_magnitude bound (String.◌∷◌ c s) =
    if code c == 48 then parse_zero bound s else parse_some 10 bound (String.◌∷◌ c s)

abbrev pub negated : Option ℕ → Option ℤ
negated none = none
negated (some zero) = some (pos 0)
negated (some (suc n)) = some (negsuc n)

abbrev pub positive : Option ℕ → Option ℤ
positive none = none
positive (some n) = some (pos n)

-- strconv.ParseInt(s, 0, 64)
pub parse_int : String → Option ℤ
unfolding parse_magnitude
parse_int String.[] = none
parse_int (String.◌∷◌ c s) =
    if code c == 45
    then negated (parse_magnitude (2 ^ 63 + 1) s)
    else if code c == 43
    then positive (parse_magnitude (2 ^ 63) s)
    else positive (parse_magnitude (2 ^ 63) (String.◌∷◌ c s))

-- strconv.ParseBool
pub parse_bool : String → Option Bool
parse_bool s =
    if s === "1" || s === "t" || s === "T" || s === "true" || s === "TRUE" || s === "True"
    then some true
    else if s === "0" || s === "f" || s === "F" || s === "false" || s === "FALSE" || s === "False"
    then some false
    else none

abbrev cons_name : String → String × Option String → String × Option String
cons_name c (name, value) = (c, value)

-- A name, and the value behind the first `=` that is not its first character.
pub split_value : String → String × Option String
split_value String.[] = ("", none)
split_value (String.◌∷◌ c s) =
    let more = split_value s in if code c == 61 then ("", some s) else (String.◌∷◌ c more.0, more.1)

-- What an argument is to the parser: not a flag, the end of the flags, no flag that can be, or a flag
-- with the value written behind it.
pub data Token : Type 0 where
  plain terminator malformed : Token
  flag : String → Option String → Token

abbrev name_of : String → Token
name_of String.[] = malformed
name_of (String.◌∷◌ c s) =
    if code c == 45 || code c == 61
    then malformed
    else flag (String.◌∷◌ c (split_value s).0) (split_value s).1

abbrev behind_dash : String → Token
behind_dash String.[] = plain
behind_dash (String.◌∷◌ c s) =
    if code c == 45 then (if s === "" then terminator else name_of s) else name_of (String.◌∷◌ c s)

pub token : String → Token
unfolding split_value
token String.[] = plain
token (String.◌∷◌ c s) = if code c == 45 then behind_dash s else plain

abbrev pub set_tty : Flags → Option Bool → Option Flags
set_tty f none = none
set_tty f (some tty) = some (record f { tty = tty })

abbrev pub set_columns : Flags → Option ℤ → Option Flags
set_columns f none = none
set_columns f (some n) = some (record f { window_columns = n })

abbrev pub set_rows : Flags → Option ℤ → Option Flags
set_rows f none = none
set_rows f (some n) = some (record f { window_rows = n })

-- What main does.
pub data Invocation : Type 0 where
  spawns : (socket path : String) (argv : List String) → Flags → Invocation
  links : (socket : String) → Invocation
  usage : Invocation
  -- The package flag exits with 2.
  bad_flags : Invocation
  -- `args[0]` is out of range.
  panics : Invocation

-- The switch on the arguments behind the flags.
pub dispatch : Flags → List String → Invocation
dispatch f [] = panics
dispatch f (command ∷ []) = usage
dispatch f (command ∷ socket ∷ []) = if command === "link" then links socket else usage
dispatch f (command ∷ socket ∷ path ∷ args) =
    if command === "spawn"
    then spawns socket path (path ∷ args) f
    else if command === "link"
    then links socket
    else usage

module _ (is_duration : String → Bool) where
  -- Set of a flag that takes a value. It is none for a name that is not one or a value it cannot have.
  unfoldable pub set_flag : String → String → Flags → Option Flags
  unfolding parse_int
  set_flag name value f =
      if name === "timeout"
      then (if is_duration value then some (record f { timeout = value }) else none)
      else if name === "windowColumns"
      then set_columns f (parse_int value)
      else if name === "windowRows"
      then set_rows f (parse_int value)
      else none

  abbrev pub set_bool : Flags → Option String → Option Flags
  set_bool f none = some (record f { tty = true })
  set_bool f (some value) = set_tty f (parse_bool value)

  abbrev pub continue : (Flags → Invocation) → Option Flags → Invocation
  continue next none = bad_flags
  continue next (some f) = next f

  -- A flag and what follows it: the value of one that is not Boolean may be the next argument.
  abbrev pub on_flag :
      (Flags → Invocation)
      → (Option (String × (Flags → Invocation)))
      → String
      → Option String
      → Flags
      → Invocation
  on_flag next skip name value f =
      if name === "tty" then continue next (set_bool f value) else elim value [
        | some v ↦ continue next (set_flag name v f)
        | none ↦ elim skip [
          | none ↦ bad_flags
          | some (v, after) ↦ continue after (set_flag name v f)
        ]
      ]

  -- flag.Parse, and the switch.
  unfoldable pub run : List String → Flags → Invocation
  unfolding token set_flag dispatch
  run [] f = dispatch f []
  run (s ∷ []) f = elim (token s) [
    | plain ↦ dispatch f (s ∷ [])
    | terminator ↦ dispatch f []
    | malformed ↦ bad_flags
    | flag name value ↦ on_flag (λ g. run [] g) none name value f
  ]
  run (s ∷ v ∷ rest) f = elim (token s) [
    | plain ↦ dispatch f (s ∷ v ∷ rest)
    | terminator ↦ dispatch f (v ∷ rest)
    | malformed ↦ bad_flags
    | flag name value ↦ on_flag (λ g. run (v ∷ rest) g) (some (v, λ g. run rest g)) name value f
  ]

  unfoldable pub main : List String → Invocation
  main args = run args defaults
