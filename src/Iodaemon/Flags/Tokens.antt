-- ===== src/Iodaemon/Flags/Tokens.antt =====
-- The tokens and numbers that iodaemon/main.go finds in flags with a value.
use Prim.Native.Char.{Char, code}
use mathlib.Core.Path.{subst}
use text.Mathlib.TextLemmas.{nil-append, cons-append}
use warden_linux.Base.{
  ◌≡◌, refl, ap, ◌∙◌, ℕ, zero, suc, ℤ, pos, negsuc, ◌+◌, ◌-◌, ◌*◌, ◌^◌, ◌<◌, ◌≤◌, Bool, true, false,
  String, some, ◌==◌, if◌then◌else◌, arith,
}
use warden_linux.Iodaemon.Flags.{
  flag, positive, negated, token, parse_int, parse_magnitude, parse_digits, split_value,
}
use warden_linux.Text.{◌<>◌, decimal, decimal_int}
use warden_linux.Text.Decimal.{Spells, Spells-decimal, decimal-zero, decimal-head}

parse_digits-Spells :
    (bound acc n : ℕ) (s : String)
    → Spells acc n s
    → n < bound
    → (acc ≤ n) × (parse_digits 10 bound acc s ≡ some n)
unfolding parse_digits
parse_digits-Spells bound acc n String.[] h b = ground arith
parse_digits-Spells bound acc n (String.◌∷◌ c s) h b =
    ground (arith, parse_digits-Spells bound (acc * 10 + (code c - 48)) n s h.2 b)

parse_magnitude-Spells :
    (bound n : ℕ) (c : Char) (s : String)
    → Spells 0 n (String.◌∷◌ c s)
    → 49 ≤ code c
    → n < bound
    → parse_magnitude bound (String.◌∷◌ c s) ≡ some n
unfolding parse_magnitude
parse_magnitude-Spells bound n c s h l b =
    ground (arith, parse_digits-Spells bound 0 n (String.◌∷◌ c s) h b)

parse_int-digit :
    (c : Char) (s : String)
    → 49 ≤ code c
    → parse_int (String.◌∷◌ c s) ≡ positive (parse_magnitude (2 ^ 63) (String.◌∷◌ c s))
unfolding parse_int
parse_int-digit c s l = ground arith

parse_int-decimal : (n : ℕ) → n < 2 ^ 63 → parse_int (decimal n) ≡ some (pos n)
unfolding parse_int parse_magnitude
parse_int-decimal zero b = ap parse_int decimal-zero
parse_int-decimal (suc k) b =
    let (c, s, e, l) = decimal-head (suc k) (omega arith) in
    ap parse_int e
    ∙ parse_int-digit c s l
    ∙ ap positive (
        parse_magnitude-Spells (2 ^ 63) (suc k) c s
          (subst (Spells 0 (suc k)) e (Spells-decimal (suc k))) l b)

parse_int-minus : (s : String) → parse_int ("-" <> s) ≡ negated (parse_magnitude (2 ^ 63 + 1) s)
unfolding parse_int
parse_int-minus s = ground (arith, cons-append "-" "" s, nil-append s)

-- An int of 64 bits.
abbrev pub IsInt : ℤ → Type 0
IsInt (pos n) = n < 2 ^ 63
IsInt (negsuc n) = n < 2 ^ 63

pub parse_int-decimal_int : (n : ℤ) → IsInt n → parse_int (decimal_int n) ≡ some n
unfolding decimal_int
parse_int-decimal_int (pos n) b = parse_int-decimal n b
parse_int-decimal_int (negsuc k) b =
    let (c, s, e, l) = decimal-head (suc k) (omega arith) in
    parse_int-minus (decimal (suc k))
    ∙ ap (λ t. negated (parse_magnitude (2 ^ 63 + 1) t)) e
    ∙ ap negated (
        parse_magnitude-Spells (2 ^ 63 + 1) (suc k) c s
          (subst (Spells 0 (suc k)) e (Spells-decimal (suc k))) l (omega (arith, b)))

-- The texts that end with their only `=`, and the name before it.
abbrev closes : String → Bool
closes String.[] = false
closes (String.◌∷◌ c String.[]) = code c == 61
closes (String.◌∷◌ c (String.◌∷◌ d s)) = if code c == 61 then false else closes (String.◌∷◌ d s)

abbrev name_in : String → String
name_in String.[] = ""
name_in (String.◌∷◌ c String.[]) = ""
name_in (String.◌∷◌ c (String.◌∷◌ d s)) = String.◌∷◌ c (name_in (String.◌∷◌ d s))

split_value-closes : (p v : String) → closes p ≡ true → split_value (p <> v) ≡ (name_in p, some v)
unfolding split_value
split_value-closes String.[] v h = cc
split_value-closes (String.◌∷◌ c String.[]) v h = ground (arith, cons-append c "" v, nil-append v)
split_value-closes (String.◌∷◌ c (String.◌∷◌ d s)) v h =
    ground (arith, cons-append c (String.◌∷◌ d s) v, split_value-closes (String.◌∷◌ d s) v)

token-letter :
    (c : Char) (s : String)
    → 62 ≤ code c
    → token (String.◌∷◌ "-" (String.◌∷◌ c s))
      ≡ flag (String.◌∷◌ c (split_value s).0) (split_value s).1
unfolding token
token-letter c s h = ground arith

-- A dash, a letter, and a text that ends with `=`.
token-closes :
    (c : Char) (p v : String)
    → 62 ≤ code c
    → closes p ≡ true
    → token (String.◌∷◌ "-" (String.◌∷◌ c p) <> v) ≡ flag (String.◌∷◌ c (name_in p)) (some v)
token-closes c p v h closed =
    ap token (cons-append "-" (String.◌∷◌ c p) v ∙ ap (λ t. String.◌∷◌ "-" t) (cons-append c p v))
    ∙ token-letter c (p <> v) h
    ∙ ap (λ split. flag (String.◌∷◌ c split.0) split.1) (split_value-closes p v closed)

pub token-columns : (v : String) → token ("-windowColumns=" <> v) ≡ flag "windowColumns" (some v)
token-columns v = token-closes "w" "indowColumns=" v (omega arith) refl

pub token-rows : (v : String) → token ("-windowRows=" <> v) ≡ flag "windowRows" (some v)
token-rows v = token-closes "w" "indowRows=" v (omega arith) refl
