-- ===== src/Text/Decimal.antt =====
-- `ParseUint` and `%d`.
use Prim.Native.Char.{Char, code}
use mathlib.Core.Path.{subst}
use warden_linux.Base.{
  ◌≢◌, ap, ℕ, zero, suc, ◌+◌, ◌-◌, ◌*◌, ◌/◌, ◌%◌, ◌≤◌, ◌<◌, ◌≡◌, refl, sym, some, List, [], ◌∷◌,
  ◌++◌, arith, String, u64_mod, ◌∙◌, ltb, Bool-cases, inl, inr,
}
use warden_linux.Text.{digit_char, digits, text_of, decimal, parse_digits, parse_uint}

abbrev value : ℕ → List ℕ → ℕ
value n [] = n
value n (d ∷ ds) = value (n * 10 + d) ds

abbrev AllDigits : List ℕ → Type 0
AllDigits [] = Unit
AllDigits (d ∷ ds) = (d < 10) × AllDigits ds

code-digit_char : (d : ℕ) → d < 10 → code (digit_char d) ≡ 48 + d
code-digit_char zero h = refl
code-digit_char (suc zero) h = refl
code-digit_char (suc (suc zero)) h = refl
code-digit_char (suc (suc (suc zero))) h = refl
code-digit_char (suc (suc (suc (suc zero)))) h = refl
code-digit_char (suc (suc (suc (suc (suc zero))))) h = refl
code-digit_char (suc (suc (suc (suc (suc (suc zero)))))) h = refl
code-digit_char (suc (suc (suc (suc (suc (suc (suc zero))))))) h = refl
code-digit_char (suc (suc (suc (suc (suc (suc (suc (suc zero)))))))) h = refl
code-digit_char (suc (suc (suc (suc (suc (suc (suc (suc (suc d))))))))) h = omega arith

value-append : (n : ℕ) (ds : List ℕ) (d : ℕ) → value n (ds ++ d ∷ []) ≡ value n ds * 10 + d
value-append n [] d = refl
value-append n (x ∷ ds) d = value-append (n * 10 + x) ds d

AllDigits-append : (ds : List ℕ) (d : ℕ) → AllDigits ds → d < 10 → AllDigits (ds ++ d ∷ [])
AllDigits-append [] d a h = (h, tt)
AllDigits-append (x ∷ ds) d a h = (a.0, AllDigits-append ds d a.1 h)

AllDigits-digits : (fuel n : ℕ) → n ≤ fuel → AllDigits (digits fuel n)
unfolding digits
AllDigits-digits zero n h = omega arith
AllDigits-digits (suc fuel) n h =
    ground (arith, AllDigits-digits fuel (n / 10), AllDigits-append (digits fuel (n / 10)) (n % 10))

value-digits : (fuel n : ℕ) → n ≤ fuel → value 0 (digits fuel n) ≡ n
unfolding digits
value-digits zero n h = omega arith
value-digits (suc fuel) n h =
    ground (arith, value-digits fuel (n / 10), value-append 0 (digits fuel (n / 10)) (n % 10))

value-grows : (n : ℕ) (ds : List ℕ) → n ≤ value n ds
value-grows n [] = omega arith
value-grows n (d ∷ ds) = omega (arith, value-grows (n * 10 + d) ds)

parse_digits-text_of :
    (n : ℕ) (ds : List ℕ)
    → AllDigits ds
    → value n ds < u64_mod
    → parse_digits n (text_of ds) ≡ some (value n ds)
unfolding parse_digits text_of
parse_digits-text_of n [] a h = refl
parse_digits-text_of n (d ∷ ds) a h = ground (
  arith,
  code-digit_char d a.0,
  value-grows (n * 10 + d) ds,
  parse_digits-text_of (n * 10 + d) ds a.1 h,
)

parse_uint-text_of :
    (ds : List ℕ)
    → ds ≢ []
    → AllDigits ds
    → value 0 ds < u64_mod
    → parse_uint (text_of ds) ≡ some (value 0 ds)
unfolding parse_uint text_of
parse_uint-text_of [] e a h = absurd (e refl)
parse_uint-text_of (d ∷ ds) e a h = parse_digits-text_of 0 (d ∷ ds) a h

append-ne-nil : (ds : List ℕ) (d : ℕ) → ds ++ d ∷ [] ≢ []
append-ne-nil [] d e = cc
append-ne-nil (x ∷ ds) d e = cc

digits-ne-nil : (fuel n : ℕ) → digits fuel n ≢ []
unfolding digits
digits-ne-nil zero n e = cc
digits-ne-nil (suc fuel) n e = ground (arith, append-ne-nil (digits fuel (n / 10)) (n % 10))

pub parse_uint-decimal : (n : ℕ) → n < u64_mod → parse_uint (decimal n) ≡ some n
unfolding decimal
parse_uint-decimal n h =
    parse_uint-text_of (digits n n) (digits-ne-nil n n) (AllDigits-digits n n (omega arith))
      (omega (arith, value-digits n n (omega arith)))
    ∙ ap some (value-digits n n (omega arith))

-- No character stands before the digits.
abbrev pub AllDigitChars : String → Type 0
AllDigitChars String.[] = Unit
AllDigitChars (String.◌∷◌ c s) = (48 ≤ code c) × AllDigitChars s

AllDigitChars-text_of : (ds : List ℕ) → AllDigits ds → AllDigitChars (text_of ds)
unfolding text_of
AllDigitChars-text_of [] a = tt
AllDigitChars-text_of (d ∷ ds) a =
    (omega (arith, code-digit_char d a.0), AllDigitChars-text_of ds a.1)

pub AllDigitChars-decimal : (n : ℕ) → AllDigitChars (decimal n)
unfolding decimal
AllDigitChars-decimal n = AllDigitChars-text_of (digits n n) (AllDigits-digits n n (omega arith))

-- Digits that, read behind those of `acc`, give `n`.
abbrev pub Spells : ℕ → ℕ → String → Type 0
Spells acc n String.[] = acc ≡ n
Spells acc n (String.◌∷◌ c s) =
    (48 ≤ code c) × (code c ≤ 57) × Spells (acc * 10 + (code c - 48)) n s

Spells-text_of : (acc : ℕ) (ds : List ℕ) → AllDigits ds → Spells acc (value acc ds) (text_of ds)
unfolding text_of
Spells-text_of acc [] a = refl
Spells-text_of acc (d ∷ ds) a =
    let same : code (digit_char d) - 48 ≡ d = omega (arith, code-digit_char d a.0) in
    (
      omega (arith, code-digit_char d a.0),
      omega (arith, code-digit_char d a.0, a.0),
      subst (λ k. Spells (acc * 10 + k) (value (acc * 10 + d) ds) (text_of ds)) (sym same)
          (Spells-text_of (acc * 10 + d) ds a.1),
    )

pub Spells-decimal : (n : ℕ) → Spells 0 n (decimal n)
unfolding decimal
Spells-decimal n =
    subst (λ k. Spells 0 k (text_of (digits n n))) (value-digits n n (omega arith))
      (Spells-text_of 0 (digits n n) (AllDigits-digits n n (omega arith)))

text_of-cons : (ds : List ℕ) → ds ≢ [] → (c : Char) × (s : String) × (text_of ds ≡ String.◌∷◌ c s)
unfolding text_of
text_of-cons [] e = absurd (e refl)
text_of-cons (d ∷ ds) e = (digit_char d, text_of ds, refl)

pub decimal-cons : (n : ℕ) → (c : Char) × (s : String) × (decimal n ≡ String.◌∷◌ c s)
unfolding decimal
decimal-cons n = text_of-cons (digits n n) (digits-ne-nil n n)

pub decimal-one : decimal 1 ≡ "1"
unfolding decimal digits text_of
decimal-one = refl

-- A number that is not 0 does not begin with the digit 0.
abbrev HeadPos : List ℕ → Type 0
HeadPos [] = ⊥
HeadPos (d ∷ ds) = 0 < d

HeadPos-append : (ds : List ℕ) (d : ℕ) → HeadPos ds → HeadPos (ds ++ d ∷ [])
HeadPos-append [] d h = absurd h
HeadPos-append (x ∷ ds) d h = h

HeadPos-digits : (fuel n : ℕ) → n ≤ fuel → 0 < n → HeadPos (digits fuel n)
unfolding digits
HeadPos-digits zero n h p = absurd (omega arith)
HeadPos-digits (suc fuel) n h p = elim (Bool-cases (ltb n 10)) [
  | inl small ↦ rw small p
  | inr large ↦ rw large (
      HeadPos-append (digits fuel (n / 10)) (n % 10)
        (HeadPos-digits fuel (n / 10) (omega arith) (ground arith)))
]

text_of-head :
    (ds : List ℕ)
    → HeadPos ds
    → AllDigits ds
    → (c : Char) × (s : String) × (text_of ds ≡ String.◌∷◌ c s) × (49 ≤ code c)
unfolding text_of
text_of-head [] h a = absurd h
text_of-head (d ∷ ds) h a = (digit_char d, text_of ds, refl, omega (arith, code-digit_char d a.0))

pub decimal-head :
    (n : ℕ) → 0 < n → (c : Char) × (s : String) × (decimal n ≡ String.◌∷◌ c s) × (49 ≤ code c)
unfolding decimal
decimal-head n p =
    text_of-head (digits n n) (HeadPos-digits n n (omega arith) p)
      (AllDigits-digits n n (omega arith))

pub decimal-zero : decimal 0 ≡ "0"
unfolding decimal digits text_of
decimal-zero = refl
