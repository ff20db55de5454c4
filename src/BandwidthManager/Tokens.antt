-- ===== src/BandwidthManager/Tokens.antt =====
-- The tokens of the patterns of linux_backend/bandwidth_manager/bandwidth_manager.go on texts that begin with them.
use Prim.Native.Char.{Char, code}
use mathlib.Core.Path.{subst}
use text.Mathlib.TextLemmas.{nil-append, cons-append}
use warden_linux.BandwidthManager.Patterns.{
  Token, literal, some_hex, some_digits, group_digits, is_digit, is_hex, span, strip_prefix,
  non_empty, match_at, find_submatch,
}
use warden_linux.Base.{
  ℕ, ◌+◌, ◌-◌, ◌*◌, ◌≤◌, ◌≡◌, refl, sym, String, some, none, inl, inr, Bool-cases, if◌then◌else◌,
  ◌==◌, Bool, true, false, ◌&&◌, List, ◌∷◌, arith,
}
use warden_linux.Text.Decimal.{Spells, Spells-decimal, decimal-cons}
use warden_linux.Text.{◌<>◌, decimal}

strip_prefix-append : (p s : String) → strip_prefix p (p <> s) ≡ some s
unfolding strip_prefix
strip_prefix-append String.[] s = ground (arith, nil-append s)
strip_prefix-append (String.◌∷◌ c p) s = ground (arith, cons-append c p s, strip_prefix-append p s)

module _ (test : Char → Bool) where
  -- Every character of a text passes.
  abbrev pub all_pass : String → Bool
  all_pass String.[] = true
  all_pass (String.◌∷◌ c s) = test c && all_pass s

  span-all :
      (t s : String) → all_pass t ≡ true → span test s ≡ ("", s) → span test (t <> s) ≡ (t, s)
  unfolding span
  span-all String.[] s all stop = ground (arith, nil-append s)
  span-all (String.◌∷◌ c t) s all stop =
      ground (arith, cons-append c t s, span-all t s (ground (arith, all)))

module _ (test : Char → Bool)
    (digits_pass : (c : Char) → 48 ≤ code c → code c ≤ 57 → test c ≡ true) where
  span-Spells :
      (acc n : ℕ) (t s : String)
      → Spells acc n t
      → span test s ≡ ("", s)
      → span test (t <> s) ≡ (t, s)
  unfolding span
  span-Spells acc n String.[] s h stop = ground (arith, nil-append s)
  span-Spells acc n (String.◌∷◌ c t) s h stop = ground (
    arith,
    cons-append c t s,
    digits_pass c h.0 h.1,
    span-Spells (acc * 10 + (code c - 48)) n t s h.2 stop,
  )

  pub span-stops :
      (c : Char) (t s : String)
      → test c ≡ false
      → span test (String.◌∷◌ c t <> s) ≡ ("", String.◌∷◌ c t <> s)
  unfolding span
  span-stops c t s h = ground (arith, cons-append c t s)

pub is_digit-digits : (c : Char) → 48 ≤ code c → code c ≤ 57 → is_digit c ≡ true
is_digit-digits c l u = ground arith

pub is_hex-digits : (c : Char) → 48 ≤ code c → code c ≤ 57 → is_hex c ≡ true
is_hex-digits c l u = ground arith

non_empty-decimal : (n : ℕ) (s : String) → non_empty (decimal n, s) ≡ some (decimal n, s)
non_empty-decimal n s =
    let (c, t, e) = decimal-cons n in subst (λ d. non_empty (d, s) ≡ some (d, s)) (sym e) refl

module _ (ts : List Token) where
  pub match-literal : (p s : String) → match_at (literal p ∷ ts) (p <> s) ≡ match_at ts s
  unfolding match_at
  match-literal p s = rw (strip_prefix-append p s)

  pub match-hex :
      (c : Char) (t s : String)
      → all_pass is_hex (String.◌∷◌ c t) ≡ true
      → span is_hex s ≡ ("", s)
      → match_at (some_hex ∷ ts) (String.◌∷◌ c t <> s) ≡ match_at ts s
  unfolding match_at
  match-hex c t s hex stop = rw (span-all is_hex (String.◌∷◌ c t) s hex stop) refl

  pub match-digits :
      (n : ℕ) (s : String)
      → span is_digit s ≡ ("", s)
      → match_at (some_digits ∷ ts) (decimal n <> s) ≡ match_at ts s
  unfolding match_at
  match-digits n s stop = rw (
    span-Spells is_digit is_digit-digits 0 n (decimal n) s (Spells-decimal n) stop,
    non_empty-decimal n s,
  )

  pub match-group_digits :
      (n : ℕ) (s : String) (groups : List String)
      → span is_digit s ≡ ("", s)
      → match_at ts s ≡ some groups
      → match_at (group_digits ∷ ts) (decimal n <> s) ≡ some (decimal n ∷ groups)
  unfolding match_at
  match-group_digits n s groups stop m = rw (
    span-Spells is_digit is_digit-digits 0 n (decimal n) s (Spells-decimal n) stop,
    non_empty-decimal n s,
    m,
  )

-- Two texts have different characters at some place that both have.
unfoldable pub differ : String → String → Bool
differ String.[] s = false
differ (String.◌∷◌ c p) String.[] = false
differ (String.◌∷◌ c p) (String.◌∷◌ d s) =
    let rest = differ p s in if code c == code d then rest else true

-- A text does not begin, at any place of another, whatever stands behind that.
unfoldable pub lacks : String → String → Bool
lacks p String.[] = true
lacks p (String.◌∷◌ d s) = differ p (String.◌∷◌ d s) && lacks p s

strip_prefix-differ : (p s t : String) → differ p s ≡ true → strip_prefix p (s <> t) ≡ none
unfolding differ strip_prefix
strip_prefix-differ String.[] s t d = absurd (ground (arith, d))
strip_prefix-differ (String.◌∷◌ c p) String.[] t d = absurd (ground (arith, d))
strip_prefix-differ (String.◌∷◌ c p) (String.◌∷◌ e s) t d = elim (Bool-cases (code c == code e)) [
  | inl same ↦
      ground (arith, same, cons-append e s t, strip_prefix-differ p s t (ground (arith, d, same)))
  | inr other ↦ ground (arith, other, cons-append e s t)
]

-- The search passes over what is printed before the text of a pattern's first token.
pub find_submatch-lacks :
    (p : String) (ts : List Token) (before s : String)
    → lacks p before ≡ true
    → find_submatch (literal p ∷ ts) (before <> s) ≡ find_submatch (literal p ∷ ts) s
unfolding lacks find_submatch match_at
find_submatch-lacks p ts String.[] s none_there = rw (nil-append s) refl
find_submatch-lacks p ts (String.◌∷◌ d before) s none_there = ground (
  arith,
  cons-append d before s,
  strip_prefix-differ p (String.◌∷◌ d before) s (ground (arith, none_there)),
  find_submatch-lacks p ts before s (ground (arith, none_there)),
)
