-- ===== src/CgroupsManager/Trim.antt =====
-- What strings.Trim leaves of a number and the end of its line.
use Prim.Native.Char.{Char, code}
use Prim.Native.String.append
use warden_linux.Base.{◌≤◌, ◌≡◌, refl, ap, sym, ◌∙◌, arith, String}
use warden_linux.CgroupsManager.{trim_left, trim_right, trim_newlines}
use warden_linux.Text.{◌<>◌}
use warden_linux.Text.Decimal.{AllDigitChars}

append-cons : (c : Char) (s t : String) → (String.◌∷◌ c s <> t) ≡ String.◌∷◌ c (s <> t)
append-cons c s t = λ i. append.cons c s t i

trim_right-cons :
    (c : Char) (s : String)
    → 48 ≤ code c
    → trim_right (String.◌∷◌ c s) ≡ String.◌∷◌ c (trim_right s)
unfolding trim_right
trim_right-cons c s h = ground arith

trim_left-cons : (c : Char) (s : String) → 48 ≤ code c → trim_left (String.◌∷◌ c s) ≡ String.◌∷◌ c s
unfolding trim_left
trim_left-cons c s h = ground arith

trim_right-newline : trim_right ("" <> "\n") ≡ ""
unfolding trim_right
trim_right-newline = refl

trim_right-line : (s : String) → AllDigitChars s → trim_right (s <> "\n") ≡ s
trim_right-line String.[] all = trim_right-newline
trim_right-line (String.◌∷◌ c s) all =
    ap trim_right (append-cons c s "\n")
    ∙ trim_right-cons c (s <> "\n") all.0
    ∙ ap (λ t. String.◌∷◌ c t) (trim_right-line s all.1)

trim_both-newline : trim_right (trim_left ("" <> "\n")) ≡ ""
unfolding trim_left trim_right
trim_both-newline = refl

trim_left-line : (s : String) → AllDigitChars s → trim_right (trim_left (s <> "\n")) ≡ s
trim_left-line String.[] all = trim_both-newline
trim_left-line (String.◌∷◌ c s) all =
    ap trim_right (
      ap trim_left (append-cons c s "\n")
      ∙ trim_left-cons c (s <> "\n") all.0
      ∙ sym (append-cons c s "\n"))
    ∙ trim_right-line (String.◌∷◌ c s) all

pub trim_newlines-line : (s : String) → AllDigitChars s → trim_newlines (s <> "\n") ≡ s
unfolding trim_newlines
trim_newlines-line s all = trim_left-line s all
