-- ===== src/QuotaManager/Report/Columns.antt =====
-- The scanner of linux_backend/quota_manager/quota_manager.go on one number of a row that
-- linux_backend/src/repquota/repquota.c prints.
use Prim.Native.Char.{Char, code}
use mathlib.Core.Path.{subst}
use text.Mathlib.TextLemmas.{nil-append, cons-append}
use warden_linux.Base.{ℕ, ◌+◌, ◌-◌, ◌*◌, ◌≤◌, ◌<◌, ◌≡◌, refl, ap, ◌∙◌, sym, String, arith}
use warden_linux.QuotaManager.Report.{
  scanned, mismatch, skip_spaces, scan_digits, within, scan_uint,
}
use warden_linux.Text.Decimal.{Spells, Spells-decimal, decimal-cons}
use warden_linux.Text.{◌<>◌, decimal}

scan_digits-Spells :
    (acc n : ℕ) (digits : String) (d : Char) (rest : String)
    → code d < 48
    → Spells acc n digits
    → scan_digits acc (digits <> String.◌∷◌ d rest) ≡ scanned (n, String.◌∷◌ d rest)
unfolding scan_digits
scan_digits-Spells acc n String.[] d rest h s = ground (arith, s, nil-append (String.◌∷◌ d rest))
scan_digits-Spells acc n (String.◌∷◌ c digits) d rest h s = ground (
  arith,
  scan_digits-Spells (acc * 10 + (code c - 48)) n digits d rest h s.2,
  cons-append c digits (String.◌∷◌ d rest),
)

scan_uint-digit :
    (bound : ℕ) (c : Char) (s : String)
    → 48 ≤ code c
    → code c ≤ 57
    → scan_uint bound (String.◌∷◌ c s) ≡ within bound (scan_digits 0 (String.◌∷◌ c s))
unfolding scan_uint skip_spaces
scan_uint-digit bound c s l u = ground arith

-- A number and a space, of a row.
abbrev pub column : ℕ → String → String
column n rest = decimal n <> String.◌∷◌ " " rest

scan_uint-column :
    (bound n : ℕ) (rest : String)
    → scan_uint bound (column n rest) ≡ within bound (scanned (n, String.◌∷◌ " " rest))
scan_uint-column bound n rest =
    let (c, s, e) = decimal-cons n in
    let spelt = subst (λ t. Spells 0 n t) e (Spells-decimal n) in
    let whole = String.◌∷◌ " " rest in
    ap (λ t. scan_uint bound (t <> whole)) e
    ∙ ap (scan_uint bound) (cons-append c s whole)
    ∙ scan_uint-digit bound c (s <> whole) spelt.0 spelt.1
    ∙ ap (λ t. within bound (scan_digits 0 t)) (sym (cons-append c s whole))
    ∙ ap (within bound) (scan_digits-Spells 0 n (String.◌∷◌ c s) " " rest (omega arith) spelt)

scan_uint-space : (bound : ℕ) (s : String) → scan_uint bound (String.◌∷◌ " " s) ≡ scan_uint bound s
unfolding scan_uint skip_spaces
scan_uint-space bound s = refl

pub first :
    (bound n : ℕ) (rest : String)
    → n < bound
    → scan_uint bound (column n rest) ≡ scanned (n, String.◌∷◌ " " rest)
first bound n rest h = ground (arith, scan_uint-column bound n rest)

pub next :
    (bound n : ℕ) (rest : String)
    → n < bound
    → scan_uint bound (String.◌∷◌ " " (column n rest)) ≡ scanned (n, String.◌∷◌ " " rest)
next bound n rest h = scan_uint-space bound (column n rest) ∙ first bound n rest h

pub too_big :
    (bound n : ℕ) (rest : String)
    → bound ≤ n
    → scan_uint bound (String.◌∷◌ " " (column n rest)) ≡ mismatch
too_big bound n rest h =
    scan_uint-space bound (column n rest) ∙ ground (arith, scan_uint-column bound n rest)
