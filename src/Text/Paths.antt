-- ===== src/Text/Paths.antt =====
-- filepath.Dir and filepath.Base, on paths without `.`, `..` and repeated slashes: Clean then only takes
-- the slash at the end away.
use Prim.Native.Char.{Char, code}
use text.Mathlib.TextLemmas.{nil-append, cons-append}
use warden_linux.Base.{
  ◌≡◌, refl, ap, sym, ◌∙◌, Bool, true, false, ◌&&◌, ◌==◌, if◌then◌else◌, String, arith,
}
use warden_linux.Text.{◌<>◌}

abbrev pub is_empty : String → Bool
is_empty String.[] = true
is_empty (String.◌∷◌ c s) = false

-- The text up to its last slash, the slash included.
pub dir_part : String → String
dir_part String.[] = ""
dir_part (String.◌∷◌ c s) =
    let rest = dir_part s in
    if is_empty rest then (if code c == 47 then "/" else "") else String.◌∷◌ c rest

-- The text behind its last slash.
pub file_part : String → String
file_part String.[] = ""
file_part (String.◌∷◌ c s) =
    let rest = file_part s in
    if is_empty (dir_part s) then (if code c == 47 then s else String.◌∷◌ c s) else rest

-- The text without the slashes at its end.
pub strip_slashes : String → String
strip_slashes String.[] = ""
strip_slashes (String.◌∷◌ c s) =
    let rest = strip_slashes s in if code c == 47 && is_empty rest then "" else String.◌∷◌ c rest

unfoldable pub dir : String → String
unfolding dir_part strip_slashes
dir path =
    if is_empty (dir_part path)
    then "."
    else if is_empty (strip_slashes (dir_part path))
    then "/"
    else strip_slashes (dir_part path)

unfoldable pub base : String → String
unfolding file_part strip_slashes
base path =
    if is_empty path
    then "."
    else if is_empty (strip_slashes path)
    then "/"
    else file_part (strip_slashes path)

-- strings.HasSuffix(path, "/")
abbrev pub ends_slash : String → Bool
ends_slash String.[] = false
ends_slash (String.◌∷◌ c String.[]) = code c == 47
ends_slash (String.◌∷◌ c (String.◌∷◌ d s)) = ends_slash (String.◌∷◌ d s)

abbrev pub NoSlash : String → Type 0
NoSlash String.[] = Unit {0}
NoSlash (String.◌∷◌ c s) = ((code c == 47) ≡ false) × NoSlash s

dir_part-NoSlash : (b : String) → NoSlash b → dir_part b ≡ ""
unfolding dir_part
dir_part-NoSlash String.[] n = refl
dir_part-NoSlash (String.◌∷◌ c s) n = rw (dir_part-NoSlash s n.1) (rw (n.0) refl)

strip_slashes-NoSlash : (b : String) → NoSlash b → strip_slashes b ≡ b
unfolding strip_slashes
strip_slashes-NoSlash String.[] n = refl
strip_slashes-NoSlash (String.◌∷◌ c s) n = rw (strip_slashes-NoSlash s n.1) (rw (n.0) refl)

is_empty-append : (s u : String) → is_empty u ≡ false → is_empty (s <> u) ≡ false
is_empty-append String.[] u h = ap is_empty (nil-append u) ∙ h
is_empty-append (String.◌∷◌ c s) u h = ap is_empty (cons-append c s u)

dir_part-cons :
    (c : Char) (s : String)
    → is_empty (dir_part s) ≡ false
    → dir_part (String.◌∷◌ c s) ≡ String.◌∷◌ c (dir_part s)
unfolding dir_part
dir_part-cons c s h = rw h refl

file_part-cons :
    (c : Char) (s : String)
    → is_empty (dir_part s) ≡ false
    → file_part (String.◌∷◌ c s) ≡ file_part s
unfolding file_part
file_part-cons c s h = rw h refl

strip_slashes-cons :
    (c : Char) (s u : String)
    → strip_slashes s ≡ u
    → is_empty u ≡ false
    → strip_slashes (String.◌∷◌ c s) ≡ String.◌∷◌ c u
unfolding strip_slashes
strip_slashes-cons c s u e h = ground (arith, e, h)

strip_slashes-slash : (d : String) → ends_slash d ≡ false → strip_slashes (d <> "/") ≡ d
unfolding strip_slashes
strip_slashes-slash String.[] h = refl
strip_slashes-slash (String.◌∷◌ c String.[]) h = ap strip_slashes (cons-append c "" "/") ∙ rw h refl
strip_slashes-slash (String.◌∷◌ c (String.◌∷◌ e s)) h =
    ap strip_slashes (cons-append c (String.◌∷◌ e s) "/")
    ∙ strip_slashes-cons c (String.◌∷◌ e s <> "/") (String.◌∷◌ e s)
        (strip_slashes-slash (String.◌∷◌ e s) h) refl

ends_slash-cons :
    (c : Char) (s : String) → is_empty s ≡ false → ends_slash (String.◌∷◌ c s) ≡ ends_slash s
ends_slash-cons c String.[] h = cc
ends_slash-cons c (String.◌∷◌ e s) h = refl

pub ends_slash-append : (s u : String) → is_empty u ≡ false → ends_slash (s <> u) ≡ ends_slash u
ends_slash-append String.[] u h = ap ends_slash (nil-append u)
ends_slash-append (String.◌∷◌ c s) u h =
    ap ends_slash (cons-append c s u)
    ∙ ends_slash-cons c (s <> u) (is_empty-append s u h)
    ∙ ends_slash-append s u h

-- A directory, a slash and a name.
module _ (b : String) (n : NoSlash b) (some_name : is_empty b ≡ false) where
  slash-append : ("/" <> b) ≡ String.◌∷◌ "/" b
  slash-append = cons-append "/" "" b ∙ ap (λ t. String.◌∷◌ "/" t) (nil-append b)

  dir_part-entry : (d : String) → dir_part (d <> "/" <> b) ≡ d <> "/"
  unfolding dir_part
  dir_part-entry String.[] =
      ap dir_part (nil-append ("/" <> b) ∙ slash-append) ∙ rw (dir_part-NoSlash b n) refl
  dir_part-entry (String.◌∷◌ c s) =
      ap dir_part (cons-append c s ("/" <> b))
      ∙ dir_part-cons c (s <> "/" <> b)
          (ap is_empty (dir_part-entry s) ∙ is_empty-append s "/" refl)
      ∙ ap (λ t. String.◌∷◌ c t) (dir_part-entry s)
      ∙ sym (cons-append c s "/")

  file_part-entry : (d : String) → file_part (d <> "/" <> b) ≡ b
  unfolding file_part
  file_part-entry String.[] =
      ap file_part (nil-append ("/" <> b) ∙ slash-append) ∙ rw (dir_part-NoSlash b n) refl
  file_part-entry (String.◌∷◌ c s) =
      ap file_part (cons-append c s ("/" <> b))
      ∙ file_part-cons c (s <> "/" <> b)
          (ap is_empty (dir_part-entry s) ∙ is_empty-append s "/" refl)
      ∙ file_part-entry s

  is_empty-slash : is_empty ("/" <> b) ≡ false
  is_empty-slash = ap is_empty slash-append

  strip_slashes-entry : (d : String) → strip_slashes (d <> "/" <> b) ≡ d <> "/" <> b
  strip_slashes-entry String.[] =
      ap strip_slashes (nil-append ("/" <> b) ∙ slash-append)
      ∙ strip_slashes-cons "/" b b (strip_slashes-NoSlash b n) some_name
      ∙ sym (nil-append ("/" <> b) ∙ slash-append)
  strip_slashes-entry (String.◌∷◌ c s) =
      ap strip_slashes (cons-append c s ("/" <> b))
      ∙ strip_slashes-cons c (s <> "/" <> b) (s <> "/" <> b) (strip_slashes-entry s)
          (is_empty-append s ("/" <> b) is_empty-slash)
      ∙ sym (cons-append c s ("/" <> b))

  pub dir-entry : (d : String) → ends_slash d ≡ false → is_empty d ≡ false → dir (d <> "/" <> b) ≡ d
  unfolding dir
  dir-entry d h some_dir =
      rw (dir_part-entry d, is_empty-append d "/" refl, strip_slashes-slash d h, some_dir)

  pub base-entry : (d : String) → base (d <> "/" <> b) ≡ b
  unfolding base
  base-entry d = rw (
    is_empty-append d ("/" <> b) is_empty-slash,
    strip_slashes-entry d,
    is_empty-append d ("/" <> b) is_empty-slash,
    file_part-entry d,
  )

  ends_slash-NoSlash : (t : String) → NoSlash t → is_empty t ≡ false → ends_slash t ≡ false
  ends_slash-NoSlash String.[] m h = cc
  ends_slash-NoSlash (String.◌∷◌ c String.[]) m h = m.0
  ends_slash-NoSlash (String.◌∷◌ c (String.◌∷◌ e s)) m h =
      ends_slash-NoSlash (String.◌∷◌ e s) m.1 refl

  pub ends_slash-entry : (d : String) → ends_slash (d <> "/" <> b) ≡ false
  ends_slash-entry d =
      ends_slash-append d ("/" <> b) is_empty-slash
      ∙ ap ends_slash slash-append
      ∙ ends_slash-cons "/" b some_name
      ∙ ends_slash-NoSlash b n some_name
