-- ===== src/Container/Stats/Scanned.antt =====
-- The parsers of linux_backend/linux_container.go against a description by the pairs of words of a
-- text.
use mathlib.Core.List.{reverse-cons}
use text.Mathlib.TextEquality.{eq_iff}
use warden_linux.Base.{
  ℕ, ◌≡◌, refl, sym, ap, ◌∙◌, Bool, true, false, ◌&&◌, List, [], ◌∷◌, ◌++◌, String, Option, none,
  some, reverse, Option-cases, Bool-cases, inl, inr, if◌then◌else◌, arith, get_elem?, ◌==◌,
}
use warden_linux.CgroupsManager.{trim_newlines}
use warden_linux.Container.Stats.{
  MemoryField, MemoryStat, cache, rss, mapped_file, pgpgin, pgpgout, swap, pgfault, pgmajfault,
  inactive_anon, active_anon, inactive_file, active_file, unevictable, hierarchical_memory_limit,
  hierarchical_memsw_limit, total_cache, total_rss, total_mapped_file, total_pgpgin, total_pgpgout,
  total_swap, total_pgfault, total_pgmajfault, total_inactive_anon, total_active_anon,
  total_inactive_file, total_active_file, total_unevictable, CpuStat, words, assign_parsed, scan,
  place, assign_field, assign_case, cases, case_of, set_memory, parse_memory_stat, set_cpu,
  parse_cpu_stat,
}
use warden_linux.Text.{◌===◌, parse_uint}

-- A text read as pairs of words; a last word with no second is left out.
pub pairs : List String → List (String × String)
pairs [] = []
pairs (field ∷ []) = []
pairs (field ∷ text ∷ rest) = (field, text) ∷ pairs rest

abbrev or_else : Option ℕ → Option ℕ → Option ℕ
or_else none o = o
or_else (some n) o = some n

abbrev value_or : Option ℕ → ℕ → ℕ
value_or none d = d
value_or (some n) d = n

-- The number of the first pair that has this name and whose second word is a number.
pub first_number : String → List (String × String) → Option ℕ
first_number name [] = none
first_number name ((field, text) ∷ ps) =
    let rest = first_number name ps in
    if field === name then or_else (parse_uint text) rest else rest

-- The number of the last such pair of a text, or 0.
pub last_number : String → String → ℕ
unfolding pairs first_number
last_number name contents = value_or (first_number name (reverse (pairs (words contents)))) 0

first_number-append :
    (name : String) (ps qs : List (String × String))
    → first_number name (ps ++ qs) ≡ or_else (first_number name ps) (first_number name qs)
unfolding first_number
first_number-append name [] qs = refl
first_number-append name ((field, text) ∷ ps) qs = ground (arith, first_number-append name ps qs)

value_or-last :
    (same : Bool) (front o : Option ℕ) (d : ℕ)
    → value_or front (if same then value_or o d else d)
      ≡ value_or (or_else front (if same then or_else o none else none)) d
value_or-last same front o d = ground arith

module _ {S : Type 0} (assign : String → ℕ → S → S) (get : S → ℕ) (name : String)
    (get-assign : (field : String) (n : ℕ) (s : S)
      → get (assign field n s) ≡ (if field === name then n else get s)) where
  get-assign_parsed :
      (field : String) (o : Option ℕ) (s : S)
      → get (assign_parsed assign field o s)
        ≡ (if field === name then value_or o (get s) else get s)
  get-assign_parsed field none s = ground arith
  get-assign_parsed field (some n) s = get-assign field n s

  get-scan :
      (ws : List String) (s : S)
      → get (scan assign ws s) ≡ value_or (first_number name (reverse (pairs ws))) (get s)
  unfolding scan pairs first_number
  get-scan [] s = refl
  get-scan (field ∷ []) s = refl
  get-scan (field ∷ text ∷ rest) s =
      let front = first_number name (reverse (pairs rest)) in
      get-scan rest (assign_parsed assign field (parse_uint text) s)
      ∙ ap (value_or front) (get-assign_parsed field (parse_uint text) s)
      ∙ value_or-last (field === name) front (parse_uint text) (get s)
      ∙ sym (
          ap (λ o. value_or o (get s))
            (ap (first_number name) (reverse-cons (field, text) (pairs rest))
              ∙ first_number-append name (reverse (pairs rest)) ((field, text) ∷ [])))

-- The names that the kernel gives the fields in memory.stat.
pub name_of : MemoryField → String
name_of cache = "cache"
name_of rss = "rss"
name_of mapped_file = "mapped_file"
name_of pgpgin = "pgpgin"
name_of pgpgout = "pgpgout"
name_of swap = "swap"
name_of pgfault = "pgfault"
name_of pgmajfault = "pgmajfault"
name_of inactive_anon = "inactive_anon"
name_of active_anon = "active_anon"
name_of inactive_file = "inactive_file"
name_of active_file = "active_file"
name_of unevictable = "unevictable"
name_of hierarchical_memory_limit = "hierarchical_memory_limit"
name_of hierarchical_memsw_limit = "hierarchical_memsw_limit"
name_of total_cache = "total_cache"
name_of total_rss = "total_rss"
name_of total_mapped_file = "total_mapped_file"
name_of total_pgpgin = "total_pgpgin"
name_of total_pgpgout = "total_pgpgout"
name_of total_swap = "total_swap"
name_of total_pgfault = "total_pgfault"
name_of total_pgmajfault = "total_pgmajfault"
name_of total_inactive_anon = "total_inactive_anon"
name_of total_active_anon = "total_active_anon"
name_of total_inactive_file = "total_inactive_file"
name_of total_active_file = "total_active_file"
name_of total_unevictable = "total_unevictable"

case_of-name : (f : MemoryField) → case_of (name_of f) cases ≡ some f
unfolding case_of cases name_of
case_of-name cache = refl
case_of-name rss = refl
case_of-name mapped_file = refl
case_of-name pgpgin = refl
case_of-name pgpgout = refl
case_of-name swap = refl
case_of-name pgfault = refl
case_of-name pgmajfault = refl
case_of-name inactive_anon = refl
case_of-name active_anon = refl
case_of-name inactive_file = refl
case_of-name active_file = refl
case_of-name unevictable = refl
case_of-name hierarchical_memory_limit = refl
case_of-name hierarchical_memsw_limit = refl
case_of-name total_cache = refl
case_of-name total_rss = refl
case_of-name total_mapped_file = refl
case_of-name total_pgpgin = refl
case_of-name total_pgpgout = refl
case_of-name total_swap = refl
case_of-name total_pgfault = refl
case_of-name total_pgmajfault = refl
case_of-name total_inactive_anon = refl
case_of-name total_active_anon = refl
case_of-name total_inactive_file = refl
case_of-name total_active_file = refl
case_of-name total_unevictable = refl

-- Every case has the name of its field.
abbrev all_named : List (String × MemoryField) → Bool
all_named [] = true
all_named ((name, f) ∷ rest) = name === name_of f && all_named rest

cases-all_named : all_named cases ≡ true
unfolding cases name_of
cases-all_named = refl

name-case_of :
    (field : String) (f : MemoryField) (cs : List (String × MemoryField))
    → all_named cs ≡ true
    → case_of field cs ≡ some f
    → field ≡ name_of f
unfolding case_of
name-case_of field f [] named e = absurd (ground (arith, e))
name-case_of field f ((name, g) ∷ cs) named e = elim (Bool-cases (field === name)) [
  | inl same ↦
      (let found : some g ≡ some f = ground (arith, e, same) in
        let its : (name === name_of g) ≡ true = ground (arith, named) in
        (eq_iff field name).0 same ∙ (eq_iff name (name_of g)).0 its ∙ ap name_of (cc found))
  | inr other ↦ name-case_of field f cs (ground (arith, named)) (ground (arith, e, other))
]

abbrev fields : List MemoryField
fields =
    cache ∷ rss ∷ mapped_file ∷ pgpgin ∷ pgpgout ∷ swap ∷ pgfault ∷ pgmajfault ∷ inactive_anon
    ∷ active_anon ∷ inactive_file ∷ active_file ∷ unevictable ∷ hierarchical_memory_limit
    ∷ hierarchical_memsw_limit ∷ total_cache ∷ total_rss ∷ total_mapped_file ∷ total_pgpgin
    ∷ total_pgpgout ∷ total_swap ∷ total_pgfault ∷ total_pgmajfault ∷ total_inactive_anon
    ∷ total_active_anon ∷ total_inactive_file ∷ total_active_file ∷ total_unevictable ∷ []

field_at-place : (f : MemoryField) → get_elem? fields (place f) ≡ some f
unfolding place
field_at-place cache = refl
field_at-place rss = refl
field_at-place mapped_file = refl
field_at-place pgpgin = refl
field_at-place pgpgout = refl
field_at-place swap = refl
field_at-place pgfault = refl
field_at-place pgmajfault = refl
field_at-place inactive_anon = refl
field_at-place active_anon = refl
field_at-place inactive_file = refl
field_at-place active_file = refl
field_at-place unevictable = refl
field_at-place hierarchical_memory_limit = refl
field_at-place hierarchical_memsw_limit = refl
field_at-place total_cache = refl
field_at-place total_rss = refl
field_at-place total_mapped_file = refl
field_at-place total_pgpgin = refl
field_at-place total_pgpgout = refl
field_at-place total_swap = refl
field_at-place total_pgfault = refl
field_at-place total_pgmajfault = refl
field_at-place total_inactive_anon = refl
field_at-place total_active_anon = refl
field_at-place total_inactive_file = refl
field_at-place total_active_file = refl
field_at-place total_unevictable = refl

place-injective : (f g : MemoryField) → place f ≡ place g → f ≡ g
place-injective f g e = cc (sym (field_at-place f) ∙ ap (get_elem? fields) e ∙ field_at-place g)

same_field :
    (field : String) (f g : MemoryField) → case_of field cases ≡ some g → field ≡ name_of f → g ≡ f
same_field field f g found named = cc (sym found ∙ ap (λ n. case_of n cases) named ∙ case_of-name f)

get-assign_case :
    (f : MemoryField) (field : String) (n : ℕ) (s : MemoryStat) (o : Option MemoryField)
    → case_of field cases ≡ o
    → assign_case o n s f ≡ (if field === name_of f then n else s f)
unfolding assign_field
get-assign_case f field n s none e = elim (Bool-cases (field === name_of f)) [
  | inl same ↦
      absurd (
        cc (sym e ∙ ap (λ n. case_of n cases) ((eq_iff field (name_of f)).0 same) ∙ case_of-name f))
  | inr other ↦ rw (other) refl
]
get-assign_case f field n s (some g) e = elim (Bool-cases (field === name_of f)) [
  | inl same ↦
      ground (arith, same, ap place (same_field field f g e ((eq_iff field (name_of f)).0 same)))
  | inr other ↦ elim (Bool-cases (place g == place f)) [
    | inr apart ↦ ground (arith, other, apart)
    | inl at ↦
        (let named =
            name-case_of field g cases cases-all_named e
            ∙ ap name_of (place-injective g f (ground (arith, at))) in
          absurd (ground (arith, other, (eq_iff field (name_of f)).1 named)))
  ]
]

get-set_memory :
    (f : MemoryField) (field : String) (n : ℕ) (s : MemoryStat)
    → set_memory field n s f ≡ (if field === name_of f then n else s f)
unfolding set_memory
get-set_memory f field n s = get-assign_case f field n s (case_of field cases) refl

-- Each field of the memory statistics is the number of the last pair of words, in the text read as
-- pairs, that has the name which the kernel gives the field and a number for its second word, and 0
-- where there is none.
pub parse_memory_stat_lem :
    (contents : String) (f : MemoryField)
    → parse_memory_stat contents f ≡ last_number (name_of f) contents
unfolding parse_memory_stat last_number
parse_memory_stat_lem contents f =
    get-scan set_memory (λ s. s f) (name_of f) (get-set_memory f) (words contents) (λ f. 0)

system-set_cpu :
    (field : String) (v : ℕ) (s : CpuStat)
    → (set_cpu field v s).system ≡ (if field === "system" then v else s.system)
unfolding set_cpu
system-set_cpu field v s = elim (Bool-cases (field === "user")) [
  | inl e ↦ ground (arith, ap (λ t. t === "system") ((eq_iff field "user").0 e), other)
  | inr e ↦ ground (arith, e)
]
  where
    other : ("user" === "system") ≡ false
    other = refl

usage-assign_parsed :
    (field : String) (o : Option ℕ) (s : CpuStat)
    → (assign_parsed set_cpu field o s).usage ≡ s.usage
unfolding set_cpu
usage-assign_parsed field none s = refl
usage-assign_parsed field (some v) s = ground arith

usage-scan : (ws : List String) (s : CpuStat) → (scan set_cpu ws s).usage ≡ s.usage
unfolding scan
usage-scan [] s = refl
usage-scan (field ∷ []) s = refl
usage-scan (field ∷ text ∷ rest) s =
    let stat = assign_parsed set_cpu field (parse_uint text) s in
    usage-scan rest stat ∙ usage-assign_parsed field (parse_uint text) s

get-scan_cpu :
    (n : ℕ) (contents : String)
    → scan set_cpu (words contents) (record { usage = n; user = 0; system = 0 }) ≡ record {
      usage = n;
      user = last_number "user" contents;
      system = last_number "system" contents;
    }
unfolding last_number set_cpu
get-scan_cpu n contents = ground (
  arith,
  usage-scan (words contents) (record { usage = n; user = 0; system = 0 }),
  get-scan set_cpu (λ s. s.user) "user" (λ field v s. ground arith) (words contents)
      (record { usage = n; user = 0; system = 0 }),
  get-scan set_cpu (λ s. s.system) "system" system-set_cpu (words contents)
      (record { usage = n; user = 0; system = 0 }),
)

-- The CPU statistics are all 0 where the usage, less its newlines, is not a number; otherwise the
-- usage is that number, and the user and the system time are the numbers of the last pairs of words
-- that have their names and a number, or 0.
pub parse_cpu_stat_lem :
    (usage contents : String)
    → parse_cpu_stat usage contents ≡ elim (parse_uint (trim_newlines usage)) [
      | none ↦ record { usage = 0; user = 0; system = 0 }
      | some n ↦ record {
        usage = n;
        user = last_number "user" contents;
        system = last_number "system" contents;
      }
    ]
unfolding parse_cpu_stat
parse_cpu_stat_lem usage contents = elim (Option-cases (parse_uint (trim_newlines usage))) [
  | inl e ↦ ground arith
  | inr (n, e) ↦ ground (arith, get-scan_cpu n contents)
]
