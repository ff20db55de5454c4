-- ===== src/Container/Stats.antt =====
-- parseMemoryStat and parseCPUStat of linux_backend/linux_container.go.
pub mod Scanned
pub mod Examples
use Prim.Native.Char.{Char, code}
use warden_linux.Base.{
  ℕ, Bool, true, false, List, [], ◌∷◌, String, Option, none, some, if◌then◌else◌, ◌==◌, ◌||◌, ◌&&◌,
  leb,
}
use warden_linux.CgroupsManager.{trim_newlines}
use warden_linux.Text.{◌===◌, parse_uint}

-- The fields of warden.ContainerMemoryStat.
pub data MemoryField : Type 0 where
  cache rss mapped_file pgpgin pgpgout swap pgfault pgmajfault inactive_anon active_anon
        inactive_file active_file unevictable hierarchical_memory_limit hierarchical_memsw_limit
        total_cache total_rss total_mapped_file total_pgpgin total_pgpgout total_swap total_pgfault
        total_pgmajfault total_inactive_anon total_active_anon total_inactive_file total_active_file
        total_unevictable :
      MemoryField

-- The struct, whose fields are all uint64.
abbrev pub MemoryStat : Type 0
MemoryStat = MemoryField → ℕ

-- warden.ContainerCPUStat
pub record CpuStat : Type 0 where
  pub usage : ℕ
  pub user : ℕ
  pub system : ℕ

-- The spaces of an ASCII text.
abbrev is_space : Char → Bool
is_space c = code c == 32 || (leb 9 (code c) && leb (code c) 13)

abbrev add_word : String × List String → List String
add_word (w, ws) = if w === "" then ws else w ∷ ws

abbrev add_char : Char → String × List String → String × List String
add_char c (w, ws) = if is_space c then ("", add_word (w, ws)) else (String.◌∷◌ c w, ws)

-- The characters before the first space, and the words behind it.
split_word : String → String × List String
split_word String.[] = ("", [])
split_word (String.◌∷◌ c s) = add_char c (split_word s)

-- What a scanner split by bufio.ScanWords gives.
pub words : String → List String
unfolding split_word
words s = add_word (split_word s)

module _ {S : Type 0} (assign : String → ℕ → S → S) where
  abbrev pub assign_parsed : String → Option ℕ → S → S
  assign_parsed field none stat = stat
  assign_parsed field (some value) stat = assign field value stat

  -- The loop of both functions: two words in each round.
  unfoldable pub scan : List String → S → S
  scan [] stat = stat
  scan (field ∷ []) stat = stat
  scan (field ∷ text ∷ rest) stat = scan rest (assign_parsed field (parse_uint text) stat)

-- The place of a field in the struct.
unfoldable pub place : MemoryField → ℕ
place cache = 0
place rss = 1
place mapped_file = 2
place pgpgin = 3
place pgpgout = 4
place swap = 5
place pgfault = 6
place pgmajfault = 7
place inactive_anon = 8
place active_anon = 9
place inactive_file = 10
place active_file = 11
place unevictable = 12
place hierarchical_memory_limit = 13
place hierarchical_memsw_limit = 14
place total_cache = 15
place total_rss = 16
place total_mapped_file = 17
place total_pgpgin = 18
place total_pgpgout = 19
place total_swap = 20
place total_pgfault = 21
place total_pgmajfault = 22
place total_inactive_anon = 23
place total_active_anon = 24
place total_inactive_file = 25
place total_active_file = 26
place total_unevictable = 27

-- An assignment to one field of the struct.
pub assign_field : MemoryField → ℕ → MemoryStat → MemoryStat
unfolding place
assign_field field value stat = λ f. if place field == place f then value else stat f

-- The cases of the switch, with the fields that they assign to.
unfoldable pub cases : List (String × MemoryField)
cases =
    ("cache", cache)
    ∷ ("rss", rss)
    ∷ ("mapped_file", mapped_file)
    ∷ ("pgpgin", pgpgin)
    ∷ ("pgpgout", pgpgout)
    ∷ ("swap", swap)
    ∷ ("pgfault", pgfault)
    ∷ ("pgmajfault", pgmajfault)
    ∷ ("inactive_anon", inactive_anon)
    ∷ ("active_anon", active_anon)
    ∷ ("inactive_file", inactive_file)
    ∷ ("active_file", active_file)
    ∷ ("unevictable", unevictable)
    ∷ ("hierarchical_memory_limit", hierarchical_memory_limit)
    ∷ ("hierarchical_memsw_limit", hierarchical_memsw_limit)
    ∷ ("total_cache", total_cache)
    ∷ ("total_rss", total_rss)
    ∷ ("total_mapped_file", total_mapped_file)
    ∷ ("total_pgpgin", total_pgpgin)
    ∷ ("total_pgpgout", total_pgpgout)
    ∷ ("total_swap", total_swap)
    ∷ ("total_pgfault", total_pgfault)
    ∷ ("total_pgmajfault", total_pgmajfault)
    ∷ ("total_inactive_anon", total_inactive_anon)
    ∷ ("total_active_anon", total_active_anon)
    ∷ ("total_inactive_file", total_inactive_file)
    ∷ ("total_active_file", total_active_file)
    ∷ ("total_unevictable", total_unevictable)
    ∷ []

-- A switch: the first case that is the text.
unfoldable pub case_of : String → List (String × MemoryField) → Option MemoryField
case_of field [] = none
case_of field ((name, f) ∷ rest) =
    let later = case_of field rest in if field === name then some f else later

-- A field of another name changes nothing.
abbrev pub assign_case : Option MemoryField → ℕ → MemoryStat → MemoryStat
assign_case none value stat = stat
assign_case (some f) value stat = assign_field f value stat

pub set_memory : String → ℕ → MemoryStat → MemoryStat
unfolding cases case_of
set_memory field value stat = assign_case (case_of field cases) value stat

pub parse_memory_stat : String → MemoryStat
unfolding words set_memory
parse_memory_stat contents = scan set_memory (words contents) (λ f. 0)

pub set_cpu : String → ℕ → CpuStat → CpuStat
set_cpu field value stat =
    if field === "user"
    then record stat { user = value }
    else if field === "system"
    then record stat { system = value }
    else stat

pub parse_cpu_stat : String → String → CpuStat
unfolding words set_cpu
parse_cpu_stat usage contents = elim (parse_uint (trim_newlines usage)) [
  | none ↦ record { usage = 0; user = 0; system = 0 }
  | some n ↦ scan set_cpu (words contents) (record { usage = n; user = 0; system = 0 })
]
