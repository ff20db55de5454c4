-- ===== src/ContainerPool/Ids/Distinct.antt =====
-- Numbers and the ids that are spelled from them, of container_pool.go.
use Prim.Native.Char.{Char, code}
use warden_linux.Base.{
  ℕ, zero, suc, ◌+◌, ◌-◌, ◌*◌, ◌%◌, ◌^◌, ◌<◌, ◌≡◌, refl, ap, sym, ◌∙◌, Bool, true, ◌&&◌, ◌==◌, leb,
  String, List, [], ◌∷◌, arith, if◌then◌else◌, ==_iff, ◌↔◌,
}
use warden_linux.ContainerPool.Ids.{alphabet, char_at_or, groups, spell, container_id}

-- The digit that a character stands for.
index : Char → ℕ
index c = if leb (code c) 57 then code c - 48 else code c - 87

all_below : ℕ → (ℕ → Bool) → Bool
all_below zero f = true
all_below (suc n) f = f n && all_below n f

all_below-each : (n : ℕ) (f : ℕ → Bool) → all_below n f ≡ true → (d : ℕ) → d < n → f d ≡ true
unfolding all_below
all_below-each zero f all d h = absurd (omega arith)
all_below-each (suc n) f all d h = ground (arith, all_below-each n f _ d)

all-index-char : all_below 32 (λ n. index (char_at_or "0" alphabet n) == n) ≡ true
unfolding all_below index char_at_or
all-index-char = refl

index-char : (d : ℕ) → d < 32 → index (char_at_or "0" alphabet d) ≡ d
index-char d h =
    (==_iff (index (char_at_or "0" alphabet d)) d).0
      (all_below-each 32 (λ n. index (char_at_or "0" alphabet n) == n) all-index-char d h)

unspell : String → List ℕ
unspell String.[] = []
unspell (String.◌∷◌ c s) = index c ∷ unspell s

AllSmall : List ℕ → Type 0
AllSmall [] = Unit {0}
AllSmall (d ∷ ds) = (d < 32) × AllSmall ds

unspell-spell : (ds : List ℕ) → AllSmall ds → unspell (spell ds) ≡ ds
unfolding AllSmall spell unspell
unspell-spell [] a = refl
unspell-spell (d ∷ ds) a = ground (arith, index-char d a.0, unspell-spell ds a.1)

AllSmall-groups : (k num : ℕ) → AllSmall (groups k num)
unfolding AllSmall groups
AllSmall-groups zero num = tt
AllSmall-groups (suc k) num = (omega arith, AllSmall-groups k num)

-- The number that the groups stand for.
value : List ℕ → ℕ → ℕ
value [] k = 0
value (d ∷ ds) zero = 0
value (d ∷ ds) (suc k) = d * 2 ^ (5 * k) + value ds k

value-groups : (num : ℕ) → value (groups 11 num) 11 ≡ num % 2 ^ 55
unfolding value groups
value-groups num = omega arith

groups-low : (num : ℕ) → groups 11 num ≡ groups 11 (num % 2 ^ 55)
unfolding groups
groups-low num = ground arith

unspell-container_id : (num : ℕ) → unspell (container_id num) ≡ groups 11 num
unfolding container_id
unspell-container_id num = unspell-spell (groups 11 num) (AllSmall-groups 11 num)

container_id-low : (num : ℕ) → container_id num ≡ container_id (num % 2 ^ 55)
unfolding container_id
container_id-low num = ap spell (groups-low num)

-- Two numbers have the same id only if they agree in their low 55 bits: the ids of 2 ^ 55 numbers in
-- a row all differ; and they have the same id if they do.
pub container_id_iff : (a b : ℕ) → (container_id a ≡ container_id b) ↔ (a % 2 ^ 55 ≡ b % 2 ^ 55)
container_id_iff a b = (
  λ same.
      rw (← value-groups a, ← value-groups b)
        (ap (λ ds. value ds 11)
          (sym (unspell-container_id a) ∙ ap unspell same ∙ unspell-container_id b)),
  λ same. container_id-low a ∙ ap container_id same ∙ sym (container_id-low b),
)
