-- ===== src/ContainerPool/Ids.antt =====
-- generateContainerIDs of linux_backend/container_pool/container_pool.go. Each call of the channel
-- takes the id of the next number. A number is the low 64 bits of the counter.
pub mod Distinct
pub mod Examples
use Prim.Native.Char.{Char}
use warden_linux.Base.{ℕ, zero, suc, ◌*◌, ◌/◌, ◌%◌, ◌^◌, String, List, [], ◌∷◌}

-- The digits of strconv.AppendInt(…, 32), one of which each shift and mask leaves.
abbrev pub alphabet : String
alphabet = "0123456789abcdefghijklmnopqrstuv"

pub char_at_or : Char → String → ℕ → Char
char_at_or c String.[] n = c
char_at_or c (String.◌∷◌ d s) zero = d
char_at_or c (String.◌∷◌ d s) (suc n) = char_at_or c s n

-- The eleven groups of five bits of the low 55, the highest first: `(num >> (55-(i+1)*5)) & 31`.
pub groups : ℕ → ℕ → List ℕ
groups zero num = []
groups (suc k) num = (num / 2 ^ (5 * k) % 32) ∷ groups k num

pub spell : List ℕ → String
unfolding char_at_or
spell [] = ""
spell (d ∷ ds) = String.◌∷◌ (char_at_or "0" alphabet d) (spell ds)

pub container_id : ℕ → String
unfolding groups spell
container_id num = spell (groups 11 num)
