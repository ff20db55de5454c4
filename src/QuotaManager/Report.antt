-- ===== src/QuotaManager/Report.antt =====
-- GetLimits and GetUsage of linux_backend/quota_manager/quota_manager.go. The program keeps the write
-- end of the pipe open while it reads, so that there is no end of the text: a scan that comes to the
-- end of what repquota wrote waits for ever. A line break between two numbers is taken for an error.
pub mod Columns
pub mod Rows
pub mod Examples
use Prim.Native.Char.{code}
use warden_linux.Base.{
  ℕ, ◌+◌, ◌-◌, ◌*◌, ◌&&◌, ◌||◌, Bool, true, false, String, Option, none, some, Result, ok, err,
  List, [], ◌∷◌, ◌==◌, leb, ltb, if◌then◌else◌, u32_mod, u64_mod,
}
use warden_linux.Container.{DiskLimits}
use warden_linux.QuotaManager.{QuotaManager}
use warden_linux.System.{Cmd, Error, System}
use warden_linux.Text.{decimal, path_join}

-- warden.ContainerDiskStat
pub record DiskStat : Type 0 where
  pub bytes_used : ℕ
  pub inodes_used : ℕ

pub data Scan (A : Type 0) : Type 0 where
  scanned : A → Scan A
  mismatch blocked : Scan A

abbrev pub Scanner : Type 0 → Type 0
Scanner A = String → Scan (A × String)

module _ {A B : Type 0} where
  abbrev pub continue : Scan (A × String) → (A → Scanner B) → Scan (B × String)
  continue (scanned (a, rest)) next = next a rest
  continue mismatch next = mismatch
  continue blocked next = blocked

  infixl 5 ◌>>=◌
  abbrev pub ◌>>=◌ : Scanner A → (A → Scanner B) → Scanner B
  ◌>>=◌ m next s = continue (m s) next

module _ {A : Type 0} where
  abbrev pub give : A → Scanner A
  give a s = scanned (a, s)

unfoldable pub skip_spaces : String → String
skip_spaces String.[] = String.[]
skip_spaces (String.◌∷◌ c s) = if code c == 32 || code c == 9 then skip_spaces s else String.◌∷◌ c s

-- The digits up to the first other character.
pub scan_digits : ℕ → Scanner ℕ
scan_digits n String.[] = blocked
scan_digits n (String.◌∷◌ c s) =
    let more = scan_digits (n * 10 + (code c - 48)) s in
    if leb 48 (code c) && leb (code c) 57 then more else scanned (n, String.◌∷◌ c s)

abbrev within : ℕ → Scan (ℕ × String) → Scan (ℕ × String)
within bound (scanned (n, rest)) = if ltb n bound then scanned (n, rest) else mismatch
within bound mismatch = mismatch
within bound blocked = blocked

-- At the first character of a number.
abbrev scan_number : ℕ → Scanner ℕ
scan_number bound String.[] = blocked
scan_number bound (String.◌∷◌ c s) =
    if leb 48 (code c) && leb (code c) 57
    then within bound (scan_digits 0 (String.◌∷◌ c s))
    else mismatch

-- `%d` for an unsigned number below `bound`, and the space of the format before it.
pub scan_uint : ℕ → Scanner ℕ
unfolding skip_spaces scan_digits
scan_uint bound s = scan_number bound (skip_spaces s)

pub scan_limits : Scanner DiskLimits
unfolding scan_uint
scan_limits = do
  skip ← scan_uint u32_mod
  skip ← scan_uint u32_mod
  block_soft ← scan_uint u64_mod
  block_hard ← scan_uint u64_mod
  skip ← scan_uint u32_mod
  skip ← scan_uint u32_mod
  inode_soft ← scan_uint u64_mod
  inode_hard ← scan_uint u64_mod
  give (record {
    block_soft = block_soft;
    block_hard = block_hard;
    inode_soft = inode_soft;
    inode_hard = inode_hard;
    byte_soft = 0;
    byte_hard = 0;
  })

pub scan_usage : Scanner DiskStat
unfolding scan_uint
scan_usage = do
  skip ← scan_uint u32_mod
  bytes_used ← scan_uint u64_mod
  skip ← scan_uint u32_mod
  skip ← scan_uint u32_mod
  skip ← scan_uint u32_mod
  inodes_used ← scan_uint u64_mod
  skip ← scan_uint u32_mod
  skip ← scan_uint u32_mod
  give (record { bytes_used = bytes_used; inodes_used = inodes_used })

pub repquota_cmd : QuotaManager → ℕ → Cmd
repquota_cmd m uid = record {
  path = path_join (m.bin_path ∷ "repquota" ∷ []);
  args = m.mount_point ∷ decimal uid ∷ [];
  env = [];
}

module _ {A W : Type 0} where
  -- What the call returns, where it returns.
  abbrev pub scan_result : Scan (A × String) → W → Option (Result Error A × W)
  scan_result (scanned (a, rest)) w = some (ok a, w)
  scan_result mismatch w = some (err (Error.os "fscanf"), w)
  scan_result blocked w = none

  abbrev pub scan_piped : Scanner A → Result Error String → W → Option (Result Error A × W)
  scan_piped scan (err e) w = some (err e, w)
  scan_piped scan (ok text) w = scan_result (scan text) w

module _ {W : Type 0} (sys : System W) (m : QuotaManager) (uid : ℕ) where
  -- `none` is a call that does not return.
  pub get_limits : W → Option (Result Error DiskLimits × W)
  unfolding scan_limits repquota_cmd
  get_limits w =
      if m.enabled
      then (let piped = sys.pipe (repquota_cmd m uid) w in scan_piped scan_limits piped.0 piped.1)
      else some (
        ok (record {
          block_soft = 0;
          block_hard = 0;
          inode_soft = 0;
          inode_hard = 0;
          byte_soft = 0;
          byte_hard = 0;
        }),
        w,
      )

  unfoldable pub get_usage : W → Option (Result Error DiskStat × W)
  unfolding scan_usage repquota_cmd
  get_usage w =
      if m.enabled
      then (let piped = sys.pipe (repquota_cmd m uid) w in scan_piped scan_usage piped.0 piped.1)
      else some (ok (record { bytes_used = 0; inodes_used = 0 }), w)
