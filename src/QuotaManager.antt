-- ===== src/QuotaManager.antt =====
-- linux_backend/quota_manager/quota_manager.go: disk quotas by user id.
pub mod Blocks
pub mod Report
use warden_linux.Base.{
  ℕ, ◌+◌, ◌-◌, ◌/◌, ◌%◌, Bool, true, false, String, ok, Exec, List, [], ◌∷◌, ◌==◌, if◌then◌else◌,
  pure, u64_mod, ◌>>=◌,
}
use warden_linux.CgroupsManager.{trim_newlines}
use warden_linux.Container.{DiskLimits}
use warden_linux.System.{Cmd, Error, System}
use warden_linux.Text.{decimal, split_on}

pub record QuotaManager : Type 0 where
  pub enabled : Bool
  pub bin_path : String
  pub mount_point : String

abbrev pub quota_block_size : ℕ
quota_block_size = 1024

-- The last of the words, of which there is always one.
pub last_word : List String → String
last_word [] = ""
last_word (w ∷ []) = w
last_word (w ∷ v ∷ rest) = last_word (v ∷ rest)

pub df_cmd : String → Cmd
df_cmd container_depot_path = record {
  path = "df";
  args = "-P" ∷ container_depot_path ∷ [];
  env = [];
}

-- New
unfoldable pub new : {W : Type 0} → System W → String → String → Exec W Error QuotaManager
unfolding last_word df_cmd
new sys container_depot_path bin_path = do
  df_out ← sys.output (df_cmd container_depot_path)
  pure (record {
    enabled = true;
    bin_path = bin_path;
    mount_point = trim_newlines (last_word (split_on 32 df_out));
  })

pub disable : QuotaManager → QuotaManager
disable m = record m { enabled = false }

-- `(bytes + QUOTA_BLOCK_SIZE - 1) / QUOTA_BLOCK_SIZE` on uint64, from left to right.
pub to_blocks : ℕ → ℕ
to_blocks bytes = ((bytes + quota_block_size) % u64_mod + u64_mod - 1) % u64_mod / quota_block_size

-- The limits that `setquota` is given: a limit in bytes wins over one in blocks.
pub with_blocks : DiskLimits → DiskLimits
unfolding to_blocks
with_blocks l = record l {
  block_soft = if l.byte_soft == 0 then l.block_soft else to_blocks l.byte_soft;
  block_hard = if l.byte_hard == 0 then l.block_hard else to_blocks l.byte_hard;
}

pub setquota_cmd : QuotaManager → ℕ → DiskLimits → Cmd
setquota_cmd m uid l = record {
  path = "setquota";
  args =
      "-u"
      ∷ decimal uid
      ∷ decimal l.block_soft
      ∷ decimal l.block_hard
      ∷ decimal l.inode_soft
      ∷ decimal l.inode_hard
      ∷ m.mount_point
      ∷ [];
  env = [];
}

module _ {W : Type 0} (sys : System W) (m : QuotaManager) where
  pub set_limits : ℕ → DiskLimits → Exec W Error (Unit {0})
  unfolding with_blocks setquota_cmd
  set_limits uid limits w =
      if m.enabled then sys.run (setquota_cmd m uid (with_blocks limits)) w else (ok tt, w)
