-- ===== src/QuotaManager/Blocks.antt =====
-- Limits in bytes and in blocks, of linux_backend/quota_manager/quota_manager.go.
use warden_linux.Base.{ℕ, ◌+◌, ◌*◌, ◌≤◌, ◌<◌, arith, u64_mod}
use warden_linux.QuotaManager.{to_blocks, quota_block_size}

-- The blocks that a limit in bytes is turned into are the fewest that hold that many bytes, as
-- long as the sum that rounds up does not wrap.
pub to_blocks_least :
    (bytes : ℕ)
    → bytes + 1024 ≤ u64_mod
    → (bytes ≤ to_blocks bytes * quota_block_size)
      × (to_blocks bytes * quota_block_size < bytes + quota_block_size)
unfolding to_blocks
to_blocks_least bytes h = ground arith
