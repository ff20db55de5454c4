-- ===== src/QuotaManager/Report/Rows.antt =====
-- The scanners of linux_backend/quota_manager/quota_manager.go on the rows that
-- linux_backend/src/repquota/repquota.c prints.
use warden_linux.Base.{
  ℕ, ◌≤◌, ◌<◌, ◌≡◌, String, some, ok, err, if◌then◌else◌, ltb, ◌⊎◌, inl, inr, true, false, u32_mod,
  u64_mod, arith,
}
use warden_linux.Container.{DiskLimits}
use warden_linux.QuotaManager.{QuotaManager}
use warden_linux.System.{Error, System}
use warden_linux.QuotaManager.Report.{
  scanned, mismatch, scan_limits, scan_usage, repquota_cmd, get_limits, get_usage,
}
use warden_linux.QuotaManager.Report.Columns.{column, first, next, too_big}
use warden_linux.Text.{◌<>◌, decimal}

-- quotactl's answer, as far as it is printed; the sizes of a C `int` and of `unsigned long long`.
pub record Quota : Type 0 where
  pub uid : ℕ
  pub curspace : ℕ
  pub bsoftlimit : ℕ
  pub bhardlimit : ℕ
  pub btime : ℕ
  pub curinodes : ℕ
  pub isoftlimit : ℕ
  pub ihardlimit : ℕ
  pub itime : ℕ

pub row : Quota → String
row q = column q.uid (
    column q.curspace (
      column q.bsoftlimit (
        column q.bhardlimit (
          column q.btime (
            column q.curinodes
              (column q.isoftlimit (column q.ihardlimit (decimal q.itime <> "\n"))))))))

-- The numbers that fit the variables which they are scanned into. `bytes` is left out: GetLimits scans
-- them into 32 bits, GetUsage into 64.
pub record Fits (q : Quota) : Type 0 where
  pub uid_fits : q.uid < u32_mod
  pub bsoftlimit_fits : q.bsoftlimit < u32_mod
  pub bhardlimit_fits : q.bhardlimit < u32_mod
  pub btime_fits : q.btime < u32_mod
  pub curinodes_fits : q.curinodes < u32_mod
  pub isoftlimit_fits : q.isoftlimit < u32_mod
  pub ihardlimit_fits : q.ihardlimit < u32_mod

abbrev pub limits_of : Quota → DiskLimits
limits_of q = record {
  block_soft = q.bsoftlimit;
  block_hard = q.bhardlimit;
  inode_soft = q.isoftlimit;
  inode_hard = q.ihardlimit;
  byte_soft = 0;
  byte_hard = 0;
}

lt_or_le : (a b : ℕ) → (a < b) ⊎ (b ≤ a)
lt_or_le a b = ground arith

ltb-true : (a b : ℕ) → a < b → ltb a b ≡ true
ltb-true a b h = ground arith

ltb-false : (a b : ℕ) → b ≤ a → ltb a b ≡ false
ltb-false a b h = ground arith

module _ (q : Quota) (fits : Fits q) where
  abbrev tail7 : String
  tail7 = decimal q.itime <> "\n"

  abbrev tail6 : String
  tail6 = column q.ihardlimit tail7

  abbrev tail5 : String
  tail5 = column q.isoftlimit tail6

  abbrev tail4 : String
  tail4 = column q.curinodes tail5

  abbrev tail3 : String
  tail3 = column q.btime tail4

  abbrev tail2 : String
  tail2 = column q.bhardlimit tail3

  abbrev tail1 : String
  tail1 = column q.bsoftlimit tail2

  scan_usage-row :
      q.curspace < u64_mod
      → scan_usage (row q)
        ≡ scanned
            (record { bytes_used = q.curspace; inodes_used = q.curinodes }, String.◌∷◌ " " tail7)
  unfolding scan_usage row
  scan_usage-row h = rw (
    first u32_mod q.uid (column q.curspace tail1) fits.uid_fits,
    next u64_mod q.curspace tail1 h,
    next u32_mod q.bsoftlimit tail2 fits.bsoftlimit_fits,
    next u32_mod q.bhardlimit tail3 fits.bhardlimit_fits,
    next u32_mod q.btime tail4 fits.btime_fits,
    next u64_mod q.curinodes tail5 (omega (arith, fits.curinodes_fits)),
    next u32_mod q.isoftlimit tail6 fits.isoftlimit_fits,
    next u32_mod q.ihardlimit tail7 fits.ihardlimit_fits,
  )

  scan_limits-row :
      q.curspace < u32_mod → scan_limits (row q) ≡ scanned (limits_of q, String.◌∷◌ " " tail7)
  unfolding scan_limits row
  scan_limits-row h = rw (
    first u32_mod q.uid (column q.curspace tail1) fits.uid_fits,
    next u32_mod q.curspace tail1 h,
    next u64_mod q.bsoftlimit tail2 (omega (arith, fits.bsoftlimit_fits)),
    next u64_mod q.bhardlimit tail3 (omega (arith, fits.bhardlimit_fits)),
    next u32_mod q.btime tail4 fits.btime_fits,
    next u32_mod q.curinodes tail5 fits.curinodes_fits,
    next u64_mod q.isoftlimit tail6 (omega (arith, fits.isoftlimit_fits)),
    next u64_mod q.ihardlimit tail7 (omega (arith, fits.ihardlimit_fits)),
  )

  scan_limits-row_big : u32_mod ≤ q.curspace → scan_limits (row q) ≡ mismatch
  unfolding scan_limits row
  scan_limits-row_big h = rw (
    first u32_mod q.uid (column q.curspace tail1) fits.uid_fits,
    too_big u32_mod q.curspace tail1 h,
  )

module _ {W : Type 0} (sys : System W) (m : QuotaManager) (uid : ℕ) (q : Quota) (w after : W) where
  -- With quotas enabled, where repquota prints the quota of the user id as its source does and the
  -- numbers fit: GetUsage returns the bytes and the inodes that are used.
  pub get_usage-row :
      m.enabled ≡ true
      → sys.pipe (repquota_cmd m uid) w ≡ (ok (row q), after)
      → Fits q
      → q.curspace < u64_mod
      → get_usage sys m uid w
        ≡ some (ok (record { bytes_used = q.curspace; inodes_used = q.curinodes }), after)
  unfolding get_usage
  get_usage-row e p fits h = rw (e, p, scan_usage-row q fits h)

  -- Where repquota prints the quota as its source does and the numbers fit, GetLimits returns the four
  -- limits, but only while the user has fewer than 2 ^ 32 bytes: the used bytes are scanned into 32
  -- bits, and with more of them it fails.
  pub get_limits-row :
      m.enabled ≡ true
      → sys.pipe (repquota_cmd m uid) w ≡ (ok (row q), after)
      → Fits q
      → get_limits sys m uid w
        ≡ some (if ltb q.curspace u32_mod then ok (limits_of q) else err (Error.os "fscanf"), after)
  unfolding get_limits
  get_limits-row e p fits = elim (lt_or_le q.curspace u32_mod) [
    | inl h ↦ rw (e, p, scan_limits-row q fits h, (ltb-true q.curspace u32_mod h))
    | inr h ↦ rw (e, p, scan_limits-row_big q fits h, (ltb-false q.curspace u32_mod h))
  ]
