-- ===== src/QuotaManager/Report/Examples.antt =====
-- linux_backend/quota_manager/quota_manager.go on a row with 5 GiB of used bytes.
use warden_linux.Base.{◌≡◌, refl, true, some, ok, err, arith}
use warden_linux.Examples.{sys_with}
use warden_linux.QuotaManager.Report.Rows.{Quota, Fits, row, get_limits-row}
use warden_linux.QuotaManager.Report.{get_limits}
use warden_linux.QuotaManager.{QuotaManager}
use warden_linux.System.{Error, System}

abbrev five_gib : Quota
five_gib = record {
  uid = 10000;
  curspace = 5368709120;
  bsoftlimit = 0;
  bhardlimit = 10485760;
  btime = 0;
  curinodes = 12;
  isoftlimit = 0;
  ihardlimit = 500;
  itime = 0;
}

abbrev small_numbers : Fits five_gib
small_numbers = record {
  uid_fits = omega arith;
  bsoftlimit_fits = omega arith;
  bhardlimit_fits = omega arith;
  btime_fits = omega arith;
  curinodes_fits = omega arith;
  isoftlimit_fits = omega arith;
  ihardlimit_fits = omega arith;
}

abbrev quotas : QuotaManager
quotas = record { enabled = true; bin_path = "/warden/bin"; mount_point = "/" }

abbrev prints : System (Unit {0})
prints = record (sys_with (ok tt)) { pipe = λ cmd w. (ok (row five_gib), w) }

get_limits-row_example : get_limits prints quotas 10000 tt ≡ some (err (Error.os "fscanf"), tt)
get_limits-row_example = get_limits-row prints quotas 10000 five_gib tt tt refl refl small_numbers
