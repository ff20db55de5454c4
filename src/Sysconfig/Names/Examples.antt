-- ===== src/Sysconfig/Names/Examples.antt =====
-- The names of two servers with the tags 1 and 2.
use text.Mathlib.TextEquality.{eq_iff}
use warden_linux.Base.{◌≡◌, ◌≢◌, refl, arith, false, String}
use warden_linux.Sysconfig.Names.{Differ, environ-Differ}
use warden_linux.Sysconfig.{new_config, environ}
use warden_linux.Text.{◌===◌}

one_is_not_two : ("1" === "2") ≡ false
one_is_not_two = refl

differ : ◌≢◌ {A = String} "1" "2"
differ e = ground (arith, e, one_is_not_two, eq_iff "1" "2")

environ-Differ_example : Differ (environ (new_config "1")) (environ (new_config "2"))
environ-Differ_example = environ-Differ "1" "2" differ
