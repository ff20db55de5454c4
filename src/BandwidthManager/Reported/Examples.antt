-- ===== src/BandwidthManager/Reported/Examples.antt =====
-- linux_backend/bandwidth_manager/bandwidth_manager.go on two lines of tc.
use warden_linux.BandwidthManager.Printed.{plain, kilo, mega, tbf_line, police_line}
use warden_linux.BandwidthManager.Reported.{Shown, number, shown, get_limits-shown}
use warden_linux.BandwidthManager.Tokens.{lacks, differ}
use warden_linux.BandwidthManager.{get_limits}
use warden_linux.Base.{◌≡◌, refl, Bool, true, false, ok, [], if◌then◌else◌, arith}
use warden_linux.System.{System}
use warden_linux.Text.{◌<>◌}

abbrev incoming : Shown
incoming = record {
  before = "";
  first_digit = "8";
  digits = "00a";
  rate = 8;
  rate_unit = mega;
  burst = 64;
  burst_unit = kilo;
  behind = " lat 24.4ms\nqdisc ingress ffff: parent ffff:fff1 ----------------\n";
}

abbrev outgoing : Shown
outgoing = record {
  before =
      "filter protocol ip pref 1 u32\nfilter protocol ip pref 1 u32 fh 800: ht divisor 1\n match 00000000/00000000 at 12\n ";
  first_digit = "1";
  digits = "0";
  rate = 8192;
  rate_unit = plain;
  burst = 64;
  burst_unit = kilo;
  behind = " mtu 2Kb action drop overhead 0b\nref 1 bind 1\n";
}

-- The first command asks for the egress, the second for the ingress.
abbrev tc : System Bool
tc = record {
  search_path = "/bin";
  run = λ cmd w. (ok tt, w);
  start = λ cmd w. (ok tt, w);
  kill = λ cmd w. w;
  interrupt = λ cmd w. w;
  output = λ cmd second. (
    ok (
        if second
        then outgoing.before <> police_line (number outgoing) (shown outgoing)
        else incoming.before <> tbf_line (number incoming) 2 (shown incoming)),
    true,
  );
  pipe = λ cmd w. (ok "", w);
  read_file = λ file w. (ok "", w);
  write_file = λ file text w. (ok tt, w);
  mkdir_all = λ path w. (ok tt, w);
  remove_all = λ path w. w;
  exists = λ path w. true;
  read_dir = λ path w. (ok [], w);
}

get_limits-shown_example :
    get_limits tc "/depot/a" "a" false
    ≡ (ok (record { in_rate = 1026; in_burst = 65536; out_rate = 1024; out_burst = 65536 }), true)
unfolding lacks differ
get_limits-shown_example =
    get_limits-shown tc "/depot/a" "a" false true true 2 incoming outgoing refl refl
      (record {
        words_first = refl;
        is_hexadecimal = refl;
        rate_fits = omega arith;
        burst_fits = omega arith;
      })
      (record {
        words_first = refl;
        is_hexadecimal = refl;
        rate_fits = omega arith;
        burst_fits = omega arith;
      })
