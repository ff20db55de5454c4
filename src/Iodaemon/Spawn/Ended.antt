-- ===== src/Iodaemon/Spawn/Ended.antt =====
-- How the daemon of a process ends, of iodaemon/spawn.go, and what then becomes of its status, of
-- iodaemon/link.go and linux_backend/process_tracker/process.go.
use Prim.Native.Char.{Char, code}
use text.Mathlib.TextLemmas.{nil-append, cons-append}
use mathlib.Core.Path.{subst}
use warden_linux.Base.{
  ◌≡◌, refl, ap, sym, ◌∙◌, ℕ, pos, ◌+◌, ◌-◌, ◌*◌, ◌^◌, ◌<◌, ◌≤◌, ◌&&◌, Bool, true, false, List,
  String, some, ok, err, Result, arith,
}
use warden_linux.Iodaemon.{
  Input, status_line, take_digits, scan_unsigned, positive, line_of, scan_status, link_end, os_exit,
}
use warden_linux.Iodaemon.Spawn.{
  Daemon, ended, accepting, serving, is_ended, new, rights_open, accept, receive, hang_up,
  child_exit, Quiet, connects, accept_fails, hangs_up, stops_reading, exits, Run, stop, quiet,
  takes,
}
use warden_linux.Process.Progress.{wait-link_ended, Step-link_exited}
use warden_linux.Process.{WindowSize}
use warden_linux.Process
use warden_linux.Process.{Process, Steps, here, then, exits, finished}
use warden_linux.QuotaManager.Report.{skip_spaces}
use warden_linux.System.{Error, WaitStatus, exited, signaled, exit_status}
use warden_linux.Text.{◌<>◌, decimal, decimal_int}
use warden_linux.Text.Decimal.{Spells, Spells-decimal, decimal-cons, decimal-one}

-- Nothing is written to the status pipe before the daemon ends.
Silent : Daemon → Type 0
Silent d = is_ended d.phase ≡ false → d.status ≡ ""

Quiet-Silent : {d e : Daemon} → Quiet d e → Silent d → Silent e
unfolding Silent accept hang_up child_exit
Quiet-Silent (connects sent (ok done) d p) v = ground (arith, v)
Quiet-Silent (connects sent (err e) d p) v = ground (arith, v)
Quiet-Silent (accept_fails d p) v = ground (arith, v)
Quiet-Silent (hangs_up d p) v = ground (arith, v)
Quiet-Silent (stops_reading d) v = ground (arith, v)
Quiet-Silent (exits status d p q) v = ground (arith, v)

receive-Silent : (i : Input) (d : Daemon) → d.phase ≡ serving → Silent d → Silent (receive i d)
unfolding Silent receive
receive-Silent i d p v = ground (arith, v)

Run-Silent : {d e : Daemon} {is : List Input} → Run d is e → Silent d → Silent e
Run-Silent stop v = v
Run-Silent (quiet q r) v = Run-Silent r (Quiet-Silent q v)
Run-Silent (takes {d} i p r) v = Run-Silent r (receive-Silent i d p v)

new-Silent : (with_tty : Bool) (window : WindowSize) → Silent (new with_tty window)
unfolding Silent new
new-Silent with_tty window h = refl

Silent-status : (d : Daemon) → d.phase ≡ accepting → Silent d → d.status ≡ ""
unfolding Silent
Silent-status d at v = v (ground arith)

Quiet-ended :
    {d e : Daemon}
    → Quiet d e
    → (k : ℕ) → d.phase ≡ ended k
    → (e.phase ≡ ended k) × (e.status ≡ d.status)
unfolding accept hang_up child_exit
Quiet-ended (connects sent start d p) k h = absurd (ground arith)
Quiet-ended (accept_fails d p) k h = absurd (ground arith)
Quiet-ended (hangs_up d p) k h = absurd (ground arith)
Quiet-ended (stops_reading d) k h = ground arith
Quiet-ended (exits status d p q) k h = absurd (ground arith)

Run-ended :
    {d e : Daemon} {is : List Input}
    → Run d is e
    → (k : ℕ) → d.phase ≡ ended k
    → (e.phase ≡ ended k) × (e.status ≡ d.status)
Run-ended stop k h = (h, refl)
Run-ended (quiet q r) k h =
    let s = Quiet-ended q k h in let t = Run-ended r k s.0 in (t.0, t.1 ∙ s.1)
Run-ended (takes i p r) k h = absurd (ground arith)

accept-refused :
    (sent : Bool) (start : Result Error (Unit {0})) (d : Daemon)
    → (sent && rights_open d) ≡ false
    → (accept sent start d).phase ≡ ended 0 × ((accept sent start d).status ≡ d.status)
unfolding accept
accept-refused sent start d h = ground arith

link_end-nil : link_end "" ≡ exited 1
unfolding link_end scan_status skip_spaces
link_end-nil = refl

-- Where a link has gone before it was given the descriptors, or where they cannot be given since a
-- terminal's input was ended by an earlier link, the daemon ends, also when its process runs.
-- Whatever follows, no status is ever written, and a link that has the status pipe ends with 1, as if
-- the process had.
pub link_end-refused :
    (with_tty : Bool) (window : WindowSize) (sent : Bool) (start : Result Error (Unit {0}))
    {is js : List Input} {d e : Daemon}
    → Run (new with_tty window) is d
    → d.phase ≡ accepting
    → (sent && rights_open d) ≡ false
    → Run (accept sent start d) js e
    → (e.phase ≡ ended 0) × (link_end e.status ≡ exited 1)
link_end-refused with_tty window sent start {d = d} r at h later =
    let silent : Silent d = Run-Silent r (new-Silent with_tty window) in
    let refused = accept-refused sent start d h in
    let after = Run-ended later 0 refused.0 in
    let nothing = after.1 ∙ refused.1 ∙ Silent-status d at silent in
    (after.0, ap link_end nothing ∙ link_end-nil)

take_digits-line :
    (acc n : ℕ) (s : String) → Spells acc n s → take_digits acc (s <> "\n") ≡ (n, "\n")
unfolding take_digits
take_digits-line acc n String.[] h = ground (arith, h, nil-append "\n")
take_digits-line acc n (String.◌∷◌ c s) h =
    ground (arith, cons-append c s "\n", take_digits-line (acc * 10 + (code c - 48)) n s h.2)

scan_unsigned-digit :
    (bound : ℕ) (c : Char) (s : String)
    → 48 ≤ code c
    → code c ≤ 57
    → scan_unsigned bound (String.◌∷◌ c s) ≡ line_of bound (take_digits 0 (String.◌∷◌ c s))
scan_unsigned-digit bound c s l u = ground arith

line_of-line : (bound n : ℕ) → n < bound → line_of bound (n, "\n") ≡ some n
line_of-line bound n b = ground arith

scan_unsigned-line :
    (bound n : ℕ) (c : Char) (s : String)
    → Spells 0 n (String.◌∷◌ c s)
    → n < bound
    → scan_unsigned bound (String.◌∷◌ c s <> "\n") ≡ some n
scan_unsigned-line bound n c s h b =
    ap (scan_unsigned bound) (cons-append c s "\n")
    ∙ scan_unsigned-digit bound c (s <> "\n") h.0 h.1
    ∙ ap (λ t. line_of bound (take_digits 0 t)) (sym (cons-append c s "\n"))
    ∙ ap (line_of bound) (take_digits-line 0 n (String.◌∷◌ c s) h)
    ∙ line_of-line bound n b

scan_status-digit :
    (c : Char) (s : String)
    → 48 ≤ code c
    → code c ≤ 57
    → scan_status (String.◌∷◌ c s) ≡ positive (scan_unsigned (2 ^ 63) (String.◌∷◌ c s))
unfolding scan_status skip_spaces
scan_status-digit c s l u = ground arith

scan_status-line :
    (n : ℕ) (c : Char) (s : String)
    → Spells 0 n (String.◌∷◌ c s)
    → n < 2 ^ 63
    → scan_status (String.◌∷◌ c s <> "\n") ≡ some (pos n)
scan_status-line n c s h b =
    ap scan_status (cons-append c s "\n")
    ∙ scan_status-digit c (s <> "\n") h.0 h.1
    ∙ ap (λ t. positive (scan_unsigned (2 ^ 63) t)) (sym (cons-append c s "\n"))
    ∙ ap positive (scan_unsigned-line (2 ^ 63) n c s h b)

scan_status-decimal : (n : ℕ) → n < 2 ^ 63 → scan_status (decimal n <> "\n") ≡ some (pos n)
scan_status-decimal n b =
    let (c, s, e) = decimal-cons n in
    ap (λ t. scan_status (t <> "\n")) e
    ∙ scan_status-line n c s (subst (Spells 0 n) e (Spells-decimal n)) b

-- A valid wait status of a process that has ended by itself holds a byte.
abbrev pub IsStatus : WaitStatus → Type 0
IsStatus (exited status) = status < 256
IsStatus (signaled signal) = Unit {0}

-- What a client is told of a process that has ended: its status, and 255 where a signal killed it.
abbrev pub reported : WaitStatus → ℕ
reported (exited status) = status
reported (signaled signal) = 255

killed : link_end "-1\n" ≡ exited 255
unfolding link_end scan_status skip_spaces take_digits os_exit
killed = refl

link_end-status_line :
    (s : WaitStatus) → IsStatus s → link_end (status_line (some s)) ≡ exited (reported s)
unfolding link_end status_line os_exit decimal_int
link_end-status_line (exited status) h = ground (arith, scan_status-decimal status (omega arith))
link_end-status_line (signaled signal) h =
    ap (λ t. link_end (("-" <> t) <> "\n")) decimal-one ∙ killed

-- The process behind the exit of its link, which ends with what it read from the status pipe.
abbrev pub after_exit : Daemon → WaitStatus → Process → Process
after_exit d s p =
    let status = some (link_end (child_exit (some s) d).status) in
    Process.link_ended status (Process.link_exited status p)

-- The status of a process comes from the daemon through the pipe, the exit of the link, and the
-- linker, to those who wait: with a link that runs, and that nobody has interrupted, Wait returns the
-- status with which the process ended, and 255 where a signal killed it.
pub wait-child_exit :
    (id : ℕ) (with_tty : Bool) (d : Daemon) (s : WaitStatus) {p : Process}
    → Steps (Process.new id with_tty) p
    → p.phase ≡ Process.Phase.running
    → p.unlinked ≡ true
    → IsStatus s
    → Steps p (after_exit d s p)
      × (Process.wait (after_exit d s p) ≡ some (finished (pos (reported s))))
unfolding child_exit
wait-child_exit id with_tty d s {p} reached at u h =
    let w = link_end (status_line (some s)) in
    let exited_link = Step-link_exited (some w) p at u in
    let ended_link =
      wait-link_ended id with_tty (some w) ((then) reached exited_link.0) exited_link.1
        exited_link.2 in
    (
      (then) ((then) here exited_link.0) ended_link.0,
      ended_link.1 ∙ ap (λ t. some (finished (exit_status t))) (link_end-status_line s h),
    )
