-- ===== src/Iodaemon.antt =====
-- iodaemon/input.go and iodaemon/link.go: what a link sends to the daemon of its process, and the
-- status that it ends with. A connection is a parameter: `encode` is the Encode of a gob.Encoder on
-- it.
pub mod Spawn
pub mod Flags
use Prim.Native.Char.{code}
use warden_linux.Base.{
  ℕ, ℤ, pos, negsuc, suc, zero, ◌+◌, ◌-◌, ◌*◌, ◌%◌, ◌^◌, ◌&&◌, ◌||◌, Bool, true, false, List, [],
  ◌∷◌, String, Option, none, some, ltb, leb, ◌==◌, if◌then◌else◌, Exec, Result, ok, err, ◌>>=◌,
  ◌>>◌, pure, ignore,
}
use warden_linux.Process.{WindowSize}
use warden_linux.QuotaManager.Report.{skip_spaces}
use warden_linux.System.{Error, WaitStatus, exited, exit_status}
use warden_linux.Text.{◌<>◌, decimal_int}

-- Input. WindowSize has the fields of warden.WindowSize.
pub record Input : Type 0 where
  pub chunk : String
  pub eof : Bool
  pub window_size : Option WindowSize

abbrev pub data_input : String → Input
data_input chunk = record { chunk = chunk; eof = false; window_size = none }

abbrev pub eof_input : Input
eof_input = record { chunk = ""; eof = true; window_size = none }

pub size : String → ℕ
size String.[] = 0
size (String.◌∷◌ c s) = suc (size s)

module _ {W : Type 0} (encode : Input → Exec W Error (Unit {0})) where
  -- The methods of inputWriter.
  pub write : String → Exec W Error ℕ
  unfolding size
  write chunk = encode (data_input chunk) >> pure (size chunk)

  pub close : Exec W Error (Unit {0})
  close = encode eof_input

  pub set_window_size : ℤ → ℤ → Exec W Error (Unit {0})
  set_window_size cols rows = encode (record {
    chunk = "";
    eof = false;
    window_size = some (record { columns = cols; rows = rows });
  })

  -- io.Copy(inputWriter, os.Stdin), where the input is read in these chunks.
  pub copy : List String → Exec W Error (Unit {0})
  unfolding write
  copy [] = pure tt
  copy (chunk ∷ rest) = do
    n ← write chunk
    λ w. if n == size chunk then copy rest w else (err (Error.os "short write"), w)

  -- The goroutine of a link that copies its input, and closes the process's at the end.
  pub copy_stdin : List String → Exec W Error (Unit {0})
  unfolding copy close
  copy_stdin chunks = ignore (copy chunks) close

  -- The goroutine that waits for SIGWINCH, at one signal, with what Getsize returns of the input.
  unfoldable pub resized : Result Error WindowSize → Exec W Error (Unit {0})
  unfolding set_window_size
  resized (ok size) = ignore (set_window_size size.columns size.rows) (pure tt)
  resized (err e) = pure tt

-- What spawn writes to the status pipe when its child has ended, with the status in ProcessState, if
-- that is set.
pub status_line : Option WaitStatus → String
unfolding decimal_int
status_line none = "255\n"
status_line (some status) = decimal_int (exit_status status) <> "\n"

abbrev pub is_digit : ℕ → Bool
is_digit c = leb 48 c && leb c 57

-- The number that the first digits spell, behind those of `n`, and the text behind them.
pub take_digits : ℕ → String → ℕ × String
take_digits n String.[] = (n, String.[])
take_digits n (String.◌∷◌ c s) =
    let more = take_digits (n * 10 + (code c - 48)) s in
    if is_digit (code c) then more else (n, String.◌∷◌ c s)

abbrev pub ends_line : String → Bool
ends_line String.[] = true
ends_line (String.◌∷◌ c s) = code c == 10

abbrev pub line_of : ℕ → ℕ × String → Option ℕ
line_of bound (n, rest) = if ltb n bound && ends_line rest then some n else none

abbrev pub scan_unsigned : ℕ → String → Option ℕ
scan_unsigned bound String.[] = none
scan_unsigned bound (String.◌∷◌ c s) =
    if is_digit (code c) then line_of bound (take_digits 0 (String.◌∷◌ c s)) else none

abbrev pub negated : Option ℕ → Option ℤ
negated none = none
negated (some zero) = some (pos 0)
negated (some (suc n)) = some (negsuc n)

abbrev pub positive : Option ℕ → Option ℤ
positive none = none
positive (some n) = some (pos n)

abbrev pub scan_signed : String → Option ℤ
scan_signed String.[] = none
scan_signed (String.◌∷◌ c s) =
    if code c == 45
    then negated (scan_unsigned (2 ^ 63 + 1) s)
    else if code c == 43
    then positive (scan_unsigned (2 ^ 63) s)
    else positive (scan_unsigned (2 ^ 63) (String.◌∷◌ c s))

-- fmt.Fscanf(status, "%d\n", &exitStatus), on what was written to a pipe that is then closed.
pub scan_status : String → Option ℤ
unfolding skip_spaces take_digits
scan_status s = scan_signed (skip_spaces s)

-- os.Exit, of which the system keeps a byte.
pub os_exit : ℤ → WaitStatus
os_exit (pos n) = exited (n % 256)
os_exit (negsuc n) = exited (255 - n % 256)

-- How a link ends, once its streams are closed: log.Fatalln exits with 1.
pub link_end : String → WaitStatus
unfolding scan_status os_exit
link_end text = elim (scan_status text) [ none ↦ exited 1 | some status ↦ os_exit status ]
