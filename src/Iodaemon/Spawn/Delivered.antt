-- ===== src/Iodaemon/Spawn/Delivered.antt =====
-- What the process reads on its input, of iodaemon/link.go and iodaemon/spawn.go.
use mathlib.Core.List.{append-nil, append_assoc}
use warden_linux.Base.{
  ◌≡◌, refl, ap, sym, ◌∙◌, Bool, true, false, List, [], ◌∷◌, ◌++◌, map, String, none, some,
  if◌then◌else◌, ok, err, Exec, arith, ==_refl,
}
use warden_linux.Iodaemon.{Input, data_input, eof_input, size, write, close, copy, copy_stdin}
use warden_linux.Iodaemon.Spawn.{
  Daemon, new, accept, receive, hang_up, child_exit, Quiet, connects, accept_fails, hangs_up,
  stops_reading, exits, Run, stop, quiet, takes,
}
use warden_linux.Process.{WindowSize}
use warden_linux.System.{Error}

-- A connection that takes everything.
abbrev pub append : Input → Exec (List Input) Error (Unit {0})
append i sent = (ok tt, sent ++ i ∷ [])

-- What a link has sent that has copied these chunks so far.
abbrev pub sent_so_far : List String → List Input
sent_so_far chunks = (copy append chunks []).1

-- What a link has sent whose input was these chunks.
abbrev pub sent_by : List String → List Input
sent_by chunks = (copy_stdin append chunks []).1

abbrev pub concat : {A : Type 0} → List (List A) → List A
concat [] = []
concat (xs ∷ xss) = xs ++ concat xss

copy-append :
    (chunks : List String) (sent : List Input)
    → (copy append chunks sent).1 ≡ sent ++ map data_input chunks
unfolding copy write
copy-append [] sent = sym (append-nil sent)
copy-append (chunk ∷ rest) sent = rw (==_refl (size chunk)) (
    copy-append rest (sent ++ data_input chunk ∷ [])
    ∙ append_assoc sent (data_input chunk ∷ []) (map data_input rest))

sent_so_far_lem : (chunks : List String) → sent_so_far chunks ≡ map data_input chunks
sent_so_far_lem chunks = copy-append chunks []

sent_by_lem : (chunks : List String) → sent_by chunks ≡ map data_input chunks ++ eof_input ∷ []
unfolding copy_stdin close
sent_by_lem chunks = ap (λ sent. sent ++ eof_input ∷ []) (copy-append chunks [])

-- The chunks in front of the first end of an input.
abbrev chunks_of : List Input → List String
chunks_of [] = []
chunks_of (i ∷ is) = elim i.window_size [
  | some w ↦ chunks_of is
  | none ↦ if i.eof then [] else i.chunk ∷ chunks_of is
]

abbrev still_open : List Input → Bool
still_open [] = true
still_open (i ∷ is) = elim i.window_size [
  | some w ↦ still_open is
  | none ↦ if i.eof then false else still_open is
]

record SameInput (d e : Daemon) : Type 0 where
  same_stdin : e.stdin ≡ d.stdin
  same_open : e.input_open ≡ d.input_open
  reads_back : e.child_reads ≡ true → d.child_reads ≡ true

Quiet-SameInput : {d e : Daemon} → Quiet d e → SameInput d e
unfolding accept hang_up child_exit
Quiet-SameInput (connects sent (ok done) d p) = ground arith
Quiet-SameInput (connects sent (err e) d p) = ground arith
Quiet-SameInput (accept_fails d p) = ground arith
Quiet-SameInput (hangs_up d p) = ground arith
Quiet-SameInput (stops_reading d) = ground arith
Quiet-SameInput (exits status d p q) = ground arith

receive-reads : (i : Input) (d : Daemon) → (receive i d).child_reads ≡ d.child_reads
unfolding receive
receive-reads i d = ground arith

Run-reads :
    {d e : Daemon} {is : List Input} → Run d is e → e.child_reads ≡ true → d.child_reads ≡ true
Run-reads stop h = h
Run-reads (quiet q r) h = (Quiet-SameInput q).reads_back (Run-reads r h)
Run-reads (takes {d} i p r) h = sym (receive-reads i d) ∙ Run-reads r h

abbrev Reads : Daemon → List Input → Daemon → Type 0
Reads d is e =
    (e.stdin ≡ d.stdin ++ (if d.input_open then chunks_of is else []))
    × (e.input_open ≡ (if d.input_open then still_open is else false))

Reads-receive :
    (i : Input) (is : List Input) (d e : Daemon)
    → d.child_reads ≡ true
    → Reads (receive i d) is e
    → Reads d (i ∷ is) e
unfolding receive
Reads-receive i is d e h r = ground (arith, append_assoc d.stdin (i.chunk ∷ []) (chunks_of is))

Run-Reads : {d e : Daemon} {is : List Input} → Run d is e → e.child_reads ≡ true → Reads d is e
Run-Reads {d} stop h = ground (arith, append-nil d.stdin)
Run-Reads (quiet q r) h =
    let s = Quiet-SameInput q in let t = Run-Reads r h in ground (arith, s.same_stdin, s.same_open)
Run-Reads (takes {d} {e} i {is} p r) h =
    Reads-receive i is d e (sym (receive-reads i d) ∙ Run-reads r h) (Run-Reads r h)

chunks_of-append :
    (chunks : List String) (is : List Input)
    → (chunks_of (map data_input chunks ++ is) ≡ chunks ++ chunks_of is)
      × (still_open (map data_input chunks ++ is) ≡ still_open is)
chunks_of-append [] is = (refl, refl)
chunks_of-append (chunk ∷ rest) is =
    let r = chunks_of-append rest is in (ap (λ cs. chunk ∷ cs) r.0, r.1)

chunks_of-links :
    (earlier : List (List String)) (last : List String)
    → (chunks_of (concat (map sent_so_far earlier) ++ sent_by last) ≡ concat earlier ++ last)
      × (still_open (concat (map sent_so_far earlier) ++ sent_by last) ≡ false)
chunks_of-links [] last =
    let r = chunks_of-append last (eof_input ∷ []) in
    rw (sent_by_lem last) (r.0 ∙ append-nil last, r.1)
chunks_of-links (chunks ∷ earlier) last =
    let rest : List Input = concat (map sent_so_far earlier) ++ sent_by last in
    let r = chunks_of-append chunks rest in
    let ih = chunks_of-links earlier last in
    let e : (concat (map sent_so_far (chunks ∷ earlier)) ++ sent_by last)
        ≡ map data_input chunks ++ rest =
      ap (λ sent. (sent ++ concat (map sent_so_far earlier)) ++ sent_by last)
        (sent_so_far_lem chunks)
      ∙ append_assoc (map data_input chunks) (concat (map sent_so_far earlier)) (sent_by last) in
    (
      ap chunks_of e
          ∙ r.0
          ∙ ap (λ cs. chunks ++ cs) ih.0
          ∙ sym (append_assoc chunks (concat earlier) last),
      ap still_open e ∙ r.1 ∙ ih.1,
    )

-- The inputs that are no sizes of a window.
abbrev pub without_sizes : List Input → List Input
without_sizes [] = []
without_sizes (i ∷ is) = elim i.window_size [
  | some w ↦ without_sizes is
  | none ↦ i ∷ without_sizes is
]

chunks_of-without_sizes :
    (is : List Input)
    → (chunks_of (without_sizes is) ≡ chunks_of is)
      × (still_open (without_sizes is) ≡ still_open is)
chunks_of-without_sizes [] = (refl, refl)
chunks_of-without_sizes (i ∷ is) = ground (arith, chunks_of-without_sizes is)

-- A process without a terminal, and links of which the earlier ones break before their input ends,
-- and the input of the last ends; among what they copy they may send any sizes of windows, at any
-- time. The process reads, in order, what the earlier ones had copied and all that the last one
-- copies, and then the end of its input. This is so for all that the daemon may do meanwhile, as long
-- as it decodes all that the links copied and the process does not close its input itself.
pub stdin-links :
    (window : WindowSize) (earlier : List (List String)) (last : List String) (decoded : List Input)
    {d : Daemon}
    → without_sizes decoded ≡ concat (map sent_so_far earlier) ++ sent_by last
    → Run (new false window) decoded d
    → d.child_reads ≡ true
    → (d.stdin ≡ concat earlier ++ last) × (d.input_open ≡ false)
unfolding new
stdin-links window earlier last decoded sent r h =
    let reads = Run-Reads r h in
    let links = chunks_of-links earlier last in
    let sized = chunks_of-without_sizes decoded in
    (
      reads.0 ∙ sym sized.0 ∙ ap chunks_of sent ∙ links.0,
      reads.1 ∙ sym sized.1 ∙ ap still_open sent ∙ links.1,
    )
