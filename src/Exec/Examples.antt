-- ===== src/Exec/Examples.antt =====
-- An answer of a child process in two pieces, and one that the buffer of backends/exec.c spoils.
use mathlib.Core.Option
use netresolve.Libc.{strtol, to_int}
use netresolve.Prelude.{
  ℕ, pos, suc, zero, ◌≡◌, refl, none, some, List, [], ◌∷◌, ◌++◌, codes, length, arith,
  if◌then◌else◌, str_eq,
}
use netresolve.Query.{Call}
use netresolve.Parse.{Resolver}
use netresolve.Exec.{OutBuffer, OutputEvent, dispatch_output}
use netresolve.Exec.Buffering.{content}
use netresolve.Exec.Lines.{Agrees, answer, dispatch_output-Agrees}

abbrev sys : Resolver
sys = record {
  inet_pton = λ family text. if str_eq text (codes "::1") then some (1 ∷ []) else none;
  if_nametoindex = λ name. 0;
}

abbrev fill : ℕ → List ℕ
fill zero = []
fill (suc n) = 0 ∷ fill n

abbrev empty : OutBuffer
empty = record { bytes = fill 1024; start = 0 }

length-fill : (n : ℕ) → length (fill n) ≡ n
length-fill zero = refl
length-fill (suc n) = omega (arith, length-fill n)

-- "ab\n\n"
abbrev answered : List ℕ
answered = b'b' ∷ b'\n' ∷ b'\n' ∷ []

dispatch_output-Agrees_example :
    (r : List Call × OutBuffer) × (dispatch_output sys
        (OutputEvent.data_read (b'a' ∷ answered))
        empty
      ≡ some r)
    × Agrees r (answer sys [] (content empty ++ b'a' ∷ answered))
dispatch_output-Agrees_example =
    dispatch_output-Agrees sys b'a' answered empty (length-fill 1024) (omega arith)

abbrev calls_of : List Call × OutBuffer → List Call
calls_of (calls, b) = calls

-- "address ::1\n\n" adds a path and ends the answer.
abbrev path_answer : List ℕ
path_answer = codes "address ::1\n\n"

path_added :
    Option.map calls_of (dispatch_output sys (OutputEvent.data_read path_answer) empty)
    ≡ some
        (Call.add_path 2 (1 ∷ []) (pos 0) 0 0 (pos 0) (pos 0) (pos 0) (pos 0) ∷ Call.finished ∷ [])
unfolding dispatch_output strtol to_int
path_added = refl
