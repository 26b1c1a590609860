-- ===== src/Exec.antt =====
-- backends/exec.c: the answer of a child process, read into a buffer and taken apart into lines. The
-- process and its pipes are left out; a function of the backend is the calls that it makes.
mod Buffering
mod Lines
mod Examples
use netresolve.Prelude.{
  ℕ, ℤ, pos, negsuc, zero, suc, ◌+◌, ◌-◌, Bool, true, false, Option, none, some, List, [], ◌∷◌,
  ◌++◌, CString, codes, str_eq, take, drop, set, length, ◌==◌, ltb, if◌then◌else◌,
}
use netresolve.Libc.{c_str}
use netresolve.Query.{Call}
use netresolve.Parse.{Resolver, Parsed, ParsedPath, parse_address, parse_path}

-- `outbuf` of struct priv_exec: the bytes of the block of 1024, and `start` as an offset
pub record OutBuffer : Type 0 where
  pub bytes : List ℕ
  pub start : ℕ

abbrev pub block_size : ℕ
block_size = 1024

-- the socket types and protocols of the tables of lib/backend.c are not negative
abbrev number : ℤ → ℕ
number (pos n) = n
number (negsuc n) = 0

address_calls : Option Parsed → List Call
address_calls none = []
address_calls (some p) =
    Call.add_path p.family p.address p.ifindex 0 0 (pos 0) (pos 0) (pos 0) (pos 0) ∷ []

path_calls : Option ParsedPath → List Call
path_calls none = []
path_calls (some p) =
    Call.add_path p.node.family p.node.address p.node.ifindex (number p.socktype)
      (number p.protocol) p.port (pos 0) (pos 0) (pos 0)
    ∷ []

-- `received_line`, on a line that is not empty
pub received_line : Resolver → CString → List Call
unfolding address_calls path_calls parse_address parse_path
received_line sys line =
    if str_eq (take 8 line) (codes "address ")
    then address_calls (parse_address sys (some (drop 8 line)))
    else if str_eq (take 5 line) (codes "path ")
    then path_calls (parse_path sys (drop 5 line))
    else []

-- `memchr` for the end of a line: its offset
unfoldable pub find_newline : List ℕ → Option ℕ
find_newline [] = none
find_newline (c ∷ cs) =
    let rest = find_newline cs in
    if c == b'\n' then some 0 else (elim rest [ none ↦ none | some k ↦ some (suc k) ])

-- the `memmove` of the loop, which moves as many bytes as the block has free, and the new `start`
pub shift : ℕ → OutBuffer → OutBuffer
shift k b =
    let ended = set b.bytes k 0 in
    let free = block_size - b.start in
    record { bytes = take free (drop (suc k) ended) ++ drop free ended; start = b.start - suc k }

-- A line has been read; `next` is what the loop does behind it. An empty line ends the answer.
pub end_line : Resolver → List Call × OutBuffer → OutBuffer → CString → List Call × OutBuffer
unfolding received_line
end_line sys next b [] = (Call.finished ∷ [], b)
end_line sys (calls, b') b (c ∷ cs) = (received_line sys (c ∷ cs) ++ calls, b')

-- One round of the loop of `dispatch_output` on the end of a line, if there is one; `rest` is the loop.
pub line_round :
    Resolver → (OutBuffer → List Call × OutBuffer) → Option ℕ → OutBuffer → List Call × OutBuffer
unfolding end_line shift
line_round sys rest none b = ([], b)
line_round sys rest (some k) b = end_line sys (rest (shift k b)) b (c_str (take k b.bytes))

-- The loop of `dispatch_output`; each line has at least one byte, so one more than `start` is fuel
-- enough.
pub read_lines : Resolver → ℕ → OutBuffer → List Call × OutBuffer
unfolding line_round find_newline
read_lines sys zero b = ([], b)
read_lines sys (suc f) b = line_round sys (read_lines sys f) (find_newline (take b.start b.bytes)) b

-- `read` puts bytes at `start`, as many as there is room for at most
pub put_bytes : List ℕ → OutBuffer → OutBuffer
put_bytes bytes b = record {
  bytes = take b.start b.bytes ++ bytes ++ drop (b.start + length bytes) b.bytes;
  start = b.start + length bytes;
}

-- What `dispatch_output` meets: the end of the pipe, or what `read` returns.
pub data OutputEvent : Type 0 where
  hang_up : OutputEvent
  data_read : List ℕ → OutputEvent

-- `dispatch_output`; `none` is the call of `abort` when nothing can be read
pub dispatch_output : Resolver → OutputEvent → OutBuffer → Option (List Call × OutBuffer)
unfolding read_lines put_bytes
dispatch_output sys OutputEvent.hang_up b = some (Call.failed ∷ [], b)
dispatch_output sys (OutputEvent.data_read []) b = none
dispatch_output sys (OutputEvent.data_read (c ∷ cs)) b =
    let b' = put_bytes (c ∷ cs) b in some (read_lines sys (suc b'.start) b')

-- `dispatch_input`, with what `write` returns for the bytes that are left of the request; the watch
-- has the number `input`
pub dispatch_input : ℕ → ℤ → List ℕ → List Call × List ℕ
dispatch_input input size [] = (Call.watch_remove input ∷ [], [])
dispatch_input input (pos (suc size)) (c ∷ cs) = ([], drop (suc size) (c ∷ cs))
dispatch_input input (pos zero) (c ∷ cs) = (Call.watch_remove input ∷ [], c ∷ cs)
dispatch_input input (negsuc size) (c ∷ cs) = (Call.watch_remove input ∷ [], c ∷ cs)

remove_if : Option ℕ → List Call
remove_if none = []
remove_if (some watch) = Call.watch_remove watch ∷ []

-- `cleanup`, the calls
pub cleanup : Option ℕ → Option ℕ → List Call
unfolding remove_if
cleanup input output = remove_if input ++ remove_if output

-- `query_forward`, with the descriptors of the pipes, if the process could be started; the numbers
-- behind the descriptors stand for `dispatch_input` and `dispatch_output`
pub query_forward : Option (ℕ × ℕ) → List Call
query_forward none = Call.new_priv true ∷ Call.failed ∷ []
query_forward (some (infd, outfd)) =
    Call.new_priv true ∷ Call.watch_add infd 0 ∷ Call.watch_add outfd 1 ∷ []
