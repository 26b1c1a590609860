-- ===== src/Exec/Lines.antt =====
-- The lines that backends/exec.c takes out of its buffer, against the bytes as a stream.
use mathlib.Core.Path.{subst}
use mathlib.Core.List.{append-nil, append_assoc}
use netresolve.Prelude.{
  ℕ, zero, suc, ◌+◌, ◌≤◌, ◌<◌, ◌≡◌, refl, sym, ap, ◌∙◌, Bool-cases, Option-cases, inl, inr, Option,
  none, some, List, [], ◌∷◌, ◌++◌, CString, take, drop, length, arith, ◌==◌, if◌then◌else◌,
}
use netresolve.Libc.{c_str}
use netresolve.Query.{Call}
use netresolve.Parse.{Resolver}
use netresolve.Exec.{
  OutBuffer, OutputEvent, block_size, received_line, find_newline, shift, end_line, line_round,
  read_lines, put_bytes, dispatch_output,
}
use netresolve.Exec.Buffering.{
  content, IsHalf, shift-IsHalf, shift-content, put_bytes-content, put_bytes-IsHalf, take-content,
  length-content,
}

-- What a line of the stream does before the rest: an empty one ends the answer, and nothing is left.
abbrev pub answer_line :
    Resolver → List Call × Option (List ℕ) → CString → List Call × Option (List ℕ)
answer_line sys next [] = (Call.finished ∷ [], none)
answer_line sys (calls, left) (c ∷ cs) = (received_line sys (c ∷ cs) ++ calls, left)

-- The calls for a stream of bytes behind the part `seen` of a line, and the part of a line left over.
abbrev pub answer : Resolver → List ℕ → List ℕ → List Call × Option (List ℕ)
answer sys seen [] = ([], some seen)
answer sys seen (c ∷ cs) =
    if c == b'\n'
    then answer_line sys (answer sys [] cs) (c_str seen)
    else answer sys (seen ++ c ∷ []) cs

answer-unended :
    (sys : Resolver) (seen cs : List ℕ)
    → find_newline cs ≡ none
    → answer sys seen cs ≡ ([], some (seen ++ cs))
unfolding find_newline
answer-unended sys seen [] h = rw (append-nil seen) refl
answer-unended sys seen (c ∷ cs) h = elim (Bool-cases (c == b'\n')) [
  | inl e ↦ cc (rw e at h)
  | inr e ↦ elim (Option-cases (find_newline cs)) [
    | inl k ↦ rw e (
        answer-unended sys (seen ++ c ∷ []) cs k
        ∙ ap (λ t. ([], some t)) (append_assoc seen (c ∷ []) cs))
    | inr (j, k) ↦ cc (rw (e, k) at h)
  ]
]

answer-ended :
    (sys : Resolver) (seen cs : List ℕ) (k : ℕ)
    → find_newline cs ≡ some k
    → (k < length cs)
      × (answer sys seen cs
          ≡ answer_line sys (answer sys [] (drop (suc k) cs)) (c_str (seen ++ take k cs)))
unfolding find_newline
answer-ended sys seen [] k h = cc
answer-ended sys seen (c ∷ cs) k h = elim (Bool-cases (c == b'\n')) [
  | inl e ↦
      let here : 0 ≡ k = cc (rw e at h) in
      (
        omega (arith, here),
        rw (e, ← here)
            (ap (λ t. answer_line sys (answer sys [] cs) (c_str t)) (sym (append-nil seen))),
      )
  | inr e ↦ elim (Option-cases (find_newline cs)) [
    | inl j ↦ cc (rw (e, j) at h)
    | inr (j, found) ↦
        let there : suc j ≡ k = cc (rw (e, found) at h) in
        let (inside, rest) = answer-ended sys (seen ++ c ∷ []) cs j found in
        (
          omega (arith, there, inside),
          rw (e, ← there)
              (rest
                ∙ ap (λ t. answer_line sys (answer sys [] (drop (suc j) cs)) (c_str t))
                    (append_assoc seen (c ∷ []) (take j cs))),
        )
  ]
]

-- The calls are those of the stream, and the buffer has the part of a line that is left over, if the
-- answer has not ended.
abbrev pub Agrees : List Call × OutBuffer → List Call × Option (List ℕ) → Type 0
Agrees (calls, b) (calls', left) =
    (calls ≡ calls') × (elim left [ none ↦ Unit {0} | some rest ↦ content b ≡ rest ])

end_line-Agrees :
    (sys : Resolver) (r : List Call × OutBuffer) (s : List Call × Option (List ℕ)) (b : OutBuffer)
    (line : CString)
    → Agrees r s
    → Agrees (end_line sys r b line) (answer_line sys s line)
unfolding end_line
end_line-Agrees sys r s b [] h = (refl, tt)
end_line-Agrees sys (calls, b') (calls', left) b (c ∷ cs) (h, k) =
    (ap (received_line sys (c ∷ cs) ++◌) h, k)

shift-less : (k : ℕ) (b : OutBuffer) (f : ℕ) → k < b.start → b.start < suc f → (shift k b).start < f
unfolding shift
shift-less k b f h less = omega (arith, h, less)

round-Agrees :
    (sys : Resolver) (f k : ℕ) (b : OutBuffer)
    → ((c : OutBuffer)
        → IsHalf c
        → c.start < f
        → Agrees (read_lines sys f c) (answer sys [] (content c)))
    → IsHalf b
    → b.start < suc f
    → find_newline (content b) ≡ some k
    → Agrees (line_round sys (read_lines sys f) (some k) b) (answer sys [] (content b))
unfolding line_round
round-Agrees sys f k b again half less e =
    let (inside, same) = answer-ended sys [] (content b) k e in
    let low : k < b.start = omega (arith, inside, length-content b half) in
    let rest = again (shift k b) (shift-IsHalf k b low half) (shift-less k b f low less) in
    let moved = rw (shift-content k b low half) at rest in
    let line = take-content k b (omega (arith, low)) in
    rw (same, line)
      (end_line-Agrees sys (read_lines sys f (shift k b)) _ b (c_str (take k b.bytes)) moved)

Agrees-idle :
    (r : List Call × OutBuffer) (s : List Call × Option (List ℕ)) (b : OutBuffer)
    → r ≡ ([], b)
    → s ≡ ([], some (content b))
    → Agrees r s
Agrees-idle r s b h k =
    subst (λ x. Agrees x s) (sym h) (subst (λ x. Agrees ([], b) x) (sym k) (refl, refl))

read_lines-Agrees :
    (sys : Resolver) (f : ℕ) (b : OutBuffer)
    → IsHalf b
    → b.start < f
    → Agrees (read_lines sys f b) (answer sys [] (content b))
unfolding read_lines
read_lines-Agrees sys zero b half less = absurd (omega arith)
read_lines-Agrees sys (suc f) b half less = elim (Option-cases (find_newline (content b))) [
  | inl e ↦
      let idle : read_lines sys (suc f) b ≡ ([], b) = rw (e, line_round) refl in
      Agrees-idle (read_lines sys (suc f) b) (answer sys [] (content b)) b idle
        (answer-unended sys [] (content b) e)
  | inr (k, e) ↦
      subst (λ o. Agrees (line_round sys (read_lines sys f) o b) (answer sys [] (content b)))
        (sym e) (round-Agrees sys f k b (read_lines-Agrees sys f) half less e)
]

-- As long as what is in the buffer fits into half of its block, `dispatch_output` on bytes that were
-- read does what the lines of the stream say: it makes the calls of each line up to an empty one, which
-- ends the answer, and otherwise keeps the part of a line that is left over.
pub dispatch_output-Agrees :
    (sys : Resolver) (c : ℕ) (cs : List ℕ) (b : OutBuffer)
    → length b.bytes ≡ block_size
    → b.start + length (c ∷ cs) ≤ 512
    → (r : List Call × OutBuffer) × (dispatch_output sys (OutputEvent.data_read (c ∷ cs)) b
        ≡ some r)
      × Agrees r (answer sys [] (content b ++ c ∷ cs))
unfolding dispatch_output
dispatch_output-Agrees sys c cs b size half =
    let b' = put_bytes (c ∷ cs) b in
    let all = put_bytes-content (c ∷ cs) b size (omega (arith, half)) in
    (
      read_lines sys (suc b'.start) b',
      refl,
      subst (λ s. Agrees (read_lines sys (suc b'.start) b') (answer sys [] s)) all
          (read_lines-Agrees sys (suc b'.start) b' (put_bytes-IsHalf (c ∷ cs) b size half)
            (omega arith)),
    )
