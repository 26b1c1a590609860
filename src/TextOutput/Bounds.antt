-- ===== src/TextOutput/Bounds.antt =====
-- How much of the text of lib/string.c fits into the buffer.
use mathlib.Core.List.{append-nil, append_assoc}
use netresolve.Prelude.{
  ℕ, zero, suc, ◌+◌, ◌-◌, ◌≤◌, ◌<◌, ◌≡◌, refl, sym, ap, ◌∙◌, Bool, true, false, ◌||◌, Option, none,
  some, List, [], ◌∷◌, ◌++◌, CString, take, length, get_elem?, is_some, foldl, ltb, arith,
  length-append,
}
use netresolve.Types.{AddrPath}
use netresolve.Query.{Query}
use netresolve.Start.{get_count, get_node_info, get_service_info, get_aux_info}
use netresolve.Compat.Items.{From, From-all, From-head, From-tail}
use netresolve.TextOutput.{
  TextEnv, Buffer, buffer_size, new_buffer, bprintf, print, new_line, path_text, path_pieces,
  request_pieces, get_request_string, response_pieces, get_response_string,
}

abbrev pub joined : List CString → CString
joined [] = []
joined (s ∷ ss) = s ++ joined ss

take-short : (n : ℕ) (s : CString) → length s ≤ n → take n s ≡ s
take-short zero [] h = refl
take-short zero (c ∷ s) h = absurd (omega arith)
take-short (suc n) [] h = refl
take-short (suc n) (c ∷ s) h = ap (c ∷◌) (take-short n s (omega arith))

-- What `bprintf` has made of a list of texts, behind a string that fits.
foldl-text :
    (b : Buffer) (pieces : List CString)
    → b.current + length (joined pieces) < buffer_size
    → (foldl bprintf b pieces).text ≡ b.text ++ joined pieces
unfolding bprintf
foldl-text b [] h = sym (append-nil b.text)
foldl-text b (s ∷ ss) h =
    let short : length s ≤ buffer_size - b.current - 1 =
      omega (arith, h, length-append s (joined ss)) in
    let rest = foldl-text (bprintf b s) ss (omega (arith, h, length-append s (joined ss))) in
    let whole = take-short (buffer_size - b.current - 1) s short in
    rest ∙ ap (λ t. b.text ++ t ++ joined ss) whole ∙ append_assoc b.text s (joined ss)

or-past :
    (p : Bool) (a x y z : ℕ)
    → z ≡ x + y
    → ((p || ltb buffer_size a) || ltb buffer_size (a + x + y)) ≡ (p || ltb buffer_size (a + z))
or-past true a x y z e = refl
or-past false a x y z e = ground arith

foldl-past :
    (b : Buffer) (pieces : List CString) (last : CString)
    → (foldl bprintf b (pieces ++ last ∷ [])).past
      ≡ (b.past || ltb buffer_size (b.current + length (joined pieces)))
unfolding bprintf
foldl-past b [] last = ground arith
foldl-past b (s ∷ ss) last =
    let rest = foldl-past (bprintf b s) ss last in
    rest
    ∙ or-past b.past b.current (length s) (length (joined ss)) (length (s ++ joined ss))
        (length-append s (joined ss))

-- What is true of the buffer behind texts and a last new line.
abbrev pub Holds : List CString → Buffer → Type 0
Holds pieces b =
    (length (joined pieces) + 1 < buffer_size → b.text ≡ joined pieces ++ new_line)
    × (b.past ≡ ltb buffer_size (length (joined pieces)))

joined-append : (ss : List CString) (last : CString) → joined (ss ++ last ∷ []) ≡ joined ss ++ last
joined-append [] last = append-nil last
joined-append (s ∷ ss) last =
    ap (λ t. s ++ t) (joined-append ss last) ∙ sym (append_assoc s (joined ss) last)

print-Holds : (pieces : List CString) → Holds pieces (print (pieces ++ new_line ∷ []))
print-Holds pieces =
    let all = joined-append pieces new_line in
    let long = length-append (joined pieces) new_line in
    (
      λ h. foldl-text new_buffer (pieces ++ new_line ∷ []) (rw all (omega (arith, h, long))) ∙ all,
      foldl-past new_buffer pieces new_line ∙ ap (ltb buffer_size) (omega arith),
    )

is_some-some {ℓ} : {A : Type ℓ} (o : Option A) → is_some o ≡ true → (a : A) × (o ≡ some a)
is_some-some none h = cc
is_some-some (some a) h = (a, refl)

path_text-returns :
    (env : TextEnv) (q : Query) (i : ℕ) (p : AddrPath)
    → get_elem? q.response.paths i ≡ some p
    → (text : CString) × (path_text env q i ≡ some text)
unfolding path_text get_node_info get_service_info get_aux_info
path_text-returns env q i p e =
    is_some-some (path_text env q i)
      (rw (e, path_text, get_node_info, get_service_info, get_aux_info) refl)

path_pieces-returns :
    (env : TextEnv) (q : Query) (i : ℕ) (ps : List AddrPath)
    → From i ps q.response.paths
    → (texts : List CString) × (path_pieces env q (length ps) i ≡ some texts)
unfolding path_pieces
path_pieces-returns env q i [] h = ([], refl)
path_pieces-returns env q i (p ∷ ps) h =
    let (text, e) = path_text-returns env q i p (From-head i p ps q.response.paths h) in
    let (texts, es) = path_pieces-returns env q (i + 1) ps (From-tail i p ps q.response.paths h) in
    (text ∷ new_line ∷ texts, rw (e, es) refl)

response_pieces-returns :
    (env : TextEnv) (q : Query) → (pieces : List CString) × (response_pieces env q ≡ some pieces)
unfolding response_pieces get_count
response_pieces-returns env q =
    let ps = q.response.paths in
    let (texts, e) = path_pieces-returns env q 0 ps (From-all ps) in
    is_some-some (response_pieces env q) (rw (e, response_pieces) refl)

-- `netresolve_get_response_string` always returns, like `netresolve_get_request_string`: if the text of
-- the response or request with its last new line is shorter than the buffer, the buffer holds all of
-- it, and `vsnprintf` is called with a place past the end of the buffer just if the text without the
-- last new line is longer than the buffer.
pub get_response_string-Holds :
    (env : TextEnv) (q : Query)
    → ((pieces : List CString) × (b : Buffer) × (response_pieces env q ≡ some pieces)
        × (get_response_string env q ≡ some b)
        × Holds pieces b)
      × Holds (request_pieces env q) (get_request_string env q)
unfolding get_response_string get_request_string
get_response_string-Holds env q =
    let (pieces, e) = response_pieces-returns env q in
    (
      (pieces, print (pieces ++ new_line ∷ []), e, rw e refl, print-Holds pieces),
      print-Holds (request_pieces env q),
    )
