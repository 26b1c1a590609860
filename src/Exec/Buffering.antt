-- ===== src/Exec/Buffering.antt =====
-- The bytes that backends/exec.c keeps when it moves the rest of its buffer.
use netresolve.Prelude.{
  ℕ, zero, suc, ◌+◌, ◌-◌, ◌≤◌, ◌<◌, ◌≡◌, refl, sym, ap, ◌∙◌, List, [], ◌∷◌, ◌++◌, take, drop, set,
  length, length-append, arith,
}
use netresolve.Exec.{OutBuffer, block_size, shift, put_bytes}

drop-set : (k v : ℕ) (xs : List ℕ) → drop (suc k) (set xs k v) ≡ drop (suc k) xs
drop-set k v [] = refl
drop-set zero v (x ∷ xs) = refl
drop-set (suc k) v (x ∷ xs) = drop-set k v xs

length-set : (k v : ℕ) (xs : List ℕ) → length (set xs k v) ≡ length xs
length-set k v [] = refl
length-set zero v (x ∷ xs) = refl
length-set (suc k) v (x ∷ xs) = ap suc (length-set k v xs)

length-drop : (n : ℕ) (xs : List ℕ) → length (drop n xs) ≡ length xs - n
length-drop zero xs = omega arith
length-drop (suc n) [] = omega arith
length-drop (suc n) (x ∷ xs) = omega (arith, length-drop n xs)

length-take : (n : ℕ) (xs : List ℕ) → n ≤ length xs → length (take n xs) ≡ n
length-take zero xs h = refl
length-take (suc n) [] h = omega arith
length-take (suc n) (x ∷ xs) h = omega (arith, length-take n xs (omega arith))

take-nil : (n : ℕ) → take {A = ℕ} n [] ≡ []
take-nil zero = refl
take-nil (suc n) = refl

drop-take : (m s : ℕ) (xs : List ℕ) → drop m (take (m + s) xs) ≡ take s (drop m xs)
drop-take zero s xs = let same : 0 + s ≡ s = omega arith in rw same refl
drop-take (suc m) s [] =
    let step : suc m + s ≡ suc (m + s) = omega arith in
    ap (λ n. drop (suc m) (take n [])) step ∙ sym (take-nil s)
drop-take (suc m) s (x ∷ xs) =
    let step : suc m + s ≡ suc (m + s) = omega arith in
    ap (λ n. drop (suc m) (take n (x ∷ xs))) step ∙ drop-take m s xs

take-append :
    (s n : ℕ) (xs ys : List ℕ) → s ≤ n → s ≤ length xs → take s (take n xs ++ ys) ≡ take s xs
take-append zero n xs ys h k = refl
take-append (suc s) n [] ys h k = absurd (omega arith)
take-append (suc s) zero (x ∷ xs) ys h k = absurd (omega arith)
take-append (suc s) (suc n) (x ∷ xs) ys h k =
    ap (x ∷◌) (take-append s n xs ys (omega arith) (omega arith))

-- The bytes that were read and not taken yet.
abbrev pub content : OutBuffer → List ℕ
content b = take b.start b.bytes

-- The block has its size, and not more than half of it is in use.
abbrev pub IsHalf : OutBuffer → Type 0
IsHalf b = (length b.bytes ≡ block_size) × (b.start ≤ 512)

-- The bytes that `shift` moves.
abbrev moved : ℕ → OutBuffer → List ℕ
moved k b = drop (suc k) (set b.bytes k 0)

length-moved : (k : ℕ) (b : OutBuffer) → IsHalf b → length (moved k b) ≡ block_size - suc k
length-moved k b (size, half) =
    let a = length-drop (suc k) (set b.bytes k 0) in
    let c = length-set k 0 b.bytes in omega (arith, a, c, size)

pub shift-IsHalf : (k : ℕ) (b : OutBuffer) → k < b.start → IsHalf b → IsHalf (shift k b)
unfolding shift
shift-IsHalf k b h (size, half) =
    let free = block_size - b.start in
    let ended = set b.bytes k 0 in
    let long = length-moved k b (size, half) in
    let front = length-take free (moved k b) (omega (arith, long, h)) in
    let back = length-drop free ended in
    let same = length-set k 0 b.bytes in
    let all = length-append (take free (moved k b)) (drop free ended) in
    (omega (arith, front, back, same, all, size, half), omega (arith, half))

pub shift-content :
    (k : ℕ) (b : OutBuffer)
    → k < b.start
    → IsHalf b
    → content (shift k b) ≡ drop (suc k) (content b)
unfolding shift
shift-content k b h (size, half) =
    let free = block_size - b.start in
    let left = b.start - suc k in
    let long = length-moved k b (size, half) in
    let all : suc k + left ≡ b.start = omega (arith, h) in
    take-append left free (moved k b) (drop free (set b.bytes k 0)) (omega (arith, half))
      (omega (arith, long, h, half))
    ∙ ap (take left) (drop-set k 0 b.bytes)
    ∙ sym (drop-take (suc k) left b.bytes)
    ∙ ap (λ n. drop (suc k) (take n b.bytes)) all

take-prefix : (xs ys : List ℕ) → take (length xs) (xs ++ ys) ≡ xs
take-prefix [] ys = refl
take-prefix (x ∷ xs) ys = ap (x ∷◌) (take-prefix xs ys)

pub put_bytes-content :
    (bytes : List ℕ) (b : OutBuffer)
    → length b.bytes ≡ block_size
    → b.start ≤ block_size
    → content (put_bytes bytes b) ≡ content b ++ bytes
unfolding put_bytes
put_bytes-content bytes b size room =
    let rest = drop (b.start + length bytes) b.bytes in
    let front = length-take b.start b.bytes (omega (arith, size, room)) in
    let all : b.start + length bytes ≡ length (content b ++ bytes) =
      omega (arith, front, length-append (content b) bytes) in
    ap (λ n. take n (content b ++ bytes ++ rest)) all ∙ take-prefix (content b ++ bytes) rest

pub put_bytes-IsHalf :
    (bytes : List ℕ) (b : OutBuffer)
    → length b.bytes ≡ block_size
    → b.start + length bytes ≤ 512
    → IsHalf (put_bytes bytes b)
unfolding put_bytes
put_bytes-IsHalf bytes b size half =
    let front = length-take b.start b.bytes (omega (arith, size, half)) in
    let back = length-drop (b.start + length bytes) b.bytes in
    let all = length-append (content b ++ bytes) (drop (b.start + length bytes) b.bytes) in
    let some_of = length-append (content b) bytes in
    (omega (arith, front, back, all, some_of, size, half), half)

prefix : (k n : ℕ) (xs : List ℕ) → k ≤ n → take k (take n xs) ≡ take k xs
prefix zero n xs h = refl
prefix (suc k) zero xs h = absurd (omega arith)
prefix (suc k) (suc n) [] h = refl
prefix (suc k) (suc n) (x ∷ xs) h = ap (x ∷◌) (prefix k n xs (omega arith))

pub take-content : (k : ℕ) (b : OutBuffer) → k ≤ b.start → take k (content b) ≡ take k b.bytes
take-content k b h = prefix k b.start b.bytes h

pub length-content : (b : OutBuffer) → IsHalf b → length (content b) ≡ b.start
length-content b (size, half) = length-take b.start b.bytes (omega (arith, size, half))
