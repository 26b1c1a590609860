-- ===== src/Libc.antt =====
-- The string functions of the C library that the code uses, on strings as lists of bytes.
use netresolve.Prelude.{
  ℕ, ℤ, pos, negsuc, suc, zero, ◌+◌, ◌-◌, ◌*◌, ◌/◌, ◌%◌, ◌^◌, Bool, true, false, ◌&&◌, ◌||◌, List,
  [], ◌∷◌, ◌++◌, Option, none, some, CString, ◌==◌, leb, ltb, if◌then◌else◌,
}

abbrev pub is_space : ℕ → Bool
is_space c = c == b' ' || (leb 9 c && leb c 13)

abbrev pub is_digit : ℕ → Bool
is_digit c = leb b'0' c && leb c b'9'

-- The bytes up to the first zero byte: what a region reads as when it is taken for a string.
abbrev pub c_str : List ℕ → CString
c_str [] = []
c_str (c ∷ cs) = let rest = c_str cs in if c == 0 then [] else c ∷ rest

skip_while : (ℕ → Bool) → CString → CString
skip_while p [] = []
skip_while p (c ∷ cs) = let rest = skip_while p cs in if p c then rest else c ∷ cs

-- The bytes before the first that satisfies `p`, and what stands behind that one.
split_at : (ℕ → Bool) → CString → CString × CString
split_at p [] = ([], [])
split_at p (c ∷ cs) = let rest = split_at p cs in if p c then ([], cs) else (c ∷ rest.0, rest.1)

-- `strtok_r` with the delimiters `p`, on what its last call left: the token and what is left now.
unfoldable pub strtok : (ℕ → Bool) → CString → Option (CString × CString)
unfolding skip_while split_at
strtok p s = elim (skip_while p s) [ [] ↦ none | c ∷ cs ↦ some (split_at p (c ∷ cs)) ]

-- The value of the leading decimal digits over `acc`, and the rest.
digits_from : ℕ → CString → ℕ × CString
digits_from acc [] = (acc, [])
digits_from acc (c ∷ cs) =
    let more = digits_from (acc * 10 + (c - b'0')) cs in if is_digit c then more else (acc, c ∷ cs)

-- LONG_MAX
long_max : ℕ
long_max = 2 ^ 63 - 1

-- A `long` that does not fit is set to the nearest that does.
saturate : Bool → ℕ → ℤ
unfolding long_max
saturate false n = if leb n long_max then pos n else pos long_max
saturate true zero = pos 0
saturate true (suc n) = if leb n long_max then negsuc n else negsuc long_max

starts_with_digit : CString → Bool
starts_with_digit [] = false
starts_with_digit (c ∷ cs) = is_digit c

-- `strtol` behind the white space: `all` is where the end pointer stays if there is no digit.
strtol_sign : CString → CString → ℤ × CString
unfolding digits_from saturate starts_with_digit
strtol_sign all [] = (pos 0, all)
strtol_sign all (c ∷ cs) =
    let negative = c == b'-' in
    let body = if negative || c == b'+' then cs else c ∷ cs in
    let (n, rest) = digits_from 0 body in
    if starts_with_digit body then (saturate negative n, rest) else (pos 0, all)

-- `strtol(s, &end, 10)`: the number and `end`
unfoldable pub strtol : CString → ℤ × CString
unfolding strtol_sign skip_while
strtol s = strtol_sign s (skip_while is_space s)

-- The conversion of a `long` to `int` keeps the low 32 bits, in two's complement.
unfoldable pub to_int : ℤ → ℤ
to_int (pos n) =
    let low = n % 2 ^ 32 in if ltb low (2 ^ 31) then pos low else negsuc (2 ^ 32 - 1 - low)
to_int (negsuc n) =
    let low = n % 2 ^ 32 in if ltb low (2 ^ 31) then negsuc low else pos (2 ^ 32 - 1 - low)

-- The decimal digits of `n`, with fuel for one more than their number.
decimal_fuel : ℕ → ℕ → CString
decimal_fuel zero n = []
decimal_fuel (suc f) n =
    let front = decimal_fuel f (n / 10) in
    if ltb n 10 then (b'0' + n) ∷ [] else front ++ (b'0' + n % 10) ∷ []

-- `snprintf` with "%d"; an `int` has at most ten digits
unfoldable pub decimal : ℤ → CString
unfolding decimal_fuel
decimal (pos n) = decimal_fuel 11 n
decimal (negsuc n) = b'-' ∷ decimal_fuel 11 (suc n)
