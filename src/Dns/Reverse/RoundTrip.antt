-- ===== src/Dns/Reverse/RoundTrip.antt =====
-- Reading back the names that backends/dns.c makes of addresses.
use netresolve.Prelude.{
  ℕ, pos, zero, suc, ◌+◌, ◌-◌, ◌*◌, ◌/◌, ◌%◌, ◌<◌, ◌≡◌, ◌⊎◌, inl, inr, ◌∙◌, ap, refl, Bool, true,
  false, not, ◌&&◌, some, List, [], ◌∷◌, ◌++◌, CString, codes, length, take, All, arith, ltb, ◌==◌,
  ==_iff, if◌then◌else◌,
}
use netresolve.Libc.{decimal}
use netresolve.Types.Af
use netresolve.Dns.Reverse.{hex_digit, reverse_bytes, reverse_nibbles, reverse_name}

-- A decimal number up to a dot, over the digits before, and what stands behind the dot.
unfoldable read_number : ℕ → CString → ℕ × CString
read_number acc [] = (acc, [])
read_number acc (c ∷ cs) =
    let more = read_number (acc * 10 + (c - b'0')) cs in if c == b'.' then (acc, cs) else more

-- Numbers with dots, the last one first.
pub read_bytes : ℕ → List ℕ → CString → List ℕ × CString
unfolding read_number
read_bytes zero acc s = (acc, s)
read_bytes (suc n) acc s = let (v, rest) = read_number 0 s in read_bytes n (v ∷ acc) rest

abbrev hex_value : ℕ → ℕ
hex_value c = if ltb c b'a' then c - b'0' else c - b'a' + 10

-- Bytes of two hexadecimal digits, each with a dot behind, the low digit first; the last byte first.
pub read_nibbles : ℕ → List ℕ → CString → List ℕ × CString
read_nibbles zero acc s = (acc, s)
read_nibbles (suc n) acc (low ∷ dot ∷ high ∷ dot' ∷ s) =
    read_nibbles n ((hex_value high * 16 + hex_value low) ∷ acc) s
read_nibbles (suc n) acc s = (acc, s)

-- A test of the numbers below a bound, from the greatest down.
passes : (ℕ → Bool) → ℕ → Bool
passes test zero = true
passes test (suc b) = if test b then passes test b else false

passes-test : (test : ℕ → Bool) (bound b : ℕ) → b < bound → passes test bound ≡ true → test b ≡ true
unfolding passes
passes-test test zero b below ok = absurd (omega arith)
passes-test test (suc bound) b below ok = ground (arith, passes-test test bound b)

abbrev dotless : CString → Bool
dotless [] = true
dotless (c ∷ cs) = not (c == b'.') && dotless cs

abbrev value : ℕ → CString → ℕ
value acc [] = acc
value acc (c ∷ cs) = value (acc * 10 + (c - b'0')) cs

read_number-dotless :
    (acc : ℕ) (ds tail : CString)
    → dotless ds ≡ true
    → read_number acc (ds ++ b'.' ∷ tail) ≡ (value acc ds, tail)
unfolding read_number
read_number-dotless acc [] tail h = refl
read_number-dotless acc (c ∷ cs) tail h =
    ground (arith, read_number-dotless (acc * 10 + (c - b'0')) cs tail)

abbrev reads_back : ℕ → Bool
reads_back b = dotless (decimal (pos b)) && (value 0 (decimal (pos b)) == b)

bytes_read_back : passes reads_back 256 ≡ true
unfolding passes decimal
bytes_read_back = refl

and_parts : (a b : Bool) → (a && b) ≡ true → (a ≡ true) × (b ≡ true)
and_parts a b h = ground arith

read_number-decimal :
    (b : ℕ) (tail : CString) → b < 256 → read_number 0 (decimal (pos b) ++ b'.' ∷ tail) ≡ (b, tail)
read_number-decimal b tail lt =
    let (plain, same) = and_parts _ _ (passes-test reads_back 256 b lt bytes_read_back) in
    read_number-dotless 0 (decimal (pos b)) tail plain ∙ ap (λ v. (v, tail)) ((==_iff _ b).0 same)

abbrev IsByte : ℕ → Type 0
IsByte b = b < 256

read_bytes-decimal :
    (b k : ℕ) (acc : List ℕ) (tail : CString)
    → b < 256
    → read_bytes (suc k) acc (decimal (pos b) ++ b'.' ∷ tail) ≡ read_bytes k (b ∷ acc) tail
unfolding read_bytes
read_bytes-decimal b k acc tail lt = rw (read_number-decimal b tail lt)

-- the first argument of the reader, which counts what is left
next_count : (n k : ℕ) → suc n + k ≡ n + suc k
next_count n k = omega arith

zero_plus : (k : ℕ) → 0 + k ≡ k
zero_plus k = omega arith

append_nil : (xs : List ℕ) → xs ++ [] ≡ xs
append_nil [] = refl
append_nil (x ∷ xs) = ap (λ ys. x ∷ ys) (append_nil xs)

take_all : (n : ℕ) (xs : List ℕ) → length xs ≡ n → take n xs ≡ xs
take_all zero [] e = refl
take_all zero (x ∷ xs) e = absurd (omega (arith, e))
take_all (suc n) [] e = refl
take_all (suc n) (x ∷ xs) e = ap (λ ys. x ∷ ys) (take_all n xs (omega (arith, e)))

plus_zero : (m n : ℕ) → m ≡ n → n ≡ m + 0
plus_zero m n e = omega arith

pub read_bytes-reverse_bytes :
    (bs : List ℕ) (k : ℕ) (acc : List ℕ) (tail : CString)
    → All IsByte bs
    → read_bytes (length bs + k) acc (reverse_bytes bs tail) ≡ read_bytes k (bs ++ acc) tail
unfolding reverse_bytes
read_bytes-reverse_bytes [] k acc tail h = ap (λ n. read_bytes n acc tail) (zero_plus k)
read_bytes-reverse_bytes (b ∷ bs) k acc tail h =
    ap (λ n. read_bytes n acc (reverse_bytes bs (decimal (pos b) ++ b'.' ∷ tail)))
      (next_count (length bs) k)
    ∙ read_bytes-reverse_bytes bs (suc k) acc (decimal (pos b) ++ b'.' ∷ tail) h.1
    ∙ read_bytes-decimal b k (bs ++ acc) tail h.0

hex_value-hex_digit : (n : ℕ) → n < 16 → hex_value (hex_digit n) ≡ n
unfolding hex_digit
hex_value-hex_digit n h = ground arith

byte_of_halves :
    (b : ℕ) → b < 256 → hex_value (hex_digit (b / 16)) * 16 + hex_value (hex_digit (b % 16)) ≡ b
byte_of_halves b lt =
    ap (λ n. n * 16 + hex_value (hex_digit (b % 16))) (hex_value-hex_digit (b / 16) (omega arith))
    ∙ ap (λ n. b / 16 * 16 + n) (hex_value-hex_digit (b % 16) (omega arith))
    ∙ omega arith

pub read_nibbles-reverse_nibbles :
    (bs : List ℕ) (k : ℕ) (acc : List ℕ) (tail : CString)
    → All IsByte bs
    → read_nibbles (length bs + k) acc (reverse_nibbles bs tail) ≡ read_nibbles k (bs ++ acc) tail
unfolding reverse_nibbles read_nibbles
read_nibbles-reverse_nibbles [] k acc tail h = ap (λ n. read_nibbles n acc tail) (zero_plus k)
read_nibbles-reverse_nibbles (b ∷ bs) k acc tail h =
    let tail' = hex_digit (b % 16) ∷ b'.' ∷ hex_digit (b / 16) ∷ b'.' ∷ tail in
    ap (λ n. read_nibbles n acc (reverse_nibbles bs tail')) (next_count (length bs) k)
    ∙ read_nibbles-reverse_nibbles bs (suc k) acc tail' h.1
    ∙ ap (λ v. read_nibbles k (v ∷ bs ++ acc) tail) (byte_of_halves b h.0)

read_bytes-reverse :
    (a : List ℕ) (n : ℕ) (tail : CString)
    → All IsByte a
    → length a ≡ n
    → read_bytes n [] (reverse_bytes (take n a) tail) ≡ (a, tail)
read_bytes-reverse a n tail bytes e =
    ap (λ s. read_bytes n [] (reverse_bytes s tail)) (take_all n a e)
    ∙ ap (λ m. read_bytes m [] (reverse_bytes a tail)) (plus_zero (length a) n e)
    ∙ read_bytes-reverse_bytes a 0 [] tail bytes
    ∙ (unfold read_bytes in ap (λ s. (s, tail)) (append_nil a))

read_nibbles-reverse :
    (a : List ℕ) (n : ℕ) (tail : CString)
    → All IsByte a
    → length a ≡ n
    → read_nibbles n [] (reverse_nibbles (take n a) tail) ≡ (a, tail)
read_nibbles-reverse a n tail bytes e =
    ap (λ s. read_nibbles n [] (reverse_nibbles s tail)) (take_all n a e)
    ∙ ap (λ m. read_nibbles m [] (reverse_nibbles a tail)) (plus_zero (length a) n e)
    ∙ read_nibbles-reverse_nibbles a 0 [] tail bytes
    ∙ (unfold read_nibbles in ap (λ s. (s, tail)) (append_nil a))

-- What a name of a reverse look-up says: the address of so many bytes in front of a suffix.
abbrev pub IsReverse : ℕ → List ℕ → CString → Type 0
IsReverse family address name =
    ((family ≡ Af.inet) × (read_bytes 4 [] name ≡ (address, codes "in-addr.arpa.")))
    ⊎ ((family ≡ Af.inet6) × (read_nibbles 16 [] name ≡ (address, codes "ip6.arpa")))

-- For an IPv4 address of 4 bytes or an IPv6 address of 16 bytes the name that is looked up is one
-- that reads back as just that address and the suffix of its family: four decimal numbers and
-- in-addr.arpa, or thirty-two hexadecimal digits and ip6.arpa, the last byte first.
pub reverse_name-IsReverse :
    (family : ℕ) (address : List ℕ)
    → All IsByte address
    → ((family ≡ Af.inet) × (length address ≡ 4)) ⊎ ((family ≡ Af.inet6) × (length address ≡ 16))
    → (name : CString) × (reverse_name family address ≡ some name) × IsReverse family address name
unfolding reverse_name
reverse_name-IsReverse family address bytes (inl (f, len)) = (
  reverse_bytes (take 4 address) (codes "in-addr.arpa."),
  rw f,
  inl (f, read_bytes-reverse address 4 (codes "in-addr.arpa.") bytes len),
)
reverse_name-IsReverse family address bytes (inr (f, len)) = (
  reverse_nibbles (take 16 address) (codes "ip6.arpa"),
  rw f,
  inr (f, read_nibbles-reverse address 16 (codes "ip6.arpa") bytes len),
)
