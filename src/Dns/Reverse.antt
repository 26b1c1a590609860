-- ===== src/Dns/Reverse.antt =====
-- backends/dns.c: the names that `lookup_address` asks for.
pub mod RoundTrip
use netresolve.Prelude.{
  ℕ, pos, ◌+◌, ◌-◌, ◌/◌, ◌%◌, Option, none, some, List, [], ◌∷◌, ◌++◌, CString, codes, take, ◌==◌,
  ltb, if◌then◌else◌,
}
use netresolve.Libc.{decimal}
use netresolve.Types.Af

-- "%x" on four bits
pub hex_digit : ℕ → ℕ
hex_digit n = if ltb n 10 then b'0' + n else b'a' + (n - 10)

-- the bytes in front of `tail`, from the last to the first, each with a dot
unfoldable pub reverse_bytes : List ℕ → CString → CString
reverse_bytes [] tail = tail
reverse_bytes (b ∷ bs) tail = reverse_bytes bs (decimal (pos b) ++ b'.' ∷ tail)

-- the halves of the bytes in front of `tail`, the low one of the last byte first
pub reverse_nibbles : List ℕ → CString → CString
reverse_nibbles [] tail = tail
reverse_nibbles (b ∷ bs) tail =
    reverse_nibbles bs (hex_digit (b % 16) ∷ b'.' ∷ hex_digit (b / 16) ∷ b'.' ∷ tail)

-- The name that `lookup_address` looks up; `none` is the call of `abort` on another family.
unfoldable pub reverse_name : ℕ → List ℕ → Option CString
reverse_name family address =
    if family == Af.inet
    then some (reverse_bytes (take 4 address) (codes "in-addr.arpa."))
    else if family == Af.inet6
    then some (reverse_nibbles (take 16 address) (codes "ip6.arpa"))
    else none
