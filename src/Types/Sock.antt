-- ===== src/Types/Sock.antt =====
-- Socket types, as Linux numbers them.
use netresolve.Prelude.{ℕ}

abbrev pub stream : ℕ
stream = 1

abbrev pub dgram : ℕ
dgram = 2

abbrev pub raw : ℕ
raw = 3

abbrev pub seqpacket : ℕ
seqpacket = 5

abbrev pub dccp : ℕ
dccp = 6
