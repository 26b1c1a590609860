-- ===== src/Types/Ipproto.antt =====
-- Protocol numbers.
use netresolve.Prelude.{ℕ}

abbrev pub tcp : ℕ
tcp = 6

abbrev pub udp : ℕ
udp = 17

abbrev pub dccp : ℕ
dccp = 33

abbrev pub sctp : ℕ
sctp = 132

abbrev pub udplite : ℕ
udplite = 136
