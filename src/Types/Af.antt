-- ===== src/Types/Af.antt =====
-- Address families, as Linux numbers them.
use netresolve.Prelude.{ℕ}

abbrev pub unspec : ℕ
unspec = 0

abbrev pub unix : ℕ
unix = 1

abbrev pub inet : ℕ
inet = 2

abbrev pub inet6 : ℕ
inet6 = 10
