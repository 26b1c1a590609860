-- ===== src/Service/Reading.antt =====
-- `read_services` of lib/service.c and the complete lines of the file.
use netresolve.Prelude.{
  ℕ, suc, zero, ◌-◌, ◌≤◌, ◌<◌, ◌≡◌, refl, sym, ap, ◌∙◌, some, List, [], ◌∷◌, ◌++◌, arith, All,
  Option-cases, inl, inr, length, take, drop,
}
use netresolve.Service.{
  ServiceList, Loop, scan, after_read, read_loop, read_services, close_list, empty_list, size,
  smaller,
}
use netresolve.Service.Scanning.{
  complete_lines, read_lines, LinesFit, IsClean, services_of, go_on, scan-append, scan-clean,
  left-IsClean, left-LinesFit, scan-services,
}

take-append-drop : (n : ℕ) (xs : List ℕ) → take n xs ++ drop n xs ≡ xs
take-append-drop zero xs = refl
take-append-drop (suc n) [] = refl
take-append-drop (suc n) (x ∷ xs) = rw (take-append-drop n xs)

length-drop-le : (n : ℕ) (xs : List ℕ) → length (drop n xs) ≤ length xs
length-drop-le zero xs = omega arith
length-drop-le (suc n) [] = omega arith
length-drop-le (suc n) (x ∷ xs) = omega (arith, length-drop-le n xs)

-- One piece, whatever its size, and then the rest are scanned as one text.
scan_piece :
    (n : ℕ) (s : ServiceList) (buffer file : List ℕ)
    → IsClean buffer
    → scan s buffer file ≡ go_on (scan s [] (buffer ++ take n file)) (drop n file)
scan_piece n s buffer file h =
    rw (scan-append buffer (take n file) [] s, scan-clean buffer [] s h)
      (ap (scan s buffer) (sym (take-append-drop n file))
        ∙ scan-append (take n file) (drop n file) buffer s)

-- A clean buffer is as good as what was seen.
scan_buffer :
    (s : ServiceList) (buffer xs : List ℕ)
    → IsClean buffer
    → scan s [] (buffer ++ xs) ≡ scan s buffer xs
scan_buffer s buffer xs h = rw (scan-append buffer xs [] s, scan-clean buffer [] s h) refl

drop_shorter : (n : ℕ) (c : ℕ) (cs : List ℕ) → 0 < n → length (drop n (c ∷ cs)) < length (c ∷ cs)
drop_shorter zero c cs h = elim h [ ]
drop_shorter (suc n) c cs h = omega (arith, length-drop-le n cs)

after_read-scan :
    (loop : Loop) (got : ℕ) (s : ServiceList) (buffer : List ℕ) (c : ℕ) (cs : List ℕ)
    → 0 < got
    → IsClean buffer
    → ((s' : ServiceList) (left : List ℕ)
        → scan s [] (buffer ++ take got (c ∷ cs)) ≡ some (s', left)
        → loop s' left (drop got (c ∷ cs)) ≡ services_of (scan s' left (drop got (c ∷ cs))))
    → after_read loop s buffer (take got (c ∷ cs)) (drop got (c ∷ cs))
      ≡ services_of (scan s buffer (c ∷ cs))
unfolding after_read
after_read-scan loop zero s buffer c cs h clean ih = elim h [ ]
after_read-scan loop (suc g) s buffer c cs h clean ih =
    rw (scan_piece (suc g) s buffer (c ∷ cs) clean)
      (elim (Option-cases (scan s [] (buffer ++ c ∷ take g cs))) [
        | inl r ↦ rw r
        | inr ((s', left), r) ↦ rw r (ih s' left r)
      ])

nothing_read :
    (n : ℕ) (loop : Loop) (s : ServiceList) (buffer : List ℕ)
    → after_read loop s buffer (take n []) (drop n []) ≡ services_of (scan s buffer [])
unfolding after_read
nothing_read zero loop s buffer = refl
nothing_read (suc n) loop s buffer = refl

got_pos : (k n : ℕ) → 0 < k → n < size → 0 < smaller k (size - n)
got_pos k n h g = ground arith

piece_fits :
    (n : ℕ) (s s' : ServiceList) (buffer file left : List ℕ)
    → IsClean buffer
    → LinesFit (length buffer) file
    → scan s [] (buffer ++ take n file) ≡ some (s', left)
    → LinesFit (length left) (drop n file)
piece_fits n s s' buffer file left clean fits e =
    left-LinesFit (take n file) (drop n file) buffer s s' left
      (sym (scan_buffer s buffer (take n file) clean) ∙ e) (rw (take-append-drop n file) fits)

LinesFit-room : (n c : ℕ) (cs : List ℕ) → LinesFit n (c ∷ cs) → n < size
LinesFit-room n c cs h = h.0

read_loop-scan :
    (sizes buffer file : List ℕ) (s : ServiceList)
    → All (λ k. 0 < k) sizes
    → length file < length sizes
    → IsClean buffer
    → LinesFit (length buffer) file
    → read_loop sizes s buffer file ≡ services_of (scan s buffer file)
unfolding read_loop
read_loop-scan [] buffer file s hk enough clean fits = absurd (omega arith)
read_loop-scan (k ∷ sizes) buffer [] s hk enough clean fits =
    nothing_read (smaller k (size - length buffer)) (read_loop sizes) s buffer
read_loop-scan (k ∷ sizes) buffer (c ∷ cs) s (hk, hks) enough clean fits =
    let got = smaller k (size - length buffer) in
    let some_read = got_pos k (length buffer) hk (LinesFit-room _ c cs fits) in
    after_read-scan (read_loop sizes) got s buffer c cs some_read clean λ s' left e.
      read_loop-scan sizes left (drop got (c ∷ cs)) s' hks
        (omega (arith, drop_shorter got c cs some_read))
        (left-IsClean (buffer ++ take got (c ∷ cs)) [] s s' left tt e)
        (piece_fits got s s' buffer (c ∷ cs) left clean fits e)

-- If every call of `read` returns at least one byte until the end of the file, there are more calls
-- than bytes, and no line fills the buffer of 1024 bytes before its new line is seen, then the list
-- holds the records of the complete lines of the file, comments cut off, in order, and the end mark;
-- or reading faults where reading those lines does. What the pieces are does not matter, and an
-- unfinished last line is dropped.
pub read_services-read_lines :
    (sizes file : List ℕ)
    → All (λ k. 0 < k) sizes
    → length file < length sizes
    → LinesFit 0 file
    → read_services sizes file ≡ close_list (read_lines empty_list (complete_lines [] file))
unfolding read_services
read_services-read_lines sizes file hk enough fits =
    ap close_list
      (read_loop-scan sizes [] file empty_list hk enough tt fits ∙ scan-services file [] empty_list)
