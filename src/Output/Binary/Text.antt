-- ===== src/Output/Binary/Text.antt =====
-- What the test for binary output says of text.
use clm.Base.{
  ℕ, zero, suc, ◌+◌, ◌≤◌, ◌<◌, ◌≡◌, refl, ap, subst, ◌∙◌, Bytes, [], ◌∷◌, ◌++◌, length, drop,
  length-append, drop-length_append, arith, ◌==◌, if-cases,
}
use clm.Output.Binary.{lead_need, follows, scan_lead, scan_char, binary_loop, find_binary_offset}
use clm.Utf8.Chars.{IsScalar}
use clm.Utf8.Repair.{IsText, done, char}
use clm.Utf8.{put_utf8}

abbrev pub NoNul : Bytes → Type 0
NoNul [] = Unit
NoNul (b ∷ s) = (0 < b) × NoNul s

NoNul-behind : (xs ys : Bytes) → NoNul (xs ++ ys) → NoNul ys
NoNul-behind [] ys h = h
NoNul-behind (x ∷ xs) ys h = NoNul-behind xs ys h.1

NoNul-char : (cp : ℕ) (rest : Bytes) → NoNul (put_utf8 cp ++ rest) → 0 < cp
unfolding put_utf8
NoNul-char cp rest h = ground arith

scan_char-put_utf8 :
    (cp : ℕ) (rest : Bytes)
    → IsScalar cp
    → 0 < cp
    → scan_char (put_utf8 cp ++ rest) ≡ length (put_utf8 cp)
unfolding put_utf8 scan_char scan_lead lead_need follows
scan_char-put_utf8 cp rest h p = ground arith

put_utf8-not_empty : (cp : ℕ) → 1 ≤ length (put_utf8 cp)
unfolding put_utf8
put_utf8-not_empty cp = ground arith

binary_loop-step :
    (fuel n : ℕ) (s : Bytes)
    → scan_char s ≡ n
    → 1 ≤ n
    → binary_loop (suc fuel) s ≡ n + binary_loop fuel (drop n s)
unfolding binary_loop
binary_loop-step fuel n s e l = rw e (
    if-cases (λ x. x ≡ n + binary_loop fuel (drop n s)) (n == 0) (λ p. absurd (ground arith))
      (λ p. refl))

binary_loop-text :
    (fuel : ℕ) (s : Bytes) → length s ≤ fuel → IsText s → NoNul s → binary_loop fuel s ≡ length s
unfolding binary_loop scan_char
binary_loop-text zero s l done n = refl
binary_loop-text (suc fuel) s l done n = refl
binary_loop-text zero s l (char cp rest h e t) n =
    let size = ap length e ∙ length-append (put_utf8 cp) rest in
    let some_bytes = put_utf8-not_empty cp in absurd (omega arith)
binary_loop-text (suc fuel) s l (char cp rest h e t) n =
    let n' = subst NoNul e n in
    let size = ap length e ∙ length-append (put_utf8 cp) rest in
    let some_bytes = put_utf8-not_empty cp in
    let scanned = ap scan_char e ∙ scan_char-put_utf8 cp rest h (NoNul-char cp rest n') in
    let left = ap (drop (length (put_utf8 cp))) e ∙ drop-length_append (put_utf8 cp) rest in
    let further = binary_loop-text fuel rest (omega arith) t (NoNul-behind (put_utf8 cp) rest n') in
    binary_loop-step fuel (length (put_utf8 cp)) s scanned some_bytes
    ∙ (ap (λ r. length (put_utf8 cp) + binary_loop fuel r) left ∙ omega (arith, further, size))

-- Well-formed UTF-8 without a NUL is never taken for binary data: the scan comes to its end.
pub find_binary_offset-text : (d : Bytes) → IsText d → NoNul d → find_binary_offset d ≡ length d
unfolding find_binary_offset
find_binary_offset-text d t n = binary_loop-text (length d) d (omega arith) t n
