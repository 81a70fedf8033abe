-- ===== src/TextClean/Steps.antt =====
-- The loop of `clm_clean_text`, and what one piece of the input does to the text before it.
use mathlib.Core.List.{reverse, reverse-append}
use clm.Base.{
  Bytes, is_continuation, ℕ, zero, suc, ◌≤◌, ◌≡◌, refl, sym, ap, ◌∙◌, true, false, ◌&&◌, some, [],
  ◌∷◌, ◌++◌, append_assoc, length, arith, leb,
}
use clm.TextClean.Plain.{is_plain, IsPlain, clean_byte_plain}
use clm.TextClean.{drop_last, skip_csi, skip_osc, skip_escape, clean_byte, clean_loop, clean_text}

skip_csi-le : (r : Bytes) → length (skip_csi r) ≤ length r
unfolding skip_csi
skip_csi-le [] = omega arith
skip_csi-le (b ∷ r) = ground (arith, skip_csi-le r)

skip_osc-le : (r : Bytes) → length (skip_osc r) ≤ length r
unfolding skip_osc
skip_osc-le [] = omega arith
skip_osc-le (b ∷ []) = omega arith
skip_osc-le (b ∷ c ∷ r) = ground (arith, skip_osc-le (c ∷ r))

skip_escape-le : (r : Bytes) → length (skip_escape r) ≤ length r
unfolding skip_escape
skip_escape-le [] = omega arith
skip_escape-le (b ∷ r) = ground (arith, skip_csi-le r, skip_osc-le r)

clean_byte-le : (b : ℕ) (r out : Bytes) → length (clean_byte b r out).0 ≤ length r
unfolding clean_byte
clean_byte-le b r out = ground (arith, skip_escape-le r)

-- More fuel than there are bytes changes nothing.
pub clean_loop_fuel :
    (k l : ℕ) (rest out : Bytes)
    → length rest ≤ k
    → length rest ≤ l
    → clean_loop k rest out ≡ clean_loop l rest out
unfolding clean_loop
clean_loop_fuel zero zero rest out h g = refl
clean_loop_fuel zero (suc l) [] out h g = refl
clean_loop_fuel zero (suc l) (b ∷ rest) out h g = absurd (omega arith)
clean_loop_fuel (suc k) zero [] out h g = refl
clean_loop_fuel (suc k) zero (b ∷ rest) out h g = absurd (omega arith)
clean_loop_fuel (suc k) (suc l) [] out h g = refl
clean_loop_fuel (suc k) (suc l) (b ∷ rest) out h g =
    clean_loop_fuel k l (clean_byte b rest out).0 (clean_byte b rest out).1
      (omega (arith, clean_byte-le b rest out)) (omega (arith, clean_byte-le b rest out))

-- The loop from a state, with as much fuel as it needs.
abbrev pub run : Bytes → Bytes → Bytes
run rest out = clean_loop (length rest) rest out

run_step :
    (b : ℕ) (rest out : Bytes)
    → run (b ∷ rest) out ≡ run (clean_byte b rest out).0 (clean_byte b rest out).1
unfolding clean_loop
run_step b rest out =
    clean_loop_fuel (length rest) _ (clean_byte b rest out).0 (clean_byte b rest out).1
      (clean_byte-le b rest out) (omega arith)

-- The bytes of one character: its first byte, then continuation bytes.
abbrev pub IsTail : Bytes → Type 0
IsTail [] = Unit
IsTail (b ∷ bs) = (is_continuation b ≡ true) × IsTail bs

drop_last_char :
    (tail out : Bytes) (first : ℕ)
    → IsTail tail
    → is_continuation first ≡ false
    → drop_last (tail ++ first ∷ out) ≡ out
unfolding drop_last
drop_last_char [] out first h f = rw f
drop_last_char (b ∷ tail) out first h f = rw h.0 (drop_last_char tail out first h.1 f)

run_overstrike :
    (tail out rest : Bytes) (first : ℕ)
    → IsTail tail
    → is_continuation first ≡ false
    → run (0x08 ∷ rest) (tail ++ first ∷ out) ≡ run rest out
unfolding clean_byte
run_overstrike tail out rest first h f =
    run_step 0x08 rest (tail ++ first ∷ out) ∙ ap (run rest) (drop_last_char tail out first h f)

-- No byte of a control sequence ends it.
abbrev pub IsParameters : Bytes → Type 0
IsParameters [] = Unit
IsParameters (b ∷ bs) = ((leb 0x40 b && leb b 0x7E) ≡ false) × IsParameters bs

skip_csi_whole :
    (params rest : Bytes) (final : ℕ)
    → IsParameters params
    → (leb 0x40 final && leb final 0x7E) ≡ true
    → skip_csi (params ++ final ∷ rest) ≡ rest
unfolding skip_csi
skip_csi_whole [] rest final h f = rw f
skip_csi_whole (b ∷ params) rest final h f = rw h.0 (skip_csi_whole params rest final h.1 f)

run_csi :
    (params out rest : Bytes) (final : ℕ)
    → IsParameters params
    → (leb 0x40 final && leb final 0x7E) ≡ true
    → run (0x1B ∷ b'[' ∷ (params ++ final ∷ rest)) out ≡ run rest out
unfolding skip_escape clean_byte
run_csi params out rest final h f =
    run_step 0x1B (b'[' ∷ (params ++ final ∷ rest)) out
    ∙ ap (λ r. run r out) (skip_csi_whole params rest final h f)

run_plain :
    (pre rest out : Bytes) → IsPlain pre → run (pre ++ rest) out ≡ run rest (reverse pre ++ out)
run_plain [] rest out h = refl
run_plain (b ∷ pre) rest out h =
    run_step b (pre ++ rest) out
    ∙ ap (λ p. run p.0 p.1) (clean_byte_plain b (pre ++ rest) out h.0)
    ∙ run_plain pre rest (b ∷ out) h.1
    ∙ ap (run rest) (
        sym (append_assoc (reverse pre) (b ∷ []) out)
        ∙ ap (λ l. l ++ out) (sym (reverse-append (b ∷ []) pre)))

-- A control sequence, ESC [ parameters final, behind plain text leaves no byte in the result.
pub clean_text_csi :
    (pre params rest : Bytes) (final : ℕ)
    → IsPlain pre
    → IsParameters params
    → (leb 0x40 final && leb final 0x7E) ≡ true
    → clean_text (some (pre ++ (0x1B ∷ b'[' ∷ (params ++ final ∷ rest))))
      ≡ clean_text (some (pre ++ rest))
unfolding clean_text
clean_text_csi pre params rest final p h f = ap reverse (
    run_plain pre _ [] p
    ∙ run_csi params (reverse pre ++ []) rest final h f
    ∙ sym (run_plain pre rest [] p))

IsTail-append : (xs ys : Bytes) → IsTail xs → IsTail ys → IsTail (xs ++ ys)
IsTail-append [] ys h k = k
IsTail-append (x ∷ xs) ys h k = (h.0, IsTail-append xs ys h.1 k)

IsTail-reverse : (xs : Bytes) → IsTail xs → IsTail (reverse xs)
IsTail-reverse [] h = h
IsTail-reverse (x ∷ xs) h =
    rw (reverse-append (x ∷ []) xs)
      (IsTail-append (reverse xs) (x ∷ []) (IsTail-reverse xs h.1) (h.0, tt))

IsTail-IsPlain : (xs : Bytes) → IsTail xs → IsPlain xs
IsTail-IsPlain [] h = tt
IsTail-IsPlain (x ∷ xs) h = (ground (arith, h.0), IsTail-IsPlain xs h.1)

-- Overstrike: a backspace behind plain text takes back the one character before it, whatever its
-- number of bytes, and nothing else.
pub clean_text_overstrike :
    (pre tail rest : Bytes) (first : ℕ)
    → IsPlain pre
    → is_plain first ≡ true
    → is_continuation first ≡ false
    → IsTail tail
    → clean_text (some (pre ++ (first ∷ (tail ++ 0x08 ∷ rest)))) ≡ clean_text (some (pre ++ rest))
unfolding clean_text
clean_text_overstrike pre tail rest first p q f h = ap reverse (
    run_plain pre _ [] p
    ∙ run_plain (first ∷ tail) (0x08 ∷ rest) (reverse pre ++ []) (q, IsTail-IsPlain tail h)
    ∙ ap (run (0x08 ∷ rest)) (shape (reverse pre ++ []))
    ∙ run_overstrike (reverse tail) (reverse pre ++ []) rest first (IsTail-reverse tail h) f
    ∙ sym (run_plain pre rest [] p))
  where
    shape : (out : Bytes) → reverse (first ∷ tail) ++ out ≡ reverse tail ++ first ∷ out
    shape out = rw (reverse-append (first ∷ []) tail) (append_assoc (reverse tail) (first ∷ []) out)
