-- ===== src/TextClean/Plain.antt =====
-- What the cleaned text holds, and what cleaning leaves alone.
use mathlib.Core.List.{reverse, reverse-append, reverse-reverse}
use clm.Base.{
  Bytes, is_continuation, ℕ, zero, suc, ◌≡◌, refl, sym, ap, ◌∙◌, inl, inr, Bool, true, ◌&&◌, ◌||◌,
  not, Option, none, some, [], ◌∷◌, ◌++◌, length, append-nil, append_assoc, arith, leb, ◌==◌,
  Bool-cases,
}
use clm.TextClean.{drop_last, clean_byte, clean_loop, clean_text}

-- A byte that plain text may hold: newline, tab, and no other control byte.
abbrev pub is_plain : ℕ → Bool
is_plain b = b == b'\n' || b == b'\t' || (leb 0x20 b && not (b == 0x7F))

abbrev pub IsPlain : Bytes → Type 0
IsPlain [] = Unit
IsPlain (b ∷ bs) = (is_plain b ≡ true) × IsPlain bs

drop_last-IsPlain : (out : Bytes) → IsPlain out → IsPlain (drop_last out)
unfolding drop_last
drop_last-IsPlain [] h = h
drop_last-IsPlain (b ∷ out) h = elim (Bool-cases (is_continuation b)) [
  | inl more ↦ rw more (drop_last-IsPlain out h.1)
  | inr first ↦ rw first h.1
]

clean_byte-IsPlain : (b : ℕ) (rest out : Bytes) → IsPlain out → IsPlain (clean_byte b rest out).1
unfolding clean_byte
clean_byte-IsPlain b rest out h = ground (arith, drop_last-IsPlain out h)

clean_loop-IsPlain :
    (fuel : ℕ) (rest out : Bytes) → IsPlain out → IsPlain (clean_loop fuel rest out)
unfolding clean_loop
clean_loop-IsPlain zero rest out h = h
clean_loop-IsPlain (suc fuel) [] out h = h
clean_loop-IsPlain (suc fuel) (b ∷ rest) out h =
    let (rest', out') = clean_byte b rest out in
    clean_loop-IsPlain fuel rest' out' (clean_byte-IsPlain b rest out h)

pub IsPlain-append : (xs ys : Bytes) → IsPlain xs → IsPlain ys → IsPlain (xs ++ ys)
IsPlain-append [] ys h k = k
IsPlain-append (x ∷ xs) ys h k = (h.0, IsPlain-append xs ys h.1 k)

IsPlain-reverse : (xs : Bytes) → IsPlain xs → IsPlain (reverse xs)
IsPlain-reverse [] h = h
IsPlain-reverse (x ∷ xs) h =
    rw (reverse-append (x ∷ []) xs)
      (IsPlain-append (reverse xs) (x ∷ []) (IsPlain-reverse xs h.1) (h.0, tt))

-- Cleaned text holds no escape byte and no control byte other than newline and tab.
pub clean_text-IsPlain : (input : Option Bytes) → IsPlain (clean_text input)
unfolding clean_text
clean_text-IsPlain none = tt
clean_text-IsPlain (some bs) = IsPlain-reverse _ (clean_loop-IsPlain (length bs) bs [] tt)

pub clean_byte_plain :
    (b : ℕ) (rest out : Bytes) → is_plain b ≡ true → clean_byte b rest out ≡ (rest, b ∷ out)
unfolding clean_byte
clean_byte_plain b rest out h = ground arith

clean_loop_plain :
    (rest out : Bytes) → IsPlain rest → clean_loop (length rest) rest out ≡ reverse rest ++ out
unfolding clean_loop
clean_loop_plain [] out h = refl
clean_loop_plain (b ∷ rest) out h =
    rw (clean_byte_plain b rest out h.0, clean_loop)
      (clean_loop_plain rest (b ∷ out) h.1
        ∙ sym (append_assoc (reverse rest) (b ∷ []) out)
        ∙ ap (λ l. l ++ out) (sym (reverse-append (b ∷ []) rest)))

-- Plain text is left as it is.
pub clean_text_plain : (bs : Bytes) → IsPlain bs → clean_text (some bs) ≡ bs
unfolding clean_text
clean_text_plain bs h =
    ap reverse (clean_loop_plain bs [] h ∙ append-nil (reverse bs)) ∙ reverse-reverse bs

-- Cleaning a second time changes nothing.
pub clean_text_idem :
    (input : Option Bytes) → clean_text (some (clean_text input)) ≡ clean_text input
clean_text_idem input = clean_text_plain (clean_text input) (clean_text-IsPlain input)
