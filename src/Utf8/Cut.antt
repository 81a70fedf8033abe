-- ===== src/Utf8/Cut.antt =====
-- Where well-formed text may be cut.
use native.Mathlib.Decide.{dec_le}
use clm.Base.{
  ℕ, zero, suc, ◌-◌, ◌≤◌, ◌<◌, ◌≡◌, refl, ap, ◌⊎◌, inl, inr, Bytes, is_continuation, false, [], ◌∷◌,
  ◌++◌, length, take, get_or, arith,
}
use clm.Utf8.{put_utf8}
use clm.Utf8.Chars.{IsScalar, put_utf8-tail}
use clm.Utf8.Repair.{IsText, done, char}

take_past :
    (enc rest : Bytes) (l : ℕ)
    → length enc ≤ l
    → take l (enc ++ rest) ≡ enc ++ take (l - length enc) rest
take_past [] rest l h = let e : l - 0 ≡ l = omega arith in rw e
take_past (b ∷ enc) rest zero h = absurd (omega arith)
take_past (b ∷ enc) rest (suc l) h =
    let e : suc l - suc (length enc) ≡ l - length enc = omega arith in
    rw e (ap (◌∷◌ b) (take_past enc rest l (omega arith)))

get_or_past :
    (enc rest : Bytes) (l : ℕ)
    → length enc ≤ l
    → get_or (enc ++ rest) l 0 ≡ get_or rest (l - length enc) 0
get_or_past [] rest l h = let e : l - 0 ≡ l = omega arith in rw e
get_or_past (b ∷ enc) rest zero h = absurd (omega arith)
get_or_past (b ∷ enc) rest (suc l) h =
    let e : suc l - suc (length enc) ≡ l - length enc = omega arith in
    rw e (get_or_past enc rest l (omega arith))

-- A place in well-formed text where a character may end.
abbrev pub IsBoundary : ℕ → Bytes → Type 0
IsBoundary l s = (l ≡ 0) ⊎ (is_continuation (get_or s l 0) ≡ false)

take_nil : (l : ℕ) → take {A = ℕ} l [] ≡ []
take_nil zero = refl
take_nil (suc l) = refl

IsBoundary-past :
    (enc rest s : Bytes) (l : ℕ)
    → s ≡ enc ++ rest
    → length enc ≤ l
    → IsBoundary l s
    → IsBoundary (l - length enc) rest
IsBoundary-past enc rest s l e h (inl z) = inl (omega arith)
IsBoundary-past enc rest s l e h (inr c) =
    let c' : is_continuation (get_or (enc ++ rest) l 0) ≡ false = rw (← e) c in
    inr (rw (← get_or_past enc rest l h) c')

-- No character ends inside the bytes of one.
boundary_inside :
    (cp : ℕ) (rest s : Bytes) (l : ℕ)
    → IsScalar cp
    → s ≡ put_utf8 cp ++ rest
    → l < length (put_utf8 cp)
    → IsBoundary l s
    → l ≡ 0
boundary_inside cp rest s zero h e k b = refl
boundary_inside cp rest s (suc l) h e k (inl z) = z
boundary_inside cp rest s (suc l) h e k (inr c) =
    let c' : is_continuation (get_or (put_utf8 cp ++ rest) (suc l) 0) ≡ false = rw (← e) c in
    absurd (cc (c', put_utf8-tail cp rest l h k))

-- Text that is cut on a character boundary is well-formed.
pub take-IsText : (s : Bytes) (l : ℕ) → IsText s → IsBoundary l s → IsText (take l s)
take-IsText s l done b = rw (take_nil l) done
take-IsText s l (char cp rest h e t) b = elim (dec_le (length (put_utf8 cp)) l) [
  | yes past ↦
      let left = l - length (put_utf8 cp) in
      let t' = take-IsText rest left t (IsBoundary-past (put_utf8 cp) rest s l e past b) in
      char cp (take left rest) h (rw e (take_past (put_utf8 cp) rest l past)) t'
  | no inside ↦ rw (boundary_inside cp rest s l h e (omega arith) b) done
]
