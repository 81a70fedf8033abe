-- ===== src/Utf8/Repair.antt =====
-- `utf8_repair` on well-formed text and on other bytes.
use clm.Base.{
  Bytes, ℕ, zero, suc, ◌+◌, ◌*◌, ◌≤◌, ◌<◌, ◌≡◌, ◌↔◌, refl, sym, ap, subst, ◌∙◌, inl, inr, Option,
  none, some, [], ◌∷◌, ◌++◌, length, length-append, length-drop, length-take, take, drop,
  take-length_append, drop-length_append, arith, if◌then◌else◌, ◌==◌, Bool-cases,
}
use clm.Utf8.{
  put_utf8, utf8_seq, seq_rest, seq_need, turn_length, count_bad, replacement, copy_repaired,
  utf8_repair,
}
use clm.Utf8.Chars.{IsScalar, AreBytes, FirstChar-of_utf8_seq, utf8_seq-put_utf8}

-- A string is well-formed when it is the encoding of scalar values.
pub data IsText : Bytes → Type 0 where
  done : IsText []
  char :
      {s : Bytes} (cp : ℕ) (rest : Bytes)
      → IsScalar cp
      → s ≡ put_utf8 cp ++ rest
      → IsText rest
      → IsText s

pub utf8_seq-le-length : (s : Bytes) → utf8_seq s ≤ length s
unfolding utf8_seq
utf8_seq-le-length [] = omega arith
utf8_seq-le-length (b ∷ s) = ground (arith, needed (seq_need b))
  where
    needed : (o : Option ℕ) → seq_rest b s o ≤ suc (length s)
    needed none = omega arith
    needed (some need) = ground arith

AreBytes-drop : (n : ℕ) (s : Bytes) → AreBytes s → AreBytes (drop n s)
AreBytes-drop zero s h = h
AreBytes-drop (suc n) [] h = tt
AreBytes-drop (suc n) (b ∷ s) h = AreBytes-drop n s h.1

put_utf8_pos : (cp : ℕ) → 0 < length (put_utf8 cp)
unfolding put_utf8
put_utf8_pos cp = ground arith

turn-le : (b : ℕ) (s : Bytes) → turn_length (utf8_seq (b ∷ s)) ≤ suc (length s)
turn-le b s = ground (arith, utf8_seq-le-length (b ∷ s))

turn_suc : (n : ℕ) → turn_length (suc n) ≡ suc n
turn_suc n = ground arith

turn_pos : (n : ℕ) → 0 < turn_length n
turn_pos n = ground arith

-- What is left after a turn is shorter.
left : (b : ℕ) (s : Bytes) → Bytes
left b s = drop (turn_length (utf8_seq (b ∷ s))) (b ∷ s)

left-le : (b : ℕ) (s : Bytes) → length (left b s) ≤ length s
unfolding left
left-le b s =
    omega (arith, length-drop (turn_length (utf8_seq (b ∷ s))) (b ∷ s), turn_pos (utf8_seq (b ∷ s)))

replacement-IsText : (rest : Bytes) → IsText rest → IsText (replacement ++ rest)
unfolding put_utf8
replacement-IsText rest h = char 0xFFFD rest (inr (omega arith)) refl h

take_of : (s enc behind : Bytes) (n : ℕ) → s ≡ enc ++ behind → length enc ≡ n → take n s ≡ enc
take_of s enc behind n p q = rw (p, ← q) (take-length_append enc behind)

drop_of : (s enc behind : Bytes) (n : ℕ) → s ≡ enc ++ behind → length enc ≡ n → drop n s ≡ behind
drop_of s enc behind n p q = rw (p, ← q) (drop-length_append enc behind)

-- A turn on a valid sequence copies the encoding of a scalar value.
valid_turn :
    (s : Bytes) (n : ℕ)
    → AreBytes s
    → utf8_seq s ≡ suc n
    → (cp : ℕ) × IsScalar cp × (take (suc n) s ≡ put_utf8 cp) × (s ≡ put_utf8 cp ++ drop (suc n) s)
valid_turn s n w h =
    let f = FirstChar-of_utf8_seq s n w h in
    let enc = put_utf8 f.code_point in
    (
      f.code_point,
      f.scalar,
      take_of s enc f.behind (suc n) f.splits f.size,
      f.splits ∙ ap (◌++◌ enc) (sym (drop_of s enc f.behind (suc n) f.splits f.size)),
    )

-- What one turn of the second loop writes.
abbrev copied : ℕ → Bytes → Bytes
copied n s = if n == 0 then replacement else take n s

copied-suc : (n : ℕ) (s : Bytes) → copied (suc n) s ≡ take (suc n) s
copied-suc n s = ground arith

-- One for a byte that is in no sequence.
abbrev bad : ℕ → ℕ
bad n = if n == 0 then 1 else 0

copied-IsText :
    (n : ℕ) (s rest : Bytes)
    → AreBytes s
    → utf8_seq s ≡ n
    → IsText rest
    → IsText (copied n s ++ rest)
copied-IsText zero s rest w e t = replacement-IsText rest t
copied-IsText (suc n) s rest w e t =
    let v = valid_turn s n w e in char v.0 rest v.1 (ap (λ l. l ++ rest) (copied-suc n s ∙ v.2)) t

left-AreBytes : (b : ℕ) (s : Bytes) → AreBytes (b ∷ s) → AreBytes (left b s)
unfolding left
left-AreBytes b s w = AreBytes-drop (turn_length (utf8_seq (b ∷ s))) (b ∷ s) w

copy_repaired-IsText :
    (fuel : ℕ) (s : Bytes) → AreBytes s → length s ≤ fuel → IsText (copy_repaired fuel s)
unfolding copy_repaired left
copy_repaired-IsText zero s w h = done
copy_repaired-IsText (suc fuel) [] w h = done
copy_repaired-IsText (suc fuel) (b ∷ s) w h =
    copied-IsText (utf8_seq (b ∷ s)) (b ∷ s) _ w refl
      (copy_repaired-IsText fuel (left b s) (left-AreBytes b s w) (omega (arith, left-le b s)))

length-copied : (n : ℕ) (s : Bytes) → n ≤ length s → length (copied n s) ≡ turn_length n + 2 * bad n
length-copied zero s h = omega arith
length-copied (suc n) s h = rw (copied-suc n s) (ground (arith, length-take (suc n) s))

-- The copy has two bytes more for each bad one.
length-copy_repaired :
    (fuel : ℕ) (s : Bytes)
    → length s ≤ fuel
    → length (copy_repaired fuel s) ≡ length s + 2 * count_bad fuel s
unfolding copy_repaired count_bad left
length-copy_repaired zero [] h = omega arith
length-copy_repaired zero (b ∷ s) h = absurd (omega arith)
length-copy_repaired (suc fuel) [] h = omega arith
length-copy_repaired (suc fuel) (b ∷ s) h =
    let n = utf8_seq (b ∷ s) in
    let ih = length-copy_repaired fuel (left b s) (omega (arith, left-le b s)) in
    length-append (copied n (b ∷ s)) (copy_repaired fuel (left b s))
    ∙ omega (
      arith,
      ih,
      length-copied n (b ∷ s) (utf8_seq-le-length (b ∷ s)),
      length-drop (turn_length n) (b ∷ s),
      turn-le b s,
    )

no_bad :
    (n : ℕ) (s : Bytes)
    → AreBytes s
    → utf8_seq s ≡ n
    → bad n ≡ 0
    → IsText (drop (turn_length n) s)
    → IsText s
no_bad zero s w e z t = absurd (ground arith)
no_bad (suc n) s w e z t =
    let v = valid_turn s n w e in char v.0 (drop (suc n) s) v.1 v.3 (rw (turn_suc n) at t)

IsText-of_count_bad :
    (fuel : ℕ) (s : Bytes) → AreBytes s → length s ≤ fuel → count_bad fuel s ≡ 0 → IsText s
unfolding count_bad left
IsText-of_count_bad zero [] w h z = done
IsText-of_count_bad zero (b ∷ s) w h z = absurd (omega arith)
IsText-of_count_bad (suc fuel) [] w h z = done
IsText-of_count_bad (suc fuel) (b ∷ s) w h z =
    no_bad (utf8_seq (b ∷ s)) (b ∷ s) w refl (omega arith) (
      IsText-of_count_bad fuel (left b s) (left-AreBytes b s w) (omega (arith, left-le b s))
        (omega arith))

-- A turn at the start of well-formed text goes over one code point.
text_turn :
    {s : Bytes} (cp : ℕ) (rest : Bytes)
    → IsScalar cp
    → s ≡ put_utf8 cp ++ rest
    → (utf8_seq s ≡ length (put_utf8 cp)) × (drop (turn_length (utf8_seq s)) s ≡ rest)
text_turn {s} cp rest h e =
    let n : utf8_seq s ≡ length (put_utf8 cp) = rw e (utf8_seq-put_utf8 cp rest h) in
    let t : turn_length (utf8_seq s) ≡ length (put_utf8 cp) = ground (arith, put_utf8_pos cp) in
    (n, rw t (drop_of s (put_utf8 cp) rest _ e refl))

count_bad_text : (fuel : ℕ) (s : Bytes) → IsText s → count_bad fuel s ≡ 0
unfolding count_bad
count_bad_text zero s t = refl
count_bad_text (suc fuel) [] t = refl
count_bad_text (suc fuel) (b ∷ s) (char cp rest h e t) =
    let (n, d) = text_turn cp rest h e in
    rw d (ground (arith, count_bad_text fuel rest t, put_utf8_pos cp))

-- For a string of bytes: `utf8_repair` returns NULL exactly when the string is well-formed.
pub utf8_repair-none : (s : Bytes) → AreBytes s → (utf8_repair s ≡ none) ↔ IsText s
unfolding utf8_repair
utf8_repair-none s w = (to, back)
  where
    to : utf8_repair s ≡ none → IsText s
    to h = IsText-of_count_bad (length s) s w (omega arith) (ground arith)

    back : IsText s → utf8_repair s ≡ none
    back t = ground (arith, count_bad_text (length s) s t)

-- What it returns otherwise is well-formed and fits the buffer that is allocated for it, `len` and
-- two bytes for each bad one, with room for the NUL.
pub utf8_repair-some :
    (s t : Bytes)
    → AreBytes s
    → utf8_repair s ≡ some t
    → IsText t × (length t ≡ length s + count_bad (length s) s * 2)
unfolding utf8_repair
utf8_repair-some s t w h = elim (Bool-cases (count_bad (length s) s == 0)) [
  | inl z ↦ absurd (cc (rw z at h))
  | inr nz ↦
      let e : copy_repaired (length s) s ≡ t = ground arith in
      (
        subst IsText e (copy_repaired-IsText (length s) s w (omega arith)),
        ap length (sym e) ∙ omega (arith, length-copy_repaired (length s) s (omega arith)),
      )
]
