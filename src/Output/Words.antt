-- ===== src/Output/Words.antt =====
-- The walk over the words of tool output: how far it goes, and where it stops inside of a word.
use clm.Base.{
  ℕ, zero, suc, ◌+◌, ◌-◌, ◌≤◌, ◌≡◌, ◌⊎◌, Bytes, true, ◌||◌, Option, none, some, [], ◌∷◌, length,
  take, drop, ltb, ◌==◌, arith, if-cases, Bool-cases, inl, inr, subst, length-take, length-drop,
}
use clm.Output.{
  is_space, byte_cost, word_cost, spaces, word_length, next_word, next_length, Fit, cut_word,
  fit_words,
}

spaces-le : (s : Bytes) → spaces s ≤ length s
unfolding spaces
spaces-le [] = omega arith
spaces-le (b ∷ s) = ground (arith, spaces-le s)

word_length-le : (s : Bytes) → word_length s ≤ length s
unfolding word_length
word_length-le [] = omega arith
word_length-le (b ∷ s) = ground (arith, word_length-le s)

pub next_length-le : (s : Bytes) → next_length s ≤ length s
next_length-le s =
    let a = spaces-le s in
    let b = word_length-le (drop (spaces s) s) in
    let c = length-drop (spaces s) s in
    let d = length-take (word_length (drop (spaces s) s)) (drop (spaces s) s) in omega arith

pub spaces_le_next : (s : Bytes) → spaces s ≤ next_length s
spaces_le_next s = omega arith

pub cut_word-bounds :
    (w : Bytes) (wl end cost budget maxbytes : ℕ)
    → (end ≤ cut_word w wl end cost budget maxbytes)
      × (cut_word w wl end cost budget maxbytes ≤ end + length w)
unfolding cut_word
cut_word-bounds [] wl end cost budget maxbytes = ground arith
cut_word-bounds (b ∷ w) wl end cost budget maxbytes =
    let further = cut_word-bounds w wl (suc end) (cost + byte_cost b wl) budget maxbytes in
    ground arith

byte_cost-le : (b n : ℕ) → byte_cost b n ≤ 12
unfolding byte_cost
byte_cost-le b n = ground arith

cut_word-starts :
    (b : ℕ) (w : Bytes) (wl budget maxbytes : ℕ)
    → 15 ≤ budget
    → 1 ≤ maxbytes
    → 1 ≤ cut_word (b ∷ w) wl 0 3 budget maxbytes
unfolding cut_word
cut_word-starts b w wl budget maxbytes r m =
    let most = byte_cost-le b wl in
    let further = cut_word-bounds w wl 1 (3 + byte_cost b wl) budget maxbytes in ground arith

cut_word-past :
    (w : Bytes) (wl end budget maxbytes : ℕ) → 1 ≤ cut_word w wl (suc end) 3 budget maxbytes
cut_word-past w wl end budget maxbytes =
    let bounds = cut_word-bounds w wl (suc end) 3 budget maxbytes in omega arith

-- The first word, or the spaces before it.
inside-starts :
    (b : ℕ) (s : Bytes) (budget maxbytes : ℕ)
    → 15 ≤ budget
    → 1 ≤ maxbytes
    → 1
      ≤ cut_word (next_word (b ∷ s)) (length (next_word (b ∷ s))) (spaces (b ∷ s)) 3 budget maxbytes
unfolding spaces word_length
inside-starts b s budget maxbytes r m = elim (Bool-cases (is_space b)) [
  | inl e ↦ rw e (
      cut_word-past (take (word_length (drop (spaces s) s)) (drop (spaces s) s))
        (length (take (word_length (drop (spaces s) s)) (drop (spaces s) s))) (spaces s) budget
        maxbytes)
  | inr e ↦ rw e (
      rw e (
        cut_word-starts b (take (word_length s) s) (suc (length (take (word_length s) s))) budget
          maxbytes r m))
]

next_length-positive : (b : ℕ) (s : Bytes) → 1 ≤ next_length (b ∷ s)
unfolding spaces word_length
next_length-positive b s = elim (Bool-cases (is_space b)) [
  | inl e ↦ rw e (omega arith)
  | inr e ↦ rw e (rw e (omega arith))
]

-- What holds of an optional value, if there is one.
abbrev pub IfAny : (ℕ → Type 0) → Option ℕ → Type 0
IfAny P none = Unit
IfAny P (some k) = P k

pub IfAny-imp : (o : Option ℕ) (P Q : ℕ → Type 0) → ((k : ℕ) → P k → Q k) → IfAny P o → IfAny Q o
IfAny-imp none P Q f h = tt
IfAny-imp (some k) P Q f h = f k h

zero_add : (n : ℕ) → n ≡ 0 + n
zero_add n = omega arith

-- Where a walk stops that starts behind `i` bytes and has `n` before it: not past them, and if inside of
-- a word, then not past its end, and past its start where there is room for a byte.
unfoldable pub IsWithin : ℕ → ℕ → ℕ → ℕ → Fit → Type 0
IsWithin budget maxbytes i n f =
    (f.stop ≤ i + n)
    × IfAny (λ k. (f.stop ≤ k) × (k ≤ i + n) × (15 ≤ budget → 1 ≤ maxbytes → 1 ≤ f.stop)) f.word_end

stopped-IsWithin :
    (budget maxbytes i n : ℕ) → IsWithin budget maxbytes i n (record { stop = i; word_end = none })
unfolding IsWithin
stopped-IsWithin budget maxbytes i n = (omega arith, tt)

inside-IsWithin :
    (b : ℕ) (s : Bytes) (i cost budget maxbytes : ℕ)
    → (i ≡ 0 → cost ≡ 0)
    → (i == 0) ≡ true
    → IsWithin budget maxbytes i (suc (length s)) (record {
      stop =
          cut_word
            (next_word (b ∷ s))
            (length (next_word (b ∷ s)))
            (i + spaces (b ∷ s))
            (cost + 3)
            budget
            maxbytes;
      word_end = some (i + next_length (b ∷ s));
    })
unfolding IsWithin
inside-IsWithin b s i cost budget maxbytes c z =
    let at_0 : i ≡ 0 = ground arith in
    let free = c at_0 in
    let bounds =
      cut_word-bounds (next_word (b ∷ s)) (length (next_word (b ∷ s))) (0 + spaces (b ∷ s)) 3 budget
        maxbytes in
    let most = next_length-le (b ∷ s) in
    rw (at_0, free)
      (
        omega arith,
        (
          omega arith,
          omega arith,
          λ r m.
              subst
                (λ j.
                  1 ≤ cut_word (next_word (b ∷ s)) (length (next_word (b ∷ s))) j 3 budget maxbytes)
                (zero_add (spaces (b ∷ s))) (inside-starts b s budget maxbytes r m),
        ),
      )

wider-IsWithin :
    (budget maxbytes i n m : ℕ) (f : Fit)
    → m ≤ n
    → IsWithin budget maxbytes (i + m) (n - m) f
    → IsWithin budget maxbytes i n f
unfolding IsWithin
wider-IsWithin budget maxbytes i n m f l w =
    (omega arith, IfAny-imp f.word_end _ _ (λ k h. (h.0, omega arith, h.2)) w.1)

pub fit_words-IsWithin :
    (fuel : ℕ) (s : Bytes) (i cost budget maxbytes : ℕ)
    → (i ≡ 0 → cost ≡ 0)
    → IsWithin budget maxbytes i (length s) (fit_words fuel s i cost budget maxbytes)
unfolding fit_words
fit_words-IsWithin zero s i cost budget maxbytes c = stopped-IsWithin budget maxbytes i (length s)
fit_words-IsWithin (suc fuel) [] i cost budget maxbytes c = stopped-IsWithin budget maxbytes i 0
fit_words-IsWithin (suc fuel) (b ∷ s) i cost budget maxbytes c =
    let P = IsWithin budget maxbytes i (suc (length s)) in
    let k = i + next_length (b ∷ s) in
    let spent = cost + word_cost (next_word (b ∷ s)) in
    let some_length = next_length-positive b s in
    if-cases P (ltb maxbytes k || ltb budget spent)
      (λ p.
        if-cases P (i == 0) (λ q. inside-IsWithin b s i cost budget maxbytes c q)
          (λ q. stopped-IsWithin budget maxbytes i (suc (length s))))
      (λ p.
        wider-IsWithin budget maxbytes i (suc (length s)) (next_length (b ∷ s))
          (fit_words fuel (drop (next_length (b ∷ s)) (b ∷ s)) k spent budget maxbytes)
          (next_length-le (b ∷ s))
          (subst
            (λ n.
              IsWithin budget maxbytes k n
                (fit_words fuel (drop (next_length (b ∷ s)) (b ∷ s)) k spent budget maxbytes))
            (length-drop (next_length (b ∷ s)) (b ∷ s))
            (fit_words-IsWithin fuel (drop (next_length (b ∷ s)) (b ∷ s)) k spent budget maxbytes
              (λ z. absurd (omega arith)))))

cut_word-held :
    (w : Bytes) (wl end cost budget maxbytes : ℕ)
    → (cut_word w wl end cost budget maxbytes ≤ maxbytes)
      ⊎ (cut_word w wl end cost budget maxbytes ≤ end)
unfolding cut_word
cut_word-held [] wl end cost budget maxbytes = inr (omega arith)
cut_word-held (b ∷ w) wl end cost budget maxbytes =
    let further = cut_word-held w wl (suc end) (cost + byte_cost b wl) budget maxbytes in
    ground arith

-- The walk takes no more bytes than it may, or the spaces at the front.
pub fit_words-held :
    (fuel : ℕ) (s : Bytes) (i cost budget maxbytes : ℕ)
    → i ≤ maxbytes
    → ((fit_words fuel s i cost budget maxbytes).stop ≤ maxbytes)
      ⊎ ((i ≡ 0) × ((fit_words fuel s i cost budget maxbytes).stop ≤ spaces s))
unfolding fit_words
fit_words-held zero s i cost budget maxbytes l = inl l
fit_words-held (suc fuel) [] i cost budget maxbytes l = inl l
fit_words-held (suc fuel) (b ∷ s) i cost budget maxbytes l =
    let P : Fit → Type 0 = λ f. (f.stop ≤ maxbytes) ⊎ ((i ≡ 0) × (f.stop ≤ spaces (b ∷ s))) in
    let k = i + next_length (b ∷ s) in
    let w = next_word (b ∷ s) in
    let spent = cost + word_cost w in
    let inside = cut_word-held w (length w) (i + spaces (b ∷ s)) (cost + 3) budget maxbytes in
    let some_length = next_length-positive b s in
    if-cases P (ltb maxbytes k || ltb budget spent)
      (λ p.
        if-cases P (i == 0)
          (λ q.
            let at_0 : i ≡ 0 = ground arith in
            elim inside [ inl h ↦ inl h | inr h ↦ inr (at_0, omega (arith, h, at_0)) ])
          (λ q. inl l))
      (λ p.
        let few : k ≤ maxbytes = ground arith in
        elim (fit_words-held fuel (drop (next_length (b ∷ s)) (b ∷ s)) k spent budget maxbytes
          few) [ inl h ↦ inl h | inr h ↦ absurd (omega (arith, h.0, some_length)) ])

-- A word that the walk stops inside of is the first one.
pub fit_words-first :
    (fuel : ℕ) (s : Bytes) (i cost budget maxbytes : ℕ)
    → IfAny (λ k. (i ≡ 0) × (k ≤ next_length s)) (fit_words fuel s i cost budget maxbytes).word_end
unfolding fit_words
fit_words-first zero s i cost budget maxbytes = tt
fit_words-first (suc fuel) [] i cost budget maxbytes = tt
fit_words-first (suc fuel) (b ∷ s) i cost budget maxbytes =
    let P : Fit → Type 0 = λ f. IfAny (λ k. (i ≡ 0) × (k ≤ next_length (b ∷ s))) f.word_end in
    let k = i + next_length (b ∷ s) in
    let spent = cost + word_cost (next_word (b ∷ s)) in
    let some_length = next_length-positive b s in
    let further = drop (next_length (b ∷ s)) (b ∷ s) in
    if-cases P (ltb maxbytes k || ltb budget spent)
      (λ p. if-cases P (i == 0) (λ q. (ground arith, ground arith)) (λ q. tt))
      (λ p.
        IfAny-imp (fit_words fuel further k spent budget maxbytes).word_end _ _
          (λ j h. absurd (omega (arith, h.0, some_length)))
          (fit_words-first fuel further k spent budget maxbytes))
