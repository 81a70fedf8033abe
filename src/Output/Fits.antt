-- ===== src/Output/Fits.antt =====
-- Where `fit_head` and `fit_tail` of libclm/tools.c end.
use mathlib.Core.List.{reverse}
use clm.Base.{
  ℕ, zero, suc, ◌+◌, ◌-◌, ◌/◌, ◌≤◌, ◌≡◌, refl, Bytes, Bool, true, false, ◌&&◌, Option, none, some,
  length, get_or, is_continuation, leb, arith, if-cases, Bool-cases, inl, inr, ◌⊎◌, length-reverse,
  subst,
}
use clm.Output.Words.{
  IfAny, IsWithin, IfAny-imp, fit_words-IsWithin, fit_words-held, fit_words-first, spaces_le_next,
}
use clm.Output.{
  Fit, spaces, next_length, fit_words, utf8_floor, newline_before, newline_behind, keep_char,
  head_of, fit_head, start_of, kept_start, tail_of, fit_tail,
}

utf8_floor-le : (d : Bytes) (off : ℕ) → utf8_floor d off ≤ off
unfolding utf8_floor
utf8_floor-le d zero = omega arith
utf8_floor-le d (suc off) = ground (arith, utf8_floor-le d off)

newline_before-le : (d : Bytes) (end low p : ℕ) → p ≤ end → newline_before d end low p ≤ end
unfolding newline_before
newline_before-le d end low zero l = omega arith
newline_before-le d end low (suc p) l = ground (arith, newline_before-le d end low p)

newline_behind-le :
    (d : Bytes) (start p n m : ℕ) → start ≤ m → p + n ≤ m → newline_behind d start p n ≤ m
unfolding newline_behind
newline_behind-le d start p zero m s l = s
newline_behind-le d start p (suc n) m s l =
    let further = newline_behind-le d start (suc p) n m s (omega arith) in ground arith

head_of-le :
    (d : Bytes) (budget maxbytes : ℕ) (f : Fit)
    → IsWithin budget maxbytes 0 (length d) f
    → head_of d f ≤ length d
unfolding head_of IsWithin
head_of-le d budget maxbytes f w =
    let floor = utf8_floor-le d f.stop in
    let line = newline_before-le d f.stop (f.stop / 2) f.stop (omega arith) in ground arith

pub fit_head-le : (d : Bytes) (budget maxbytes : ℕ) → fit_head d budget maxbytes ≤ length d
unfolding fit_head
fit_head-le d budget maxbytes =
    head_of-le d budget maxbytes (fit_words (length d) d 0 0 budget maxbytes)
      (fit_words-IsWithin (length d) d 0 0 budget maxbytes (λ z. refl))

-- A tail that is not empty is read inside of the data.
keep_char-some : (room : ℕ) (r : Bytes) (t : ℕ) → 1 ≤ t → (u : ℕ) × (keep_char room r t ≡ some u)
unfolding keep_char
keep_char-some zero r t p = (t, refl)
keep_char-some (suc room) r zero p = absurd (omega arith)
keep_char-some (suc room) r (suc t) p = elim (Bool-cases (is_continuation (get_or r t 0))) [
  | inl e ↦ rw e (keep_char-some room r (suc (suc t)) (omega arith))
  | inr e ↦ rw e (suc t, refl)
]

-- A tail starts inside of the data, and there is one where there is room.
unfoldable pub IsTail : ℕ → Bool → Option ℕ → Type 0
IsTail n roomy none = roomy ≡ false
IsTail n roomy (some t) = t ≤ n

kept-IsTail :
    (d : Bytes) (roomy : Bool) (o : Option ℕ)
    → (roomy ≡ true → (u : ℕ) × (o ≡ some u))
    → IsTail (length d) roomy (kept_start d o)
unfolding kept_start IsTail
kept-IsTail d roomy none f = elim (Bool-cases roomy) [ inl e ↦ absurd (cc (f e).1) | inr e ↦ e ]
kept-IsTail d roomy (some t) f = omega arith

roomy_budget : (budget maxbytes : ℕ) → (leb 15 budget && leb 1 maxbytes) ≡ true → 15 ≤ budget
roomy_budget budget maxbytes r = ground arith

roomy_bytes : (budget maxbytes : ℕ) → (leb 15 budget && leb 1 maxbytes) ≡ true → 1 ≤ maxbytes
roomy_bytes budget maxbytes r = ground arith

start-IsTail :
    (d : Bytes) (roomy : Bool) (t : ℕ)
    → t ≤ 0 + length d
    → IsTail (length d) roomy (some (start_of d t))
unfolding IsTail
start-IsTail d roomy t l =
    newline_behind-le d (length d - t) (length d - t) (t / 2) (length d) (omega arith) (omega arith)

tail_of-IsTail :
    (d : Bytes) (budget maxbytes : ℕ) (f : Fit)
    → IsWithin budget maxbytes 0 (length d) f
    → IsTail (length d) (leb 15 budget && leb 1 maxbytes) (tail_of d f)
unfolding tail_of IsWithin
tail_of-IsTail d budget maxbytes f w = go f.word_end w.1
  where
    go :
        (o : Option ℕ)
        → IfAny
            (λ k. (f.stop ≤ k) × (k ≤ 0 + length d) × (15 ≤ budget → 1 ≤ maxbytes → 1 ≤ f.stop))
            o
        → IsTail (length d) (leb 15 budget && leb 1 maxbytes) (elim o [
          | some k ↦ kept_start d (keep_char (k - f.stop) (reverse d) f.stop)
          | none ↦ some (start_of d f.stop)
        ])
    go none h = start-IsTail d (leb 15 budget && leb 1 maxbytes) f.stop w.0
    go (some k) h =
        kept-IsTail d (leb 15 budget && leb 1 maxbytes) (keep_char (k - f.stop) (reverse d) f.stop)
          (λ r.
            keep_char-some (k - f.stop) (reverse d) f.stop
              (h.2 (roomy_budget budget maxbytes r) (roomy_bytes budget maxbytes r)))

pub fit_tail-IsTail :
    (d : Bytes) (budget maxbytes : ℕ)
    → IsTail (length d) (leb 15 budget && leb 1 maxbytes) (fit_tail d budget maxbytes)
unfolding fit_tail
fit_tail-IsTail d budget maxbytes =
    let f = fit_words (length d) (reverse d) 0 0 budget maxbytes in
    tail_of-IsTail d budget maxbytes (fit_words (length d) (reverse d) 0 0 budget maxbytes) (
      subst
        (λ n. IsWithin budget maxbytes 0 n (fit_words (length d) (reverse d) 0 0 budget maxbytes))
        (length-reverse d)
        (fit_words-IsWithin (length d) (reverse d) 0 0 budget maxbytes (λ z. refl)))

head_of-stop :
    (d : Bytes) (budget maxbytes : ℕ) (f : Fit)
    → IsWithin budget maxbytes 0 (length d) f
    → head_of d f ≤ f.stop
unfolding head_of IsWithin
head_of-stop d budget maxbytes f w =
    let floor = utf8_floor-le d f.stop in
    let line = newline_before-le d f.stop (f.stop / 2) f.stop (omega arith) in ground arith

pub fit_head-held :
    (d : Bytes) (budget maxbytes : ℕ)
    → (fit_head d budget maxbytes ≤ maxbytes) ⊎ (fit_head d budget maxbytes ≤ spaces d)
unfolding fit_head
fit_head-held d budget maxbytes =
    let f = fit_words (length d) d 0 0 budget maxbytes in
    let stop =
      head_of-stop d budget maxbytes f
        (fit_words-IsWithin (length d) d 0 0 budget maxbytes (λ z. refl)) in
    elim (fit_words-held (length d) d 0 0 budget maxbytes (omega arith)) [
      | inl h ↦ inl (omega (arith, stop, h))
      | inr h ↦ inr (omega (arith, stop, h.1))
    ]

keep_char-le : (room : ℕ) (r : Bytes) (t : ℕ) → IfAny (λ u. u ≤ t + room) (keep_char room r t)
unfolding keep_char
keep_char-le zero r t = omega arith
keep_char-le (suc room) r zero = tt
keep_char-le (suc room) r (suc t) =
    if-cases (IfAny (λ u. u ≤ suc t + suc room)) (is_continuation (get_or r t 0))
      (λ c.
        IfAny-imp (keep_char room r (suc (suc t))) _ _ (λ u h. omega (arith, h))
          (keep_char-le room r (suc (suc t))))
      (λ c. omega arith)

newline_behind-ge : (d : Bytes) (start p n : ℕ) → start ≤ p → start ≤ newline_behind d start p n
unfolding newline_behind
newline_behind-ge d start p zero l = omega arith
newline_behind-ge d start p (suc n) l =
    let further = newline_behind-ge d start (suc p) n (omega arith) in ground arith

-- What is behind a tail of `n` bytes is no more than the room, or than the last word and the spaces.
unfoldable pub IsHeld : ℕ → ℕ → ℕ → ℕ → Type 0
IsHeld n room word t = (n - t ≤ room) ⊎ (n - t ≤ word)

kept_start-IsHeld :
    (d : Bytes) (room word : ℕ) (o : Option ℕ)
    → IfAny (λ u. u ≤ word) o
    → IfAny (IsHeld (length d) room word) (kept_start d o)
unfolding kept_start IsHeld
kept_start-IsHeld d room word none h = tt
kept_start-IsHeld d room word (some u) h = inr (omega arith)

start_of-IsHeld :
    (d : Bytes) (room word t : ℕ)
    → (t ≤ room) ⊎ (t ≤ word)
    → IsHeld (length d) room word (start_of d t)
unfolding IsHeld
start_of-IsHeld d room word t h =
    let from = newline_behind-ge d (length d - t) (length d - t) (t / 2) (omega arith) in
    elim h [ inl x ↦ inl (omega (arith, from, x)) | inr x ↦ inr (omega (arith, from, x)) ]

pub fit_tail-IsHeld :
    (d : Bytes) (budget maxbytes : ℕ)
    → IfAny (IsHeld (length d) maxbytes (next_length (reverse d))) (fit_tail d budget maxbytes)
unfolding fit_tail tail_of IsWithin
fit_tail-IsHeld d budget maxbytes =
    let r = reverse d in
    let f = fit_words (length d) r 0 0 budget maxbytes in
    let most = spaces_le_next r in
    let stop : (f.stop ≤ maxbytes) ⊎ (f.stop ≤ next_length r) =
      elim (fit_words-held (length d) r 0 0 budget maxbytes (omega arith)) [
        | inl h ↦ inl h
        | inr h ↦ inr (omega (arith, h.1, most))
      ] in
    let within : IsWithin budget maxbytes 0 (length r) f =
      fit_words-IsWithin (length d) r 0 0 budget maxbytes (λ z. refl) in
    go f.stop f.word_end stop (IfAny-imp f.word_end _ (λ k. f.stop ≤ k) (λ k h. h.0) within.1)
      (fit_words-first (length d) r 0 0 budget maxbytes)
  where
    go :
        (stop : ℕ) (o : Option ℕ)
        → (stop ≤ maxbytes) ⊎ (stop ≤ next_length (reverse d))
        → IfAny (λ k. stop ≤ k) o
        → IfAny (λ k. (◌≡◌ {A = ℕ} 0 0) × (k ≤ next_length (reverse d))) o
        → IfAny (IsHeld (length d) maxbytes (next_length (reverse d))) (elim o [
          | some k ↦ kept_start d (keep_char (k - stop) (reverse d) stop)
          | none ↦ some (start_of d stop)
        ])
    go stop none h l w = start_of-IsHeld d maxbytes (next_length (reverse d)) stop h
    go stop (some k) h l w =
        kept_start-IsHeld d maxbytes (next_length (reverse d))
          (keep_char (k - stop) (reverse d) stop)
          (IfAny-imp (keep_char (k - stop) (reverse d) stop) _ _ (λ u b. omega (arith, b, l, w.1))
            (keep_char-le (k - stop) (reverse d) stop))
