-- ===== src/Output/Misses.antt =====
-- Inputs for which fit_head and fit_tail do not keep to their limits.
use mathlib.Core.List.{reverse}
use clm.Base.{
  ℕ, zero, suc, ◌+◌, ◌-◌, ◌≤◌, ◌<◌, ◌≡◌, ◌∙◌, ap, sym, refl, Bytes, false, ◌||◌, none, some, ◌∷◌,
  length, take, ltb, arith, if-cases, length-reverse,
}
use clm.Output.Words.{next_length-le, cut_word-bounds}
use clm.Output.{
  is_space, byte_cost, bytes_cost, word_cost, spaces, word_length, next_word, next_length, Fit,
  cut_word, fit_words, utf8_floor, keep_char, head_of, fit_head, kept_start, tail_of, fit_tail,
}

byte_cost-least : (b n : ℕ) → 3 ≤ byte_cost b n
unfolding byte_cost
byte_cost-least b n = ground arith

word_length-cons :
    (b : ℕ) (s : Bytes) → is_space b ≡ false → word_length (b ∷ s) ≡ suc (word_length s)
unfolding word_length
word_length-cons b s e = rw e refl

no_spaces : (b : ℕ) (s : Bytes) → is_space b ≡ false → spaces (b ∷ s) ≡ 0
unfolding spaces
no_spaces b s e = rw e refl

cut_word-nothing :
    (b : ℕ) (w : Bytes) (wl budget maxbytes : ℕ)
    → budget < 6
    → cut_word (b ∷ w) wl 0 3 budget maxbytes ≡ 0
unfolding cut_word
cut_word-nothing b w wl budget maxbytes l = let least = byte_cost-least b wl in ground arith

word_cost-least : (b : ℕ) (w : Bytes) → 6 ≤ word_cost (b ∷ w)
unfolding bytes_cost
word_cost-least b w = let least = byte_cost-least b (suc (length w)) in omega arith

-- Where no byte of the first word fits.
abbrev IsNothing : Fit → Type 0
IsNothing f = (k : ℕ) × (1 ≤ k) × (f ≡ record { stop = 0; word_end = some k })

at-IsNothing :
    (stop k : ℕ) → stop ≡ 0 → 1 ≤ k → IsNothing (record { stop = stop; word_end = some k })
at-IsNothing stop k e l = rw e (k, l, refl)

fit_words-IsNothing :
    (fuel b : ℕ) (s : Bytes) (budget maxbytes : ℕ)
    → is_space b ≡ false
    → budget < 6
    → IsNothing (fit_words (suc fuel) (b ∷ s) 0 0 budget maxbytes)
unfolding fit_words
fit_words-IsNothing fuel b s budget maxbytes e l =
    let costs = word_cost-least b (take (word_length s) s) in
    rw (no_spaces b s e, word_length-cons b s e)
      (if-cases IsNothing
        (ltb maxbytes (0 + (0 + suc (length (take (word_length s) s))))
          || ltb budget (0 + word_cost (b ∷ take (word_length s) s)))
        (λ p.
          at-IsNothing
            (cut_word (b ∷ take (word_length s) s) (suc (length (take (word_length s) s))) 0 3
              budget maxbytes)
            (0 + (0 + suc (length (take (word_length s) s))))
            (cut_word-nothing b (take (word_length s) s) (suc (length (take (word_length s) s)))
              budget maxbytes l)
            (omega arith))
        (λ p. absurd (ground arith)))

keep_char-none : (room : ℕ) (r : Bytes) → 1 ≤ room → keep_char room r 0 ≡ none
unfolding keep_char
keep_char-none zero r l = absurd (omega arith)
keep_char-none (suc room) r l = refl

tail_of-none : (d : Bytes) (f : Fit) → IsNothing f → tail_of d f ≡ none
unfolding tail_of kept_start
tail_of-none d f (k, l, e) = rw (e, keep_char-none (k - 0) (reverse d) (omega arith)) refl

-- Output whose last byte is no space, with a budget below 6: fit_tail reads the byte behind the output.
pub fit_tail-outside :
    (d : Bytes) (b : ℕ) (s : Bytes) (budget maxbytes : ℕ)
    → reverse d ≡ b ∷ s
    → is_space b ≡ false
    → budget < 6
    → fit_tail d budget maxbytes ≡ none
unfolding fit_tail
fit_tail-outside d b s budget maxbytes q e l =
    let size = sym (length-reverse d) ∙ ap length q in
    rw (size, q)
      (tail_of-none d (fit_words (suc (length s)) (b ∷ s) 0 0 budget maxbytes)
        (fit_words-IsNothing (length s) b s budget maxbytes e l))

all_spaces-next : (s : Bytes) → spaces s ≡ length s → next_length s ≡ length s
all_spaces-next s e = let most = next_length-le s in omega arith

utf8_floor-all : (d : Bytes) (off : ℕ) → length d ≤ off → utf8_floor d off ≡ off
unfolding utf8_floor
utf8_floor-all d zero l = refl
utf8_floor-all d (suc off) l = ground arith

abbrev TakesAll : Bytes → Fit → Type 0
TakesAll d f = head_of d f ≡ length d

-- Output that is nothing but spaces: fit_head takes all of it, whatever its budget is, where it is longer
-- than the bytes that it may take.
pub fit_head-spaces :
    (b : ℕ) (s : Bytes) (budget maxbytes : ℕ)
    → spaces (b ∷ s) ≡ length (b ∷ s)
    → maxbytes < length (b ∷ s)
    → fit_head (b ∷ s) budget maxbytes ≡ length (b ∷ s)
unfolding fit_head head_of fit_words
fit_head-spaces b s budget maxbytes e l =
    let all = all_spaces-next (b ∷ s) e in
    let bounds =
      cut_word-bounds (next_word (b ∷ s)) (length (next_word (b ∷ s))) (0 + spaces (b ∷ s)) (0 + 3)
        budget maxbytes in
    if-cases (TakesAll (b ∷ s))
      (ltb maxbytes (0 + next_length (b ∷ s)) || ltb budget (0 + word_cost (next_word (b ∷ s))))
      (λ p.
        utf8_floor-all (b ∷ s)
          (cut_word (next_word (b ∷ s)) (length (next_word (b ∷ s))) (0 + spaces (b ∷ s)) (0 + 3)
            budget maxbytes)
          (omega arith)
        ∙ omega arith)
      (λ p. absurd (ground arith))
