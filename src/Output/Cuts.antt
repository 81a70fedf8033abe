-- ===== src/Output/Cuts.antt =====
-- What cut_output keeps, and where it reads.
use mathlib.Core.List.{reverse}
use clm.Base.{
  ℕ, ◌+◌, ◌-◌, ◌*◌, ◌/◌, ◌≤◌, ◌<◌, ◌≡◌, Bytes, Bool, false, ◌&&◌, Option, none, some, ◌++◌, length,
  take, drop, leb, arith, if-cases, Bool-cases, inl, inr, ◌⊎◌, length-drop,
}
use clm.Output.Words.{IfAny}
use clm.Output.{
  Marker, Output, spaces, next_length, whole, cut, outside, marker_of, put_cut, head_length,
  tail_start, cut_output, token_cap, budget_of, room_of, est_tokens,
}
use clm.Output.Fits.{fit_head-le, IsTail, fit_tail-IsTail, fit_head-held, IsHeld, fit_tail-IsHeld}

-- Whether the tail has room for a character.
abbrev pub is_roomy : ℕ → Bool
is_roomy cap =
    leb 15 (budget_of cap - budget_of cap * 2 / 3) && leb 1 (room_of cap - room_of cap * 2 / 3)

-- The caps for which the tail may have no room. Past 128 tokens the budget starts from nothing again.
abbrev pub IsTight : ℕ → Type 0
IsTight cap = (cap < 32) ⊎ ((516 ≤ cap) × (cap < 528))

IsTight-of : (n : ℕ) → is_roomy n ≡ false → IsTight n
IsTight-of n t = ground arith

-- More bytes or more tokens than the caps allow.
abbrev pub IsOver : ℕ → Bytes → Type 0
IsOver limit d = (limit < length d) ⊎ (token_cap limit < est_tokens d)

-- The bytes that a head and a tail may take.
abbrev pub head_room : ℕ → ℕ
head_room limit = room_of limit * 2 / 3

abbrev pub tail_room : ℕ → ℕ
tail_room limit = room_of limit - room_of limit * 2 / 3

-- What becomes of the output `d` of a call that is held to `limit` bytes.
pub data Outcome (print : Marker → Bytes) (limit : ℕ) (d : Bytes) : Output → Type 0 where
  fits : length d ≤ limit → est_tokens d ≤ token_cap limit → Outcome print limit d (whole d)
  is_cut :
      (head tail : ℕ)
      → IsOver limit d
      → (head ≤ head_room limit) ⊎ (head ≤ spaces d)
      → (length d - tail ≤ tail_room limit)
        ⊎ (length d - tail ≤ next_length (reverse (drop head d)))
      → head ≤ tail
      → tail ≤ length d
      → Outcome print limit d (cut (take head d ++ print (marker_of d head tail) ++ drop tail d))
  too_small : IsOver limit d → IsTight limit → Outcome print limit d outside

put_cut-Outcome :
    (print : Marker → Bytes) (limit : ℕ) (d : Bytes) (head : ℕ) (tail : Option ℕ)
    → IsOver limit d
    → (head ≤ head_room limit) ⊎ (head ≤ spaces d)
    → head ≤ length d
    → IfAny
        (IsHeld (length (drop head d)) (tail_room limit) (next_length (reverse (drop head d))))
        tail
    → IsTail (length (drop head d)) (is_roomy limit) tail
    → Outcome print limit d (put_cut print d head tail)
unfolding put_cut IsTail IsHeld
put_cut-Outcome print limit d head none o h l k t = too_small o (IsTight-of limit t)
put_cut-Outcome print limit d head (some tail) o h l k t =
    let rest = length-drop head d in
    let held : (length d - (head + tail) ≤ tail_room limit)
        ⊎ (length d - (head + tail) ≤ next_length (reverse (drop head d))) =
      elim k [ inl x ↦ inl (omega (arith, x, rest)) | inr x ↦ inr (omega (arith, x, rest)) ] in
    is_cut head (head + tail) o h held (omega arith) (omega arith)

IsOver-of :
    (limit : ℕ) (d : Bytes)
    → (leb (length d) limit && leb (est_tokens d) (token_cap limit)) ≡ false
    → IsOver limit d
IsOver-of limit d p = elim (Bool-cases (leb (length d) limit)) [
  | inl few ↦ inr (ground arith)
  | inr many ↦ inl (ground arith)
]

-- The output of a tool goes to the model whole just when it is within the byte and token caps. Else a head
-- and a tail of it go, which do not overlap, with the marker that tells of the lines and bytes between
-- them. The head has at most two thirds of the room beside the marker, or is white space at the front;
-- the tail has at most the rest of the room, or is from the last word and the white space behind it. A
-- byte outside of the output is read only where it is cut and the cap is below 32, or from 516 to 527.
pub cut_output-Outcome :
    (print : Marker → Bytes) (limit : ℕ) (d : Bytes)
    → Outcome print limit d (cut_output print limit d)
unfolding cut_output
cut_output-Outcome print limit d =
    if-cases (Outcome print limit d) (leb (length d) limit && leb (est_tokens d) (token_cap limit))
      (λ p. fits (ground arith) (ground arith))
      (λ p.
        put_cut-Outcome print limit d (head_length d limit) (tail_start d limit)
          (IsOver-of limit d p) (fit_head-held d (budget_of limit * 2 / 3) (room_of limit * 2 / 3))
          (fit_head-le d (budget_of limit * 2 / 3) (room_of limit * 2 / 3))
          (fit_tail-IsHeld (drop (head_length d limit) d)
            (budget_of limit - budget_of limit * 2 / 3) (tail_room limit))
          (fit_tail-IsTail (drop (head_length d limit) d)
            (budget_of limit - budget_of limit * 2 / 3) (room_of limit - room_of limit * 2 / 3)))
