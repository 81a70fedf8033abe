-- ===== src/Output/Binary.antt =====
-- The test for binary output: find_binary_offset of libclm/tools.c.
-- The loop goes on by one byte or by a whole sequence, so it takes fuel: the length of the data.
pub mod Text
use clm.Base.{
  ℕ, zero, suc, ◌+◌, ◌/◌, Bytes, is_continuation, Bool, true, false, not, ◌&&◌, Option, none, some,
  [], ◌∷◌, length, drop, if◌then◌else◌, ltb, ◌==◌,
}

-- How many bytes have to follow the first one, of 128 or more.
pub lead_need : ℕ → Option ℕ
lead_need b =
    if b / 32 == 6
    then some 1
    else if b / 16 == 14
    then some 2
    else if b / 8 == 30
    then some 3
    else none

-- The `for` loop over the bytes behind the first.
pub follows : ℕ → Bytes → Bool
follows zero s = true
follows (suc k) [] = false
follows (suc k) (b ∷ s) = is_continuation b && follows k s

-- How far a lead byte goes; 0 where the scan stops.
pub scan_lead : Bytes → Option ℕ → ℕ
scan_lead s none = 0
scan_lead s (some need) = if not (ltb (length s) need) && follows need s then suc need else 0

-- How far one turn of the `while` loop goes; 0 where the scan stops.
pub scan_char : Bytes → ℕ
unfolding scan_lead
scan_char [] = 0
scan_char (b ∷ s) = if b == 0 then 0 else if ltb b 128 then 1 else scan_lead s (lead_need b)

pub binary_loop : ℕ → Bytes → ℕ
binary_loop zero s = 0
binary_loop (suc fuel) s =
    let further = binary_loop fuel (drop (scan_char s) s) in
    if scan_char s == 0 then 0 else scan_char s + further

-- The offset of the first byte that cannot be text, or the length.
pub find_binary_offset : Bytes → ℕ
find_binary_offset d = binary_loop (length d) d
