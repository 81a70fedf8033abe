-- ===== src/Utf8.antt =====
-- UTF-8 as the program writes and checks it: `put_utf8` of libemoji/emoji.c, and `utf8_seq` and
-- `utf8_repair` of libclm/history.c.
-- A byte string is a list of numbers below 256. A pointer into a string and the length behind it
-- are the list from there on. The two loops of `utf8_repair` go on by one byte or by a whole
-- sequence, so they take fuel: the length of the string, which each turn makes smaller.
pub mod Chars
pub mod Repair
pub mod Cut
mod Tests
use clm.Base.{
  Bytes, is_continuation, ℕ, zero, suc, ◌+◌, ◌/◌, ◌%◌, Bool, true, false, ◌&&◌, ◌||◌, Option, none,
  some, List, [], ◌∷◌, ◌++◌, length, take, drop, if◌then◌else◌, ltb, leb, ◌==◌,
}

-- The bytes of a code point. An `unsigned long` that is cast to `char` keeps its low byte. The
-- code ORs parts that share no bit, and is only given code points of at most 17 bits.
unfoldable pub put_utf8 : ℕ → Bytes
put_utf8 cp =
    if leb cp 0x7f
    then cp ∷ []
    else if leb cp 0x7ff
    then (0xc0 + cp / 64) ∷ (0x80 + cp % 64) ∷ []
    else if leb cp 0xffff
    then (0xe0 + cp / 4096) ∷ (0x80 + cp / 64 % 64) ∷ (0x80 + cp % 64) ∷ []
    else (0xf0 + cp / 262144)
      ∷ (0x80 + cp / 4096 % 64)
      ∷ (0x80 + cp / 64 % 64)
      ∷ (0x80 + cp % 64)
      ∷ []

-- How many bytes have to follow the first one; `none` where no sequence starts with it.
pub seq_need : ℕ → Option ℕ
seq_need b =
    if b / 32 == 6 && leb 0xC2 b
    then some 1
    else if b / 16 == 14
    then some 2
    else if b / 8 == 30 && leb b 0xF4
    then some 3
    else none

-- The `for` loop over the bytes behind the first.
pub continues : ℕ → Bytes → Bool
continues zero s = true
continues (suc k) [] = false
continues (suc k) (b ∷ s) = is_continuation b && continues k s

-- Overlong forms, surrogates, and code points past U+10FFFF.
pub is_excluded : ℕ → Bytes → Bool
is_excluded b [] = false
is_excluded b (c ∷ s) =
    (b == 0xE0 && ltb c 0xA0)
    || (b == 0xED && ltb 0x9F c)
    || (b == 0xF0 && ltb c 0x90)
    || (b == 0xF4 && ltb 0x8F c)

seq_rest : ℕ → Bytes → Option ℕ → ℕ
seq_rest b s none = 0
seq_rest b s (some need) =
    if leb (suc (length s)) need
    then 0
    else if continues need s
    then (if is_excluded b s then 0 else need + 1)
    else 0

-- The length of the valid sequence at the start, or 0. The code never asks at the end of the string.
pub utf8_seq : Bytes → ℕ
unfolding seq_rest
utf8_seq [] = 0
utf8_seq (b ∷ s) = if ltb b 0x80 then 1 else seq_rest b s (seq_need b)

-- How far one turn of the loops goes.
abbrev pub turn_length : ℕ → ℕ
turn_length n = if n == 0 then 1 else n

-- The first loop: the number of bytes that stand in no valid sequence.
pub count_bad : ℕ → Bytes → ℕ
count_bad zero s = 0
count_bad (suc fuel) [] = 0
count_bad (suc fuel) (b ∷ s) =
    let n = utf8_seq (b ∷ s) in
    (if n == 0 then 1 else 0) + count_bad fuel (drop (turn_length n) (b ∷ s))

-- U+FFFD, the replacement character.
abbrev pub replacement : Bytes
replacement = 0xEF ∷ 0xBF ∷ 0xBD ∷ []

-- The second loop: what it copies to `out`.
pub copy_repaired : ℕ → Bytes → Bytes
copy_repaired zero s = []
copy_repaired (suc fuel) [] = []
copy_repaired (suc fuel) (b ∷ s) =
    let n = utf8_seq (b ∷ s) in
    (if n == 0 then replacement else take n (b ∷ s))
    ++ copy_repaired fuel (drop (turn_length n) (b ∷ s))

pub utf8_repair : Bytes → Option Bytes
utf8_repair s = if count_bad (length s) s == 0 then none else some (copy_repaired (length s) s)
