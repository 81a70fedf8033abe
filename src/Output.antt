-- ===== src/Output.antt =====
-- How the output of a tool is cut for the model: est_tokens, fit_head, fit_tail and cut_output of
-- libclm/tools.c.
-- A pointer with a length is the list of the bytes from there on; a walk back from the end is a walk over
-- the reversed list, and counts how many bytes stand behind. A read outside of the data is a result
-- of its own. What the spool and `snprintf` write is a parameter.
pub mod Words
pub mod Fits
pub mod Cuts
pub mod Misses
pub mod Binary
mod Tests
use mathlib.Core.List.{reverse}
use clm.Base.{
  ℕ, zero, suc, ◌+◌, ◌-◌, ◌*◌, ◌/◌, Bytes, is_continuation, Bool, true, false, not, ◌&&◌, ◌||◌,
  Option, none, some, List, [], ◌∷◌, ◌++◌, length, take, drop, get_or, if◌then◌else◌, ltb, leb,
  ◌==◌,
}

pub is_space : ℕ → Bool
is_space b = b == 32 || (b == 9 || (b == 10 || (b == 13 || (b == 11 || b == 12))))

-- In twelfths of a token, for a byte of a word of `wordlen` bytes.
unfoldable pub byte_cost : ℕ → ℕ → ℕ
byte_cost b wordlen =
    if leb 48 b && leb b 57
    then 12
    else if leb 32 wordlen
    then 8
    else if leb 128 b
    then 5
    else if (leb 97 b && leb b 122) || (leb 65 b && leb b 90)
    then 3
    else 6

-- The loop of `word_cost`.
unfoldable pub bytes_cost : Bytes → ℕ → ℕ
bytes_cost [] n = 0
bytes_cost (b ∷ w) n = byte_cost b n + bytes_cost w n

abbrev pub word_cost : Bytes → ℕ
word_cost w = 3 + bytes_cost w (length w)

-- How many bytes at the front are spaces, and how many are none.
pub spaces : Bytes → ℕ
spaces [] = 0
spaces (b ∷ s) = let more = spaces s in if is_space b then suc more else 0

pub word_length : Bytes → ℕ
word_length [] = 0
word_length (b ∷ s) = let more = word_length s in if is_space b then 0 else suc more

-- The word behind the spaces at the front.
abbrev pub next_word : Bytes → Bytes
next_word s = take (word_length (drop (spaces s) s)) (drop (spaces s) s)

-- What the spaces at the front and the word behind them take.
abbrev pub next_length : Bytes → ℕ
next_length s = spaces s + length (next_word s)

pub est_cost : ℕ → Bytes → ℕ
est_cost zero s = 0
est_cost (suc fuel) [] = 0
est_cost (suc fuel) (b ∷ s) =
    let w = next_word (b ∷ s) in
    let rest = est_cost fuel (drop (next_length (b ∷ s)) (b ∷ s)) in
    (if length w == 0 then 0 else word_cost w) + rest

pub est_tokens : Bytes → ℕ
est_tokens d = (est_cost (length d) d + 11) / 12

-- `utf8_floor`.
pub utf8_floor : Bytes → ℕ → ℕ
utf8_floor d zero = 0
utf8_floor d (suc off) =
    let lower = utf8_floor d off in
    if ltb (suc off) (length d) && is_continuation (get_or d (suc off) 0) then lower else suc off

-- Where a walk over words stops; `word_end` is the end of a word that it stopped inside of.
pub record Fit : Type 0 where
  pub stop : ℕ
  pub word_end : Option ℕ

-- The bytes of a word that is cut inside.
pub cut_word : Bytes → ℕ → ℕ → ℕ → ℕ → ℕ → ℕ
cut_word [] wl end cost budget maxbytes = end
cut_word (b ∷ w) wl end cost budget maxbytes =
    let more = cut_word w wl (suc end) (cost + byte_cost b wl) budget maxbytes in
    if ltb end maxbytes && leb (cost + byte_cost b wl) budget then more else end

-- The `while` loop of `fit_head`, and on the reversed data that of `fit_tail`: `i` bytes are taken, and
-- `s` is behind them.
pub fit_words : ℕ → Bytes → ℕ → ℕ → ℕ → ℕ → Fit
fit_words zero s i cost budget maxbytes = record { stop = i; word_end = none }
fit_words (suc fuel) [] i cost budget maxbytes = record { stop = i; word_end = none }
fit_words (suc fuel) (b ∷ s) i cost budget maxbytes =
    let w = next_word (b ∷ s) in
    let j = i + spaces (b ∷ s) in
    let k = i + next_length (b ∷ s) in
    let further =
      fit_words fuel (drop (next_length (b ∷ s)) (b ∷ s)) k (cost + word_cost w) budget maxbytes in
    let inside = cut_word w (length w) j (cost + 3) budget maxbytes in
    if ltb maxbytes k || ltb budget (cost + word_cost w)
    then (if i == 0
        then record { stop = inside; word_end = some k }
        else record { stop = i; word_end = none })
    else further

-- The newline that ends the last line before `p`, if it stands behind `low`.
pub newline_before : Bytes → ℕ → ℕ → ℕ → ℕ
newline_before d end low zero = end
newline_before d end low (suc p) =
    let further = newline_before d end low p in
    if not (ltb low (suc p)) then end else if get_or d p 0 == 10 then suc p else further

head_of : Bytes → Fit → ℕ
head_of d f = elim f.word_end [
  | some k ↦ utf8_floor d f.stop
  | none ↦ newline_before d f.stop (f.stop / 2) f.stop
]

pub fit_head : Bytes → ℕ → ℕ → ℕ
unfolding head_of
fit_head d budget maxbytes = head_of d (fit_words (length d) d 0 0 budget maxbytes)

-- Keep the whole character: `r` is the reversed data, of which `t` bytes are in the tail, and `k` at most.
-- The byte at the start of an empty tail is outside of the data.
pub keep_char : ℕ → Bytes → ℕ → Option ℕ
keep_char zero r t = some t
keep_char (suc room) r zero = none
keep_char (suc room) r (suc t) =
    let longer = keep_char room r (suc (suc t)) in
    if is_continuation (get_or r t 0) then longer else some (suc t)

-- The newline in the `n` bytes from `p` on, or the start.
pub newline_behind : Bytes → ℕ → ℕ → ℕ → ℕ
newline_behind d start p zero = start
newline_behind d start p (suc n) =
    let further = newline_behind d start (suc p) n in if get_or d p 0 == 10 then suc p else further

abbrev start_of : Bytes → ℕ → ℕ
start_of d t = newline_behind d (length d - t) (length d - t) (t / 2)

kept_start : Bytes → Option ℕ → Option ℕ
kept_start d none = none
kept_start d (some t) = some (length d - t)

tail_of : Bytes → Fit → Option ℕ
unfolding kept_start
tail_of d f = elim f.word_end [
  | some k ↦ kept_start d (keep_char (k - f.stop) (reverse d) f.stop)
  | none ↦ some (start_of d f.stop)
]

-- Where the tail starts, unless a byte outside of the data was read.
pub fit_tail : Bytes → ℕ → ℕ → Option ℕ
unfolding tail_of
fit_tail d budget maxbytes = tail_of d (fit_words (length d) (reverse d) 0 0 budget maxbytes)

pub count_nl : Bytes → ℕ
count_nl [] = 0
count_nl (b ∷ s) = (if b == 10 then 1 else 0) + count_nl s

pub count_lines : Bytes → ℕ
count_lines d =
    count_nl d + (if leb 1 (length d) && not (get_or d (length d - 1) 0 == 10) then 1 else 0)

-- What the marker line tells.
pub record Marker : Type 0 where
  pub first : ℕ
  pub last : ℕ
  pub lines : ℕ
  pub left : ℕ
  pub total : ℕ
  pub bytes : ℕ
  pub breaks_line : Bool

pub data Output : Type 0 where
  whole cut : Bytes → Output
  outside : Output

abbrev pub token_cap : ℕ → ℕ
token_cap cap = if leb 1 (cap / 4) then cap / 4 else 1

abbrev pub budget_of : ℕ → ℕ
budget_of cap = (if ltb 128 (token_cap cap) then token_cap cap - 128 else token_cap cap / 2) * 12

-- `sizeof(marker)`.
abbrev pub marker_size : ℕ
marker_size = 1024

abbrev pub room_of : ℕ → ℕ
room_of cap = if ltb marker_size cap then cap - marker_size else cap / 2

abbrev pub marker_of : Bytes → ℕ → ℕ → Marker
marker_of d head tail = record {
  first = count_nl (take head d) + 1;
  last = if ltb head tail then count_nl (take (tail - 1) d) + 1 else count_nl (take head d) + 1;
  lines = count_lines d;
  left = est_tokens (take (tail - head) (drop head d));
  total = est_tokens d;
  bytes = length d;
  breaks_line = leb 1 head && not (get_or d (head - 1) 0 == 10);
}

-- The head, the marker line and the tail.
pub put_cut : (Marker → Bytes) → Bytes → ℕ → Option ℕ → Output
put_cut print d head none = outside
put_cut print d head (some tail) =
    cut (take head d ++ print (marker_of d head (head + tail)) ++ drop (head + tail) d)

abbrev pub head_length : Bytes → ℕ → ℕ
head_length d cap = fit_head d (budget_of cap * 2 / 3) (room_of cap * 2 / 3)

abbrev pub tail_start : Bytes → ℕ → Option ℕ
tail_start d cap =
    fit_tail (drop (head_length d cap) d) (budget_of cap - budget_of cap * 2 / 3)
      (room_of cap - room_of cap * 2 / 3)

-- `cut_output`, for a call whose output is held to `cap` bytes.
pub cut_output : (Marker → Bytes) → ℕ → Bytes → Output
unfolding put_cut
cut_output print cap d =
    if leb (length d) cap && leb (est_tokens d) (token_cap cap)
    then whole d
    else put_cut print d (head_length d cap) (tail_start d cap)
