-- ===== src/History/Within.antt =====
-- `clm_history_compact_within` of libclm/history.c: a fold whose kept tail is sized.
-- The prologue, cuts and walks are as in `clm.History.Compact`. Sums of sizes are not reduced modulo
-- 2 ^ 64: the sizes are of objects in memory.
pub mod Kept
pub mod Shrink
use mathlib.Core.List.{reverse}
use clm.Base.{
  ℕ, zero, suc, ◌+◌, ◌/◌, Bytes, Bool, true, false, ◌&&◌, ◌||◌, Option, none, some, List, [], ◌∷◌,
  length, take, if◌then◌else◌, ltb, leb, ◌==◌,
}
use clm.History.{Message, ToolCall, History, Compressor}
use clm.History.Compact.{Result, ok, err, einval, split_prologue, one_more, fold_at}
use clm.History.Wire.{is_head, is_user}

abbrev pub string_length : Option Bytes → ℕ
string_length none = 0
string_length (some s) = length s

unfoldable pub calls_bytes : List ToolCall → ℕ
calls_bytes [] = 0
calls_bytes (tc ∷ tcs) = string_length tc.name + string_length tc.args + 48 + calls_bytes tcs

-- Rough wire size of one stored message.
unfoldable pub message_bytes : Message → ℕ
message_bytes m = m.content_len + 32 + calls_bytes m.tool_calls

unfoldable pub total_bytes : History → ℕ
total_bytes [] = 0
total_bytes (m ∷ h) = message_bytes m + total_bytes h

abbrev pub is_cut_point : Message → Bool
is_cut_point m = is_user m || is_head m

-- The variables that the walk back sets.
pub record Walked : Type 0 where
  pub cut : Option ℕ
  pub newest_cut : Option ℕ

abbrev pub first_set : Option ℕ → ℕ → Option ℕ
first_set none here = some here
first_set (some k) here = some k

-- The walk back: `bytes` and `turns` are the counters, `cut` and `newest_cut` what is set so far.
unfoldable pub walk_back : ℕ → ℕ → History → ℕ → ℕ → Option ℕ → Option ℕ → Walked
walk_back keep min_turns [] bytes turns cut newest = record { cut = cut; newest_cut = newest }
walk_back keep min_turns (m ∷ before) bytes turns cut newest =
    let bytes' = bytes + message_bytes m in
    let newest' = first_set newest (length before) in
    let cut' = some (length before) in
    let turns' = if is_user m then turns + 1 else turns in
    let skip = walk_back keep min_turns before bytes' turns cut newest in
    let further = walk_back keep min_turns before bytes' turns' cut' newest' in
    if is_cut_point m
    then if ltb keep bytes'
      then record { cut = cut; newest_cut = newest' }
      else if is_user m && (leb min_turns turns' && ltb keep bytes')
      then record { cut = cut'; newest_cut = newest' }
      else further
    else skip

-- The place of the first message that a history can be cut at.
pub first_cut_point : History → Option ℕ
first_cut_point [] = none
first_cut_point (m ∷ h) = if is_cut_point m then some 0 else one_more (first_cut_point h)

-- From the first message step forward to the next boundary.
abbrev pub step_forward : History → Option ℕ → Option ℕ
step_forward [] o = o
step_forward (m ∷ h) none = none
step_forward (m ∷ h) (some zero) = one_more (first_cut_point h)
step_forward (m ∷ h) (some (suc c)) = some (suc c)

abbrev pub or_newest : Option ℕ → Option ℕ → Option ℕ
or_newest none newest = newest
or_newest (some c) newest = some c

-- Folding one summary into another of the same size is not progress.
abbrev pub worth_folding : History → Bytes → Option ℕ → Option (ℕ × ℕ)
worth_folding rest summary none = none
worth_folding rest summary (some zero) = none
worth_folding rest summary (some (suc c)) =
    if leb (total_bytes (take (suc c) rest)) (length summary + 32) then none else some (0, suc c)

-- Never keep more than half of what is there.
abbrev pub capped : ℕ → ℕ → ℕ
capped keep_bytes total = if ltb (total / 2) keep_bytes then total / 2 else keep_bytes

unfoldable pub choose_within : History → Bytes → ℕ → ℕ → Option (ℕ × ℕ)
choose_within rest summary keep_bytes min_turns =
    let keep = capped keep_bytes (total_bytes rest) in
    let w = walk_back keep min_turns (reverse rest) 0 0 none none in
    worth_folding rest summary (or_newest (step_forward rest w.cut) w.newest_cut)

abbrev pub within_split :
    History → History → History → Bytes → ℕ → ℕ → Option Compressor → ℕ × History
within_split h sys [] summary keep_bytes min_turns cz = (0, h)
within_split h sys (m ∷ rest) summary keep_bytes min_turns cz =
    fold_at h sys (m ∷ rest) (choose_within (m ∷ rest) summary keep_bytes min_turns) summary cz

unfoldable pub compact_within :
    History → Option Bytes → ℕ → ℕ → Option Compressor → Result (ℕ × History)
compact_within h none keep_bytes min_turns cz = err einval
compact_within h (some summary) keep_bytes min_turns cz =
    let (sys, rest) = split_prologue h in
    ok (within_split h sys rest summary keep_bytes min_turns cz)
