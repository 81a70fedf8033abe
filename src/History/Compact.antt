-- ===== src/History/Compact.antt =====
-- `clm_history_compact` of libclm/history.c, and the fold that it shares with the sized compaction.
-- `sys_last` splits the history into the leading system messages and the rest, which starts at
-- `first_nonsys`; a cut is a number of messages of the rest. A walk back from the tail is a
-- recursion on the reversed rest, and what is left of that list is what stands before the message.
pub mod Walk
pub mod Shape
use mathlib.Core.List.{reverse}
use clm.Base.{
  ℕ, zero, suc, ◌+◌, ◌-◌, ◌/◌, Bytes, Bool, true, false, not, ◌&&◌, ◌||◌, Option, none, some, List,
  [], ◌∷◌, ◌++◌, length, take, drop, if◌then◌else◌, ltb, leb, ◌==◌,
}
use clm.History.{Role, system, user, Message, ToolCall, History, Compressor, create, set_content}
use clm.History.Wire.{is_role, is_head, is_user}

pub data Errno : Type 0 where
  einval enomem : Errno

-- An `int` that is negative for an error.
pub data Result {ℓ} (A : Type ℓ) : Type ℓ where
  ok : A → Result A
  err : Errno → Result A

abbrev pub result_or {ℓ} : {A : Type ℓ} → A → Result A → A
result_or a (ok b) = b
result_or a (err e) = a

-- The leading system messages, and the messages behind them.
unfoldable pub split_prologue : History → History × History
split_prologue [] = ([], [])
split_prologue (m ∷ h) =
    let (sys, rest) = split_prologue h in
    if is_role m.role system then (m ∷ sys, rest) else ([], m ∷ h)

-- The walk back to the `keep`-th message that `p` holds of; `seen` of them are behind it. The result
-- is the number of messages before it.
unfoldable pub find_back : (Message → Bool) → ℕ → ℕ → History → Option ℕ
find_back p keep seen [] = none
find_back p keep seen (m ∷ before) =
    let further = find_back p keep (seen + 1) before in
    let past = find_back p keep seen before in
    if p m then (if seen + 1 == keep then some (length before) else further) else past

abbrev pub one_more : Option ℕ → Option ℕ
one_more none = none
one_more (some n) = some (n + 1)

-- How many messages end with the first user message (the mission).
unfoldable pub mission_end : History → Option ℕ
mission_end [] = none
mission_end (m ∷ h) = if is_user m then some 1 else one_more (mission_end h)

abbrev pub start_of : Option ℕ → ℕ
start_of none = 0
start_of (some n) = n

-- `cut == NULL || cut == start`: nothing to fold.
abbrev pub past_start : ℕ → Option ℕ → Option (ℕ × ℕ)
past_start start none = none
past_start start (some zero) = none
past_start start (some (suc c)) = some (start, start + suc c)

-- The cut at the `keep`-th exchange head behind the mission.
unfoldable pub exchange_cut : History → ℕ → Option (ℕ × ℕ)
exchange_cut rest keep =
    let start = start_of (mission_end rest) in
    if start == length rest
    then none
    else past_start start (find_back is_head keep 0 (reverse (drop start rest)))

-- The cut at the `keep`-th user message, if it is not the first message of the rest.
abbrev pub user_cut : History → ℕ → Option ℕ → Option (ℕ × ℕ)
user_cut rest keep (some (suc c)) = some (0, suc c)
user_cut rest keep _ = exchange_cut rest keep

-- What is folded: the messages of the rest from `start` up to the cut.
unfoldable pub choose_cut : History → ℕ → Option (ℕ × ℕ)
choose_cut rest keep = user_cut rest keep (find_back is_user keep 0 (reverse rest))

abbrev pub summary_message : Bytes → Option Compressor → Message
summary_message summary cz = set_content (create user) (some summary) cz

-- `fold_range`, with how many messages it folded.
unfoldable pub fold_range : History → History → ℕ → ℕ → Bytes → Option Compressor → ℕ × History
fold_range sys rest start cut summary cz =
    (cut - start, sys ++ take start rest ++ summary_message summary cz ∷ drop cut rest)

abbrev pub fold_at :
    History → History → History → Option (ℕ × ℕ) → Bytes → Option Compressor → ℕ × History
fold_at h sys rest none summary cz = (0, h)
fold_at h sys rest (some (start, cut)) summary cz = fold_range sys rest start cut summary cz

abbrev pub compact_split : History → History → History → ℕ → Bytes → Option Compressor → ℕ × History
compact_split h sys [] keep summary cz = (0, h)
compact_split h sys (m ∷ rest) keep summary cz =
    fold_at h sys (m ∷ rest) (choose_cut (m ∷ rest) keep) summary cz

-- `clm_history_compact`: the number of messages folded, and the history.
unfoldable pub compact : History → Option Bytes → ℕ → Option Compressor → Result (ℕ × History)
compact h none keep cz = err einval
compact h (some summary) keep cz =
    if keep == 0
    then err einval
    else let (sys, rest) = split_prologue h in ok (compact_split h sys rest keep summary cz)
