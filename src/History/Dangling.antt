-- ===== src/History/Dangling.antt =====
-- `clm_history_repair_dangling_tool_calls` of libclm/history.c.
-- `insert_after` starts behind the run of tool messages that follow the head, and moves on with each
-- message that is put there; so the messages put there are a list of their own, and what stands
-- behind `insert_after` is another. The loop goes over each message once; a result that is moved up
-- makes what is left shorter, and the fuel is the length of the history.
pub mod Answers
pub mod Loop
pub mod Fixed
use clm.Base.{
  ℕ, zero, suc, ◌+◌, Bytes, Bool, true, false, ◌&&◌, Option, none, some, List, [], ◌∷◌, ◌++◌,
  length, codes, names, if◌then◌else◌,
}
use clm.History.{tool, Message, ToolCall, History, create, set_content}
use clm.History.Wire.{is_head, is_tool, tool_result_present}

-- The run of tool messages at the front, and what stands behind it.
pub split_run : History → History × History
split_run [] = ([], [])
split_run (m ∷ h) =
    let (run, after) = split_run h in if is_tool m then (m ∷ run, after) else ([], m ∷ h)

abbrev pub missing_text : Bytes
missing_text = codes "[tool result missing: session ended before this tool call finished]"

-- The result that is made up for a call that has none.
pub synth : ToolCall → Message
synth tc =
    set_content (record (create tool) { tool_call_id = tc.id; tool_name = tc.name })
      (some missing_text) none

abbrev pub behind_first : Message → Option (Message × History) → Option (Message × History)
behind_first m none = none
behind_first m (some (late, h)) = some (late, m ∷ h)

-- `tool_result_later` and `TAILQ_REMOVE`: the first result for `id`, and the list without it.
pub take_late : History → Option Bytes → Option (Message × History)
take_late h none = none
take_late [] (some id) = none
take_late (m ∷ h) (some id) =
    let further = behind_first m (take_late h (some id)) in
    if is_tool m && names m.tool_call_id id then some (m, h) else further

pub record Batch : Type 0 where
  pub inserted : History
  pub after : History
  pub repaired : ℕ

-- What `tool_result_present` sees from `batch_first`: without a run, that is no tool message.
abbrev pub seen : History → History → History
seen [] inserted = []
seen (m ∷ run) inserted = (m ∷ run) ++ inserted

abbrev pub put : Batch → ToolCall → Option (Message × History) → Batch
put b tc none = record b { inserted = b.inserted ++ synth tc ∷ []; repaired = b.repaired + 1 }
put b tc (some (late, after)) = record {
  inserted = b.inserted ++ late ∷ [];
  after = after;
  repaired = b.repaired + 1;
}

-- The body of the loop over the calls of one head.
pub repair_call : History → ToolCall → Batch → Batch
repair_call run tc b =
    if tool_result_present (seen run b.inserted) tc.id
    then b
    else put b tc (take_late b.after tc.id)

pub repair_calls : History → List ToolCall → Batch → Batch
repair_calls run [] b = b
repair_calls run (tc ∷ tcs) b = repair_calls run tcs (repair_call run tc b)

-- What is done at the head `m`, before `rest`.
abbrev pub repair_head : Message → History → Batch
repair_head m rest =
    let (run, after) = split_run rest in
    repair_calls run m.tool_calls (record { inserted = []; after = after; repaired = 0 })

-- The loop over the messages: the number of repairs, and the history.
pub repair_loop : ℕ → History → ℕ × History
repair_loop zero h = (0, h)
repair_loop (suc fuel) [] = (0, [])
repair_loop (suc fuel) (m ∷ rest) =
    let b = repair_head m rest in
    let (more, out) = repair_loop fuel b.after in
    let (n, kept) = repair_loop fuel rest in
    if is_head m
    then (b.repaired + more, m ∷ ((split_run rest).0 ++ (b.inserted ++ out)))
    else (n, m ∷ kept)

pub repair_dangling : History → ℕ × History
repair_dangling h = repair_loop (length h) h
