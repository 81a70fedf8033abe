-- ===== src/History/Tests.antt =====
-- Runs of libclm/history.c on short conversations.
use clm.Base.{
  before_nul, names, bytes_eq, ℕ, ◌++◌, Bytes, ◌<◌, ◌≡◌, refl, inl, none, some, [], ◌∷◌, codes,
  arith,
}
use clm.Utf8.{put_utf8}
use clm.Utf8.Chars.{AreBytes}
use clm.Utf8.Repair.{IsText, done, char}
use clm.History.{
  system, user, assistant, tool, ToolCall, Message, History, Compressor, create, set_content,
}
use clm.History.Content.{IsStored, set_content-IsStored}
use clm.History.Wire.{IsWire, Answered, tool_result_present, is_called}
use clm.History.Compact.{
  ok, summary_message, compact, split_prologue, choose_cut, exchange_cut, find_back, mission_end,
  fold_range,
}
use clm.History.Compact.Shape.{Outcome, compact-Outcome, compact-IsWire}
use clm.History.Within.{
  compact_within, total_bytes, message_bytes, calls_bytes, choose_within, walk_back,
}
use clm.History.Within.Kept.{compact_within_turns}
use clm.History.Within.Shrink.{
  SizedOutcome, compact_within-Outcome, compact_within-IsWire, compact_within-shrinks,
}
use clm.History.Dangling.{repair_dangling}
use clm.History.Dangling.Loop.{repair_dangling-Answered}
use clm.History.Dangling.Fixed.{HasIds, repair_dangling-fixed}
use clm.History.Supersede.{supersede_tool, supersede_before, supersede_one, stubbed, before_batch}
use clm.History.Supersede.Older.{IsSuperseded, IsStub, opened, supersede_tool-IsSuperseded}

abbrev read_call : ToolCall
read_call = record { id = some (codes "1"); name = some (codes "read"); args = some (codes "{}") }

-- The assistant calls `read`, and the tool answers.
abbrev asks : Message
asks = record (create assistant) { tool_calls = read_call ∷ [] }

abbrev answers : Message
answers = record (create tool) {
  content = some (codes "text");
  content_len = 4;
  tool_call_id = some (codes "1");
  tool_name = some (codes "read");
}

-- One exchange, and a second mission; then with another exchange at its end.
abbrev talk : History
talk = create system ∷ create user ∷ asks ∷ answers ∷ create user ∷ []

abbrev work : History
work = create user ∷ asks ∷ answers ∷ asks ∷ answers ∷ []

abbrev note : Bytes
note = b's' ∷ []

note-AreBytes : AreBytes note
note-AreBytes = ground arith

note-IsText : IsText note
unfolding put_utf8
note-IsText = char b's' [] (inl (omega arith)) refl done

talk-IsWire : IsWire talk
unfolding tool_result_present is_called names bytes_eq
talk-IsWire = record {
  answered = (λ e. cc e, (λ e. cc e, (λ e. (refl, tt), (λ e. cc e, (λ e. cc e, tt)))));
  orphan_free = (λ e. cc e, (λ e. cc e, (λ e. cc e, (λ e. refl, (λ e. cc e, tt)))));
}

work-IsWire : IsWire work
unfolding tool_result_present is_called names bytes_eq
work-IsWire = record {
  answered = (λ e. cc e, (λ e. (refl, tt), (λ e. cc e, (λ e. (refl, tt), (λ e. cc e, tt)))));
  orphan_free = (λ e. cc e, (λ e. cc e, (λ e. refl, (λ e. cc e, (λ e. refl, tt)))));
}

abbrev talk_folded : History
talk_folded = create system ∷ summary_message note none ∷ create user ∷ []

-- The first exchange of a single mission folds, behind the mission.
abbrev work_folded : History
work_folded = create user ∷ summary_message note none ∷ asks ∷ answers ∷ []

work_run : compact work (some note) 1 none ≡ ok (2, work_folded)
unfolding compact split_prologue choose_cut exchange_cut find_back mission_end fold_range
work_run = refl

talk_run : compact_within talk (some note) 40 1 none ≡ ok (3, talk_folded)
unfolding compact_within split_prologue choose_within walk_back total_bytes message_bytes
    calls_bytes fold_range
talk_run = refl

compact-IsWire_example : IsWire work_folded
compact-IsWire_example = compact-IsWire work note 1 2 none work_folded work_run work-IsWire

compact-Outcome_example : Outcome work (summary_message note none) 1 (2, work_folded)
compact-Outcome_example = compact-Outcome work note 1 2 none work_folded work_run

compact_within-Outcome_example :
    SizedOutcome talk note 40 (summary_message note none) (3, talk_folded)
compact_within-Outcome_example = compact_within-Outcome talk note 40 1 3 none talk_folded talk_run

compact_within-IsWire_example : IsWire talk_folded
compact_within-IsWire_example =
    compact_within-IsWire talk note 40 1 3 none talk_folded talk_run talk-IsWire

compact_within-shrinks_example : total_bytes talk_folded < total_bytes talk
compact_within-shrinks_example =
    compact_within-shrinks talk note 40 1 3 none talk_folded note-AreBytes note-IsText talk_run
      (omega arith)

compact_within_turns_example :
    compact_within talk (some note) 40 1 none ≡ compact_within talk (some note) 40 9 none
compact_within_turns_example = compact_within_turns talk (some note) 40 1 9 none

-- A call whose result stands behind a later message, and one that has none.
abbrev broken : History
broken = create user ∷ asks ∷ create user ∷ answers ∷ asks ∷ []

repair_dangling-Answered_example : Answered (repair_dangling broken).1
repair_dangling-Answered_example = repair_dangling-Answered broken

talk-HasIds : HasIds talk
talk-HasIds = ground arith

repair_dangling-fixed_example : repair_dangling talk ≡ (0, talk)
repair_dangling-fixed_example = repair_dangling-fixed talk talk-HasIds talk-IsWire.answered

-- A compressor that makes everything one byte long.
abbrev one_byte : Compressor
one_byte = record { write = some (λ s. some (0 ∷ [])); read = none; min_len = 2 }

set_content-IsStored_example :
    IsStored (set_content (create user) (some (0xC3 ∷ 0x28 ∷ 0xFF ∷ [])) (some one_byte))
set_content-IsStored_example =
    set_content-IsStored (create user) (some (0xC3 ∷ 0x28 ∷ 0xFF ∷ [])) (some one_byte)
      (ground arith)

-- The first result of `read` is stubbed, the one of the current batch is left.
abbrev work_stubbed : History
work_stubbed = create user ∷ asks ∷ stubbed answers note ∷ asks ∷ answers ∷ []

supersede_run : supersede_tool work (some (codes "read")) (some note) ≡ ok (1, work_stubbed)
unfolding supersede_tool supersede_before supersede_one before_batch find_back names bytes_eq
    before_nul
supersede_run = refl

note-IsStub : IsStub note
unfolding before_nul
note-IsStub = record {
  bytes = note-AreBytes;
  text = note-IsText;
  fits = omega arith;
  no_nul = refl;
}

abbrev older : History
older = create user ∷ asks ∷ answers ∷ []

abbrev current : History
current = asks ∷ answers ∷ []

supersede_tool-IsSuperseded_example :
    (n : ℕ) × (old' : History) × (supersede_tool
        (older ++ current)
        (some (codes "read"))
        (some note)
      ≡ ok (n, old' ++ current))
    × IsSuperseded (codes "read") note n older old'
    × (supersede_tool (old' ++ current) (some (codes "read")) (some note) ≡ ok (0, old' ++ current))
supersede_tool-IsSuperseded_example =
    supersede_tool-IsSuperseded older current (codes "read") note
      (opened asks (answers ∷ []) refl refl) note-IsStub
