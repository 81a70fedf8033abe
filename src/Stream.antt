-- ===== src/Stream.antt =====
-- The parser of a streamed reply: libclm/agent.c, from clm_http_data_cb_wrapper to stream_merge_tool_calls,
-- with stream_build_tool_calls.
-- What the JSON library and the provider's normalize_stream_event, a callback of `clm_provider_ops`, make of
-- a payload is the parameter `read`, with the provider's scratch space. Allocation succeeds. A member of a
-- tool call that is not a string makes the code copy a NULL, which is undefined: nothing is what is left.
-- The timings are left out.
pub mod Feed
pub mod Lines
pub mod Assembly
pub mod Dispatched
mod Tests
use clm.Agent.{Agent, AsyncTurn, on_text, on_reasoning, emit, set_error}
use clm.Agent.Delay.{is_rate_limit_message}
use clm.Agent.Reply.{chain_note_response}
use clm.Base.{
  ℕ, zero, suc, ◌+◌, Bytes, Bool, true, false, not, ◌&&◌, ◌||◌, Option, none, some, List, [], ◌∷◌,
  ◌++◌, codes, bytes_eq, before_nul, length, take, drop, if◌then◌else◌, leb, ◌==◌,
}
use clm.Tools.{modify_at}
use clm.Tools.Dispatch.{Call, Field, absent, not_string, string}

-- `struct stream_call`.
pub record StreamCall : Type 0 where
  pub id : Option Bytes
  pub name : Option Bytes
  pub args : Option Bytes

pub data Index : Type 0 where
  no_index negative : Index
  index_of : ℕ → Index

-- An element of a delta's `tool_calls`. `arguments` is there where it is a string.
pub record Delta : Type 0 where
  pub index : Index
  pub id : Field
  pub name : Field
  pub arguments : Option Bytes

-- What is read of a normalized event; `choice` is there where it has one, `delta` where that has one.
pub record DeltaPart : Type 0 where
  pub content : Option Bytes
  pub reasoning : Option Bytes
  pub tool_calls : List Delta

pub record Choice : Type 0 where
  pub finish_reason : Option Bytes
  pub error : Option Bytes
  pub response_id : Option Bytes
  pub delta : Option DeltaPart

pub record Event : Type 0 where
  pub usage : Option ℕ
  pub choice : Option Choice

-- A payload: no JSON, or JSON with an error message perhaps, and what the provider leaves of it.
pub data Payload : Type 0 where
  no_json : Payload
  json : Option Bytes → Option Event → Payload

-- The part of `struct clm_async_turn` that a stream fills, and the agent.
pub record Stream (S : Type 0) : Type 0 where
  pub agent : Agent
  pub line : Bytes
  pub content : Bytes
  pub calls : List StreamCall
  pub finish_reason : Option Bytes
  pub usage : Option ℕ
  pub rl_advice : Option Bytes
  pub provider_state : S

abbrev pub no_call : StreamCall
no_call = record { id = none; name = none; args = none }

-- `stream_get_call`: the array with a place for the index.
unfoldable pub stream_get_call : List StreamCall → ℕ → List StreamCall
stream_get_call [] zero = no_call ∷ []
stream_get_call [] (suc k) = no_call ∷ stream_get_call [] k
stream_get_call (c ∷ l) zero = c ∷ l
stream_get_call (c ∷ l) (suc k) = c ∷ stream_get_call l k

abbrev pub or_first : Option Bytes → Option Bytes → Option Bytes
or_first (some old) new = some old
or_first none new = new

-- A member that is copied where there is none yet: nothing where NULL would be.
abbrev pub copied_once : Option Bytes → Field → Option (Option Bytes)
copied_once (some old) f = some (some old)
copied_once none absent = some none
copied_once none not_string = none
copied_once none (string s) = some (some s)

abbrev pub appended : Option Bytes → Option Bytes → Option Bytes
appended old none = old
appended none (some frag) = some frag
appended (some old) (some frag) = some (old ++ frag)

abbrev pub merged :
    StreamCall → Option (Option Bytes) → Option (Option Bytes) → Option Bytes → Option StreamCall
merged c none name args = none
merged c (some id) none args = none
merged c (some id) (some name) args =
    some (record { id = id; name = name; args = appended c.args args })

abbrev pub merge_one : StreamCall → Delta → Option StreamCall
merge_one c d = merged c (copied_once c.id d.id) (copied_once c.name d.name) d.arguments

abbrev pub put_first : Option StreamCall → List StreamCall → Option (List StreamCall)
put_first none l = none
put_first (some c) l = some (c ∷ l)

abbrev pub put_rest : StreamCall → Option (List StreamCall) → Option (List StreamCall)
put_rest c none = none
put_rest c (some l) = some (c ∷ l)

-- The assignments to the call at an index.
unfoldable pub merge_at : List StreamCall → ℕ → Delta → Option (List StreamCall)
merge_at [] k d = some []
merge_at (c ∷ l) zero d = put_first (merge_one c d) l
merge_at (c ∷ l) (suc k) d = put_rest c (merge_at l k d)

-- The index of the `i`-th delta; a negative one is skipped.
abbrev pub index_at : ℕ → Index → Option ℕ
index_at i no_index = some i
index_at i negative = none
index_at i (index_of k) = some k

-- The body of the loop of `stream_merge_tool_calls`.
abbrev pub merge_delta : List StreamCall → Option ℕ → Delta → Option (List StreamCall)
merge_delta l none d = some l
merge_delta l (some k) d = merge_at (stream_get_call l k) k d

abbrev pub then_merge :
    Option (List StreamCall)
    → (List StreamCall → Option (List StreamCall))
    → Option (List StreamCall)
then_merge none next = none
then_merge (some l) next = next l

-- `stream_merge_tool_calls`, from the `i`-th delta on.
unfoldable pub merge_tool_calls : ℕ → List Delta → List StreamCall → Option (List StreamCall)
merge_tool_calls i [] l = some l
merge_tool_calls i (d ∷ ds) l =
    then_merge (merge_delta l (index_at i d.index) d) (merge_tool_calls (i + 1) ds)

abbrev call_of : Bytes → StreamCall → Call
call_of name c = record {
  id = string (or_blank c.id);
  name = string name;
  arguments = some (or_braces c.args);
}
  where
    or_blank : Option Bytes → Bytes
    or_blank none = []
    or_blank (some s) = s

    or_braces : Option Bytes → Bytes
    or_braces none = codes "{}"
    or_braces (some s) = s

-- The calls without a name are left out.
abbrev pub named_call : Option Bytes → StreamCall → List Call → List Call
named_call none c rest = rest
named_call (some name) c rest = call_of name c ∷ rest

-- `stream_build_tool_calls`.
unfoldable pub stream_build_tool_calls : List StreamCall → List Call
stream_build_tool_calls [] = []
stream_build_tool_calls (c ∷ l) = named_call c.name c (stream_build_tool_calls l)

module _ {S : Type 0} where
  -- `stream_note_error`.
  abbrev stream_note_error : Stream S → Option Bytes → Stream S
  stream_note_error f none = f
  stream_note_error f (some msg) = record f {
    agent = set_error f.agent msg;
    rl_advice = if is_rate_limit_message (some msg) then some msg else f.rl_advice;
    finish_reason = or_first f.finish_reason (some (codes "error"));
  }

  abbrev add_content : Stream S → Option Bytes → Stream S
  add_content f none = f
  add_content f (some []) = f
  add_content f (some (b ∷ text)) = record f {
    agent = emit f.agent (on_text (b ∷ text));
    content = f.content ++ b ∷ text;
  }

  abbrev add_reasoning : Stream S → Option Bytes → Stream S
  add_reasoning f none = f
  add_reasoning f (some []) = f
  add_reasoning f (some (b ∷ text)) = record f { agent = emit f.agent (on_reasoning (b ∷ text)) }

  abbrev with_calls : Stream S → Option (List StreamCall) → Option (Stream S)
  with_calls f none = none
  with_calls f (some l) = some (record f { calls = l })

  abbrev handle_delta : Stream S → Option DeltaPart → Option (Stream S)
  handle_delta f none = some f
  handle_delta f (some d) =
      let told = add_reasoning (add_content f d.content) d.reasoning in
      with_calls told (merge_tool_calls 0 d.tool_calls told.calls)

  abbrev with_finish : Stream S → Option Bytes → Stream S
  with_finish f none = f
  with_finish f (some reason) = record f { finish_reason = some reason }

  abbrev handle_choice : AsyncTurn → Stream S → Option Choice → Option (Stream S)
  handle_choice turn f none = some f
  handle_choice turn f (some c) =
      let noted = stream_note_error (with_finish f c.finish_reason) c.error in
      handle_delta
        (record noted { agent = chain_note_response noted.agent c.response_id turn.history_msgs })
        c.delta

  abbrev with_usage : Stream S → Option ℕ → Stream S
  with_usage f none = f
  with_usage f (some used) = record f { usage = some used }

  abbrev handle_event : AsyncTurn → Stream S → Option Event → Option (Stream S)
  handle_event turn f none = some f
  handle_event turn f (some e) = handle_choice turn (with_usage f e.usage) e.choice

  abbrev pub handle_payload : AsyncTurn → Stream S → S × Payload → Option (Stream S)
  handle_payload turn f (p, no_json) = some f
  handle_payload turn f (p, json msg e) =
      handle_event turn (record (stream_note_error f msg) { provider_state = p }) e
