-- ===== src/Agent.antt =====
-- The turns of an agent: libclm/agent.c with include/clm/internal.h.
-- An agent has at most one turn at a time. A call that changes it returns the new agent; a callback of
-- the host is a call of its own, which comes after the call that asked for it has returned, as it does
-- with a host that has an event loop. The callbacks to the embedder, and the turn hooks, are
-- kept in `signals`, the last one first; they are taken not to call the agent back. Allocation
-- of a string is taken to succeed.
pub mod Delay
pub mod Env
pub mod Turn
pub mod Compaction
pub mod Reply
pub mod Calls
pub mod Waiting
pub mod Step
pub mod Tests
use clm.Base.{
  ℕ, ◌+◌, ◌*◌, ◌/◌, Bytes, Bool, true, false, ◌||◌, Option, none, some, List, [], ◌∷◌, codes,
  if◌then◌else◌, leb, ◌==◌,
}
use clm.Files.{FileEnt}
use clm.History.{Message, History, Compressor}
use clm.Ratelimit.{Ratelimit}

pub data AgentState : Type 0 where
  idle thinking calling_tool rate_limited complete error : AgentState

-- The error codes of this file. A status is 0 or a negative one of them.
pub data Code : Type 0 where
  eio ecanceled enomem eacces eperm e2big eagain ebusy ealready einval : Code
  other_code : ℕ → Code

pub data Status : Type 0 where
  done : Status
  failed : Code → Status

pub data FinishReason : Type 0 where
  stop limit tool_calls content_filter other empty_reply : FinishReason

-- What the embedder and the hooks are told, and the timers that the host is asked for.
pub data Signal : Type 0 where
  on_state : AgentState → Signal
  on_turn_done : Status → Signal
  on_message : Signal
  on_finish : FinishReason → Signal
  on_usage : ℕ → Signal
  on_text : Bytes → Signal
  on_reasoning : Bytes → Signal
  on_notice : Signal
  turn_start : Bytes → Signal
  turn_end : Status → Signal
  timer_for : ℕ → Signal

-- `struct clm_async_turn`, without what a stream has assembled: that comes with the reply.
pub record AsyncTurn : Type 0 where
  pub body_len : ℕ
  pub streaming : Bool
  pub history_msgs : ℕ
  pub ctx_bytes : ℕ
  pub rl_retries : ℕ

pub data Request : Type 0 where
  turn_request : AsyncTurn → Request
  compact_request : Request
  upload_request : Bytes → Request

-- `struct clm_agent` and what of `llm` its turns use. A timer handle is the turn that the timer
-- resends. `wire` is the host's: the request that it has accepted and not called back for.
pub record Agent : Type 0 where
  pub state : AgentState
  pub wire : Option Request
  pub inflight : Option Request
  pub llm_rl_timer : Option AsyncTurn
  pub compact_rl_timer : Bool
  pub rl_parked_turn : Option AsyncTurn
  pub active_batch : Bool
  pub cancelling : Bool
  pub pending_notify : Option Bytes
  pub signals : List Signal
  pub last_error : Option Bytes
  pub history : History
  pub compressor : Option Compressor
  pub system_prompt_suffix : Option Bytes
  pub facts_pending : Bool
  pub last_time_stamp : ℕ
  pub iteration : ℕ
  pub max_iterations : ℕ
  pub gate_denials : ℕ
  pub ctx_used : ℕ
  pub ctx_max : ℕ
  pub autocompact_pct : ℕ
  pub autocompact_tokens : ℕ
  pub compact_body : Bool
  pub compact_resume_chain : Bool
  pub compact_rl_retries : ℕ
  pub compact_effort : Option Bytes
  pub compact_effort_changed : Bool
  pub compact_effort_fallback : Bool
  pub mid_chain_compact_started : Bool
  pub mid_chain_compact_succeeded : Bool
  pub mid_chain_compact_failed : Bool
  pub llm_rl : Option Ratelimit
  pub effort : Option Bytes
  pub is_anthropic : Bool
  pub stream : Bool
  pub resp_chain_id : Option Bytes
  pub resp_chain_sent : ℕ
  pub prompt_parts_changed : Bool
  pub tools_unsupported : Bool
  pub file_uploads : Bool
  pub files : List FileEnt
  pub files_lost : ℕ

abbrev pub emit : Agent → Signal → Agent
emit a s = record a { signals = s ∷ a.signals }

-- `agent->state = s`, and `cb_on_state`.
abbrev pub enter : Agent → AgentState → Agent
enter a s = record a { state = s; signals = on_state s ∷ a.signals }

abbrev pub set_error : Agent → Bytes → Agent
set_error a msg = record a { last_error = some msg }

-- `clm_agent_chain_reset`.
abbrev pub chain_reset : Agent → Agent
chain_reset a = record a { resp_chain_id = none; resp_chain_sent = 0 }

abbrev pub is_busy : AgentState → Bool
is_busy thinking = true
is_busy calling_tool = true
is_busy rate_limited = true
is_busy _ = false

abbrev pub agent_busy : Agent → Bool
agent_busy a = is_busy a.state

abbrev pub autocompact_pct_default : ℕ
autocompact_pct_default = 50

abbrev pub autocompact_fallback_tokens : ℕ
autocompact_fallback_tokens = 100000

-- `clm_agent_over_autocompact_threshold`. A reading that is not positive is 0.
pub over_autocompact_threshold : Agent → Bool
over_autocompact_threshold a =
    if a.ctx_used == 0
    then false
    else if leb 1 a.autocompact_tokens
    then (leb a.autocompact_tokens a.ctx_used || over_window a)
    else over_window a
  where
    pct : Agent → ℕ
    pct a = if leb 1 a.autocompact_pct then a.autocompact_pct else autocompact_pct_default

    over_window : Agent → Bool
    over_window a =
        if a.ctx_max == 0
        then leb autocompact_fallback_tokens a.ctx_used
        else leb (pct a) (a.ctx_used * 100 / a.ctx_max)

pub take_mid_chain_compact_error : Agent → Agent × Bool
take_mid_chain_compact_error a =
    (record a { mid_chain_compact_failed = false }, a.mid_chain_compact_failed)

pub take_mid_chain_compact_started : Agent → Agent × Bool
take_mid_chain_compact_started a =
    (record a { mid_chain_compact_started = false }, a.mid_chain_compact_started)

pub take_mid_chain_compact_succeeded : Agent → Agent × Bool
take_mid_chain_compact_succeeded a =
    (record a { mid_chain_compact_succeeded = false }, a.mid_chain_compact_succeeded)
