-- ===== src/Agent/Step.antt =====
-- The agent as a transition system: its calls, and the callbacks that the host, the timers and the
-- tools owe it. A callback comes when it is owed: a request's while it is on the wire, a timer's
-- while it is set, a batch's while it is active. The index of a step is 1 for a compaction that was
-- asked for and begun, and 0 for all else.
pub mod Reached
pub mod Cancelled
pub mod Stuck
pub mod Paced
use clm.Base.{ℕ, ◌+◌, ◌≡◌, Bytes, Bool, true, false, Option, none, some}
use clm.Agent.{
  Status, done, failed, Code, AsyncTurn, turn_request, compact_request, upload_request, Agent,
}
use clm.Agent.Calls.{notify, cancel, batch_done, file_upload_success, file_upload_error}
use clm.Agent.Compaction.{
  Response, CompactReply, compact, compact_success_cb, compact_error_cb, on_compact_rl_timer,
}
use clm.Agent.Reply.{Reply, http_success_cb, http_error_cb}
use clm.Agent.Env.{Env}
use clm.Agent.Turn.{submit, turn_done, on_llm_rl_timer}
use clm.History.{History}

abbrev pub accepted : Status → ℕ
accepted done = 1
accepted (failed code) = 0

pub data Step : Agent → ℕ → Agent → Type 0 where
  submits : (e : Env) (a : Agent) (prompt : Bytes) → Step a 0 (submit e a prompt).0
  notifies : (e : Env) (a : Agent) (text : Bytes) → Step a 0 (notify e a text).0
  cancels : (e : Env) (a : Agent) → Step a 0 (cancel e a).0
  compacts : (e : Env) (a : Agent) → Step a (accepted (compact e a).1) (compact e a).0
  turn_answered :
      (e : Env) (a : Agent) (turn : AsyncTurn) (resp : Option Response) (parsed : Bool)
      (reply : Reply)
      → e.timer_set ≡ true
      → a.wire ≡ some (turn_request turn)
      → Step a 0 (http_success_cb e a turn resp parsed reply)
  turn_broken :
      (e : Env) (a : Agent) (turn : AsyncTurn) (code : Code) (msg : Option Bytes) (content : Bytes)
      → a.wire ≡ some (turn_request turn)
      → Step a 0 (http_error_cb e a turn code msg content)
  compact_answered :
      (e : Env) (a : Agent) (resp : Option Response) (reply : CompactReply)
      → e.timer_set ≡ true
      → a.wire ≡ some compact_request
      → Step a 0 (compact_success_cb e a resp reply)
  compact_broken :
      (e : Env) (a : Agent) (code : Code) (msg : Option Bytes)
      → a.wire ≡ some compact_request
      → Step a 0 (compact_error_cb e a code msg)
  upload_answered :
      (e : Env) (a : Agent) (url : Bytes) (status : ℕ) (id : Option Bytes)
      → a.wire ≡ some (upload_request url)
      → Step a 0 (file_upload_success e a url status id)
  upload_broken :
      (e : Env) (a : Agent) (url : Bytes) (code : Code)
      → a.wire ≡ some (upload_request url)
      → Step a 0 (file_upload_error e a url code)
  turn_timer :
      (e : Env) (a : Agent) (turn : AsyncTurn)
      → a.llm_rl_timer ≡ some turn
      → Step a 0 (on_llm_rl_timer (turn_done e) e a turn)
  compact_timer :
      (e : Env) (a : Agent) → a.compact_rl_timer ≡ true → Step a 0 (on_compact_rl_timer e a)
  batch_over :
      (e : Env) (a : Agent) (history : History) (denials : ℕ) (status : Status)
      → a.active_batch ≡ true
      → Step a 0 (batch_done e a history denials status)

pub data Reach (a : Agent) : ℕ → Agent → Type 0 where
  here : Reach a 0 a
  next : {m n : ℕ} {b c : Agent} → Reach a m b → Step b n c → Reach a (m + n) c
