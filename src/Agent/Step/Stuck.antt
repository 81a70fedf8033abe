-- ===== src/Agent/Step/Stuck.antt =====
-- What a retry does when the host refuses its timer, and what a cancel leaves for the next one.
use clm.Base.{
  ℕ, ◌≤◌, ◌<◌, ◌≡◌, ◌∙◌, refl, Bytes, true, false, ◌||◌, not, Option, none, some, arith, if-cases,
  leb,
}
use clm.Agent.{
  done, failed, ecanceled, ealready, einval, ebusy, AsyncTurn, Agent, agent_busy, enter, complete,
}
use clm.Agent.Calls.{cancel}
use clm.Agent.Compaction.{compact, compact_build, posted_compact}
use clm.Agent.Reply.{http_error_cb, agent_keep_partial}
use clm.Agent.Env.{built, Env}
use clm.Agent.Turn.{ended, turn_done, turn_done_text, retrying, submit, rl_retry, rl_retry_max}
use clm.Agent.Waiting.{sources, held, Open}

-- An agent that runs a turn, waits for nothing, and takes neither a prompt nor a cancel.
pub record IsStuck (a : Agent) : Type 0 where
  pub is_busy : agent_busy a ≡ true
  pub waits_for_nothing : sources a ≡ 0
  pub no_prompt : (e : Env) (prompt : Bytes) → (submit e a prompt).1 ≡ failed ebusy
  pub no_cancel : (e : Env) → (cancel e a).1 ≡ failed einval

submit_busy :
    (e : Env) (a : Agent) (prompt : Bytes)
    → agent_busy a ≡ true
    → (submit e a prompt).1 ≡ failed ebusy
unfolding submit
submit_busy e a prompt b = rw b refl

cancel_nothing :
    (e : Env) (a : Agent)
    → sources a ≡ 0
    → held a.inflight ≤ held a.wire
    → a.cancelling ≡ false
    → (cancel e a).1 ≡ failed einval
unfolding cancel
cancel_nothing e a s i c = ground arith

IsStuck-of :
    (a : Agent)
    → agent_busy a ≡ true
    → sources a ≡ 0
    → held a.inflight ≤ held a.wire
    → a.cancelling ≡ false
    → IsStuck a
IsStuck-of a b s i c = record {
  is_busy = b;
  waits_for_nothing = s;
  no_prompt = λ e prompt. submit_busy e a prompt b;
  no_cancel = λ e. cancel_nothing e a s i c;
}

rl_retry-goes :
    (e : Env) (a : Agent) (turn : AsyncTurn) (advice : Option Bytes)
    → e.has_timers ≡ true
    → turn.rl_retries < rl_retry_max
    → rl_retry e a turn advice ≡ some (retrying e a turn advice)
unfolding rl_retry
rl_retry-goes e a turn advice h l =
    if-cases (λ o. o ≡ some (retrying e a turn advice))
      (leb rl_retry_max turn.rl_retries || not e.has_timers) (λ p. absurd (ground arith))
      (λ p. refl)

refused_sources :
    (k : ℕ) (e : Env) (a : Agent) (turn : AsyncTurn) (advice : Option Bytes)
    → e.timer_set ≡ false
    → Open k a
    → sources (retrying e a turn advice) ≡ 0
unfolding Open
refused_sources k e a turn advice t o = ground arith

refused_inflight :
    (k : ℕ) (e : Env) (a : Agent) (turn : AsyncTurn) (advice : Option Bytes)
    → Open k a
    → held (retrying e a turn advice).inflight ≤ held (retrying e a turn advice).wire
unfolding Open
refused_inflight k e a turn advice o = ground arith

keep_partial_flags :
    (a : Agent) (turn : AsyncTurn) (content : Bytes)
    → ((agent_keep_partial a turn content).cancelling ≡ a.cancelling)
      × ((agent_keep_partial a turn content).pending_notify ≡ a.pending_notify)
unfolding agent_keep_partial
keep_partial_flags a turn content = ground arith

-- A compaction that goes out and cannot be cancelled.
pub IsStale : Env → Env → Agent → Type 0
IsStale e e' a = ((compact e a).1 ≡ done) × ((cancel e' (compact e a).0).1 ≡ failed ealready)

cancel_cancelling : (e : Env) (a : Agent) → a.cancelling ≡ true → (cancel e a).1 ≡ failed ealready
unfolding cancel
cancel_cancelling e a c = rw c refl

IsStale-of :
    (e e' : Env) (a : Agent)
    → agent_busy a ≡ false
    → a.cancelling ≡ true
    → e.compact_built ≡ built
    → ((b : Agent) → e.post b ≡ true)
    → IsStale e e' a
unfolding IsStale compact posted_compact compact_build
IsStale-of e e' a p c b o = rw (p, b, o) (refl, cancel_cancelling e' _ c)

-- A rate limit turns a turn away that may still wait, and the host has timers but refuses to set one:
-- the retry goes ahead, and leaves an agent that is busy, waits for nothing, and answers every
-- prompt with EBUSY and every cancel with EINVAL.
pub rl_retry-IsStuck :
    (k : ℕ) (e : Env) (a : Agent) (turn : AsyncTurn) (advice : Option Bytes)
    → e.has_timers ≡ true
    → e.timer_set ≡ false
    → turn.rl_retries < rl_retry_max
    → Open k a
    → a.cancelling ≡ false
    → (b : Agent) × (rl_retry e a turn advice ≡ some b) × IsStuck b
rl_retry-IsStuck k e a turn advice h t l o c = (
  retrying e a turn advice,
  rl_retry-goes e a turn advice h l,
  IsStuck-of (retrying e a turn advice) refl (refused_sources k e a turn advice t o)
      (refused_inflight k e a turn advice o) c,
)

-- The flag that a cancel sets outlives the request that it aborted: with no text queued, a compaction that is
-- asked for then and goes out cannot be cancelled.
pub compact-cancel-IsStale :
    (e e' e'' : Env) (a : Agent) (turn : AsyncTurn) (msg : Option Bytes) (content : Bytes)
    → a.cancelling ≡ true
    → a.pending_notify ≡ none
    → e'.compact_built ≡ built
    → ((b : Agent) → e'.post b ≡ true)
    → IsStale e' e'' (http_error_cb e a turn ecanceled msg content)
unfolding http_error_cb turn_done turn_done_text
compact-cancel-IsStale e e' e'' a turn msg content c p b o =
    let kept = agent_keep_partial (record a { wire = none; inflight = none }) turn content in
    let same = keep_partial_flags (record a { wire = none; inflight = none }) turn content in
    rw (same.1 ∙ p)
      (IsStale-of e' e'' (ended (enter kept complete) (failed ecanceled)) refl (same.0 ∙ c) b o)
