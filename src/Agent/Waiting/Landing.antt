-- ===== src/Agent/Waiting/Landing.antt =====
-- How turns begin and land, and what they wait for then: submit, notify, agent_turn_done and rl_retry.
use clm.Base.{
  ℕ, ◌≡◌, refl, ap, Bytes, true, false, not, ◌||◌, Option, none, some, leb, arith, if-cases,
}
use clm.Agent.{Status, AsyncTurn, Agent, agent_busy, Code, failed, emit, turn_start}
use clm.Agent.Env.{Env}
use clm.Agent.Turn.{
  ended, refresh_context, wants_context, begin_turn, submit, turn_done_text, turn_done, agent_fail,
  rl_retry, rl_retry_max, in_error,
}
use clm.Agent.Waiting.{
  busy, bit, Sound, Open, Lands, Kept, ended-Lands, start_turn-Sound, Kept-Open,
}

refresh-Kept : (e : Env) (a : Agent) → Kept a (refresh_context e a)
unfolding refresh_context
refresh-Kept e a = if-cases (Kept a) (wants_context e a) (λ p. ground arith) (λ p. ground arith)

begin_turn-Open : (k : ℕ) (a : Agent) (prompt : Bytes) → Open k a → Open k (begin_turn a prompt)
unfolding begin_turn Open
begin_turn-Open k a prompt o = ground arith

prompted-Open :
    (k : ℕ) (a : Agent) (prompt : Bytes)
    → agent_busy a ≡ false
    → Sound k a
    → Open k (emit a (turn_start prompt))
unfolding Open Sound
prompted-Open k a prompt p s = let still = ap bit p in omega arith

-- An agent that has no turn takes a prompt.
pub submit-Sound :
    (k : ℕ) (e : Env) (a : Agent) (prompt : Bytes) → Sound k a → Sound k (submit e a prompt).0
unfolding submit Sound
submit-Sound k e a prompt s =
    if-cases P (agent_busy a) (λ p. s)
      (λ p.
        let asked = emit a (turn_start prompt) in
        let told = refresh_context e asked in
        let o = Kept-Open k asked told (refresh-Kept e asked) (prompted-Open k a prompt p s) in
        start_turn-Sound k e (begin_turn told prompt) (begin_turn-Open k told prompt o) refl)
  where
    P : Agent × Status → Type 0
    P r = Sound k r.0

turn_done_text-Sound :
    (k : ℕ) (e : Env) (a : Agent) (s : Status) (text : Option Bytes)
    → Open k a
    → busy a ≡ 0
    → Sound k (turn_done_text e a s text)
unfolding turn_done_text
turn_done_text-Sound k e a s none o b = ended-Lands k a s o b
turn_done_text-Sound k e a s (some text) o b =
    submit-Sound k e (ended a s) text (ended-Lands k a s o b)

pub turn_done-Lands : (k : ℕ) (e : Env) → Lands k (turn_done e)
unfolding turn_done
turn_done-Lands k e a s o b = turn_done_text-Sound k e a s a.pending_notify o b

pub agent_fail-Sound :
    (k : ℕ) (e : Env) (a : Agent) (msg : Bytes) (code : Code)
    → Open k a
    → Sound k (agent_fail e a msg code)
unfolding agent_fail Open
agent_fail-Sound k e a msg code o = turn_done-Lands k e (in_error a msg) (failed code) o refl

-- A property of what an optional step gives, or of what is done without it.
abbrev pub IfAny {ℓ κ} : {A : Type ℓ} → (A → Type κ) → Option A → Type κ
IfAny P none = Unit
IfAny P (some x) = P x

-- A host that grants the timer wakes the turn.
pub rl_retry-Sound :
    (k : ℕ) (e : Env) (a : Agent) (turn : AsyncTurn) (advice : Option Bytes)
    → e.timer_set ≡ true
    → Open k a
    → IfAny (Sound k) (rl_retry e a turn advice)
unfolding rl_retry Open Sound
rl_retry-Sound k e a turn advice t o =
    if-cases (IfAny (Sound k)) (leb rl_retry_max turn.rl_retries || not e.has_timers) (λ p. tt)
      (λ p. ground arith)
