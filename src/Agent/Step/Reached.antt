-- ===== src/Agent/Step/Reached.antt =====
-- What holds of every agent that the calls and callbacks of agent.c lead to.
use clm.Base.{ℕ, ◌+◌, ◌≡◌, ap, none, true, false, [], arith, Bool-cases, inl, inr, if-cases}
use clm.Agent.{
  idle, Status, done, failed, Agent, agent_busy, turn_request, compact_request, upload_request,
}
use clm.Agent.Compaction.{compact}
use clm.Agent.Step.{
  accepted, Step, submits, notifies, cancels, compacts, turn_answered, turn_broken,
  compact_answered, compact_broken, upload_answered, upload_broken, turn_timer, compact_timer,
  batch_over, Reach, here, next,
}
use clm.Agent.Env.{Env}
use clm.Agent.Waiting.Compacting.{
  answered-Open, answered_busy, Compacted, compact-Compacted, compact_success_cb-Sound,
  compact_error_cb-Sound,
}
use clm.Agent.Waiting.Landing.{submit-Sound}
use clm.Agent.Waiting.Replies.{http_success_cb-Sound, http_error_cb-Sound}
use clm.Agent.Waiting.Rounds.{
  notify-Sound, cancel-Sound, batch_done-Sound, upload_success-Sound, upload_error-Sound,
  llm_timer-Sound, compact_timer-Sound,
}
use clm.Agent.Waiting.{bit, Sound, Open}

idle-Open : (k : ℕ) (a : Agent) → agent_busy a ≡ false → Sound k a → Open (k + 1) a
unfolding Sound Open
idle-Open k a p s = let still = ap bit p in omega arith

Compacted-Sound : (k : ℕ) (r : Agent × Status) → Compacted (k + 1) r → Sound (k + accepted r.1) r.0
unfolding Sound Open
Compacted-Sound k (a, done) s = s
Compacted-Sound k (a, failed code) (o, b) = omega arith

abbrev CompactSound : ℕ → Agent × Status → Type 0
CompactSound k r = Sound (k + accepted r.1) r.0

compact_refused-Sound :
    (k : ℕ) (e : Env) (a : Agent)
    → agent_busy a ≡ true
    → Sound k a
    → Sound (k + accepted (compact e a).1) (compact e a).0
unfolding compact Sound
compact_refused-Sound k e a p s =
    if-cases (CompactSound k) (agent_busy a) (λ q. omega arith) (λ q. absurd (cc (p, q)))

compact-Sound :
    (k : ℕ) (e : Env) (a : Agent) → Sound k a → Sound (k + accepted (compact e a).1) (compact e a).0
compact-Sound k e a s = elim (Bool-cases (agent_busy a)) [
  | inl p ↦ compact_refused-Sound k e a p s
  | inr p ↦ Compacted-Sound k (compact e a) (compact-Compacted (k + 1) e a (idle-Open k a p s) p)
]

same-Sound : (k : ℕ) (a : Agent) → Sound k a → Sound (k + 0) a
unfolding Sound
same-Sound k a s = omega arith

Step-Sound : {a b : Agent} {n : ℕ} (k : ℕ) → Step a n b → Sound k a → Sound (k + n) b
Step-Sound k (submits e a prompt) s = same-Sound k _ (submit-Sound k e a prompt s)
Step-Sound k (notifies e a text) s = same-Sound k _ (notify-Sound k e a text s)
Step-Sound k (cancels e a) s = same-Sound k _ (cancel-Sound k e a s)
Step-Sound k (compacts e a) s = compact-Sound k e a s
Step-Sound k (turn_answered e a turn resp parsed reply t w) s = same-Sound k _ (
    http_success_cb-Sound k e a turn resp parsed reply t (answered-Open k a (turn_request turn) w s)
      (answered_busy k a (turn_request turn) w s))
Step-Sound k (turn_broken e a turn code msg content w) s =
    same-Sound k _
      (http_error_cb-Sound k e a turn code msg content (answered-Open k a (turn_request turn) w s))
Step-Sound k (compact_answered e a resp reply t w) s = same-Sound k _ (
    compact_success_cb-Sound k e a resp reply t (answered-Open k a compact_request w s)
      (answered_busy k a compact_request w s))
Step-Sound k (compact_broken e a code msg w) s = same-Sound k _ (
    compact_error_cb-Sound k e a code msg (answered-Open k a compact_request w s)
      (answered_busy k a compact_request w s))
Step-Sound k (upload_answered e a url status id w) s = same-Sound k _ (
    upload_success-Sound k e a url status id (answered-Open k a (upload_request url) w s)
      (answered_busy k a (upload_request url) w s))
Step-Sound k (upload_broken e a url code w) s = same-Sound k _ (
    upload_error-Sound k e a url code (answered-Open k a (upload_request url) w s)
      (answered_busy k a (upload_request url) w s))
Step-Sound k (turn_timer e a turn w) s = same-Sound k _ (llm_timer-Sound k e a turn w s)
Step-Sound k (compact_timer e a w) s = same-Sound k _ (compact_timer-Sound k e a w s)
Step-Sound k (batch_over e a history denials status w) s =
    same-Sound k _ (batch_done-Sound k e a history denials status w s)

-- An agent that has not been called yet.
pub record IsNew (a : Agent) : Type 0 where
  pub is_idle : a.state ≡ idle
  pub no_wire : a.wire ≡ none
  pub no_inflight : a.inflight ≡ none
  pub no_llm_timer : a.llm_rl_timer ≡ none
  pub no_compact_timer : a.compact_rl_timer ≡ false
  pub no_batch : a.active_batch ≡ false
  pub no_signals : a.signals ≡ []

pub IsNew-Sound : (a : Agent) → IsNew a → Sound 0 a
unfolding Sound
IsNew-Sound a i = ground arith

-- Whatever is called and called back from a new agent on, as long as the host grants the timers that
-- a retry asks for: exactly one callback is to come while a turn runs, and none while none runs;
-- the turns that have landed, and the one that runs, are just as many as the prompts and the
-- compactions that have begun; and a request on the wire has its handle, unless it was aborted.
pub Reach-Sound : {a b : Agent} {n : ℕ} → IsNew a → Reach a n b → Sound n b
Reach-Sound i here = IsNew-Sound _ i
Reach-Sound i (next {m} {n} r step) = Step-Sound m step (Reach-Sound i r)
