-- ===== src/Agent/Step/Cancelled.antt =====
-- clm_agent_cancel on a running turn, and the callback of what it aborted.
use clm.Base.{
  ℕ, suc, ◌+◌, ◌≤◌, ◌≡◌, ◌∙◌, refl, ap, Bytes, Bool, true, false, ◌||◌, Option, none, some, arith,
  if-cases,
}
use clm.Agent.{
  complete, Status, done, failed, ecanceled, Agent, agent_busy, AsyncTurn, Request, turn_request,
  compact_request, upload_request, enter,
}
use clm.Agent.Calls.{is_set, unparked, cancel, batch_done, tools_done, file_upload_error}
use clm.Agent.Compaction.{compact_error_cb, compact_over}
use clm.Agent.Reply.{http_error_cb, agent_keep_partial}
use clm.Agent.Env.{Env}
use clm.Agent.Turn.{turn_done, turn_done_text}
use clm.Agent.Waiting.{bit, landed, held, Sound}
use clm.History.{History}

-- What the aborted work leaves: the text of a stream so far, or the history after the tools.
pub record Leftover : Type 0 where
  pub content : Bytes
  pub history : History
  pub denials : ℕ
  pub status : Status

-- The callback that an abort brings.
unfoldable pub settled : Env → Leftover → Agent → Option Request → Bool → Agent
settled e l a (some (turn_request turn)) batch = http_error_cb e a turn ecanceled none l.content
settled e l a (some compact_request) batch = compact_error_cb e a ecanceled none
settled e l a (some (upload_request url)) batch = file_upload_error e a url ecanceled
settled e l a none true = batch_done e a l.history l.denials l.status
settled e l a none false = a

-- Once it has come: the agent is complete, and one more turn has landed.
unfoldable pub IsSettled : ℕ → Agent → Type 0
IsSettled n a = (a.state ≡ complete) × (landed a.signals ≡ suc n)

ended-IsSettled :
    (n : ℕ) (e : Env) (a : Agent) (s : Status)
    → a.pending_notify ≡ none
    → a.state ≡ complete
    → landed a.signals ≡ n
    → IsSettled n (turn_done e a s)
unfolding turn_done turn_done_text IsSettled
ended-IsSettled n e a s p c l = rw p (c, ap suc l)

tools_done-IsSettled :
    (e : Env) (a : Agent) (s : Status)
    → a.pending_notify ≡ none
    → a.cancelling ≡ true
    → IsSettled (landed a.signals) (tools_done e a s)
unfolding tools_done
tools_done-IsSettled e a (failed code) p c =
    if-cases (IsSettled (landed a.signals)) a.cancelling
      (λ q.
        ended-IsSettled (landed a.signals) e (enter (record a { cancelling = false }) complete)
          (failed ecanceled) p refl refl)
      (λ q. absurd (cc (c, q)))
tools_done-IsSettled e a done p c =
    if-cases (IsSettled (landed a.signals)) a.cancelling
      (λ q.
        ended-IsSettled (landed a.signals) e (enter (record a { cancelling = false }) complete)
          (failed ecanceled) p refl refl)
      (λ q. absurd (cc (c, q)))

keep_partial_same :
    (a : Agent) (turn : AsyncTurn) (content : Bytes)
    → ((agent_keep_partial a turn content).pending_notify ≡ a.pending_notify)
      × (landed (agent_keep_partial a turn content).signals ≡ landed a.signals)
unfolding agent_keep_partial
keep_partial_same a turn content = ground arith

settled-IsSettled :
    (e : Env) (l : Leftover) (a : Agent) (r : Option Request) (batch : Bool)
    → held r + bit batch ≡ 1
    → a.pending_notify ≡ none
    → a.cancelling ≡ true
    → IsSettled (landed a.signals) (settled e l a r batch)
unfolding settled http_error_cb compact_error_cb file_upload_error batch_done
settled-IsSettled e l a (some (turn_request turn)) batch o p c =
    let fresh = record a { wire = none; inflight = none } in
    let same = keep_partial_same fresh turn l.content in
    ended-IsSettled (landed a.signals) e (enter (agent_keep_partial fresh turn l.content) complete)
      (failed ecanceled) (same.0 ∙ p) refl same.1
settled-IsSettled e l a (some compact_request) batch o p c =
    ended-IsSettled (landed a.signals) e (enter (compact_over a) complete) (failed ecanceled) p refl
      refl
settled-IsSettled e l a (some (upload_request url)) batch o p c =
    ended-IsSettled (landed a.signals) e
      (enter (record a { wire = none; inflight = none }) complete) (failed ecanceled) p refl refl
settled-IsSettled e l a none true o p c =
    tools_done-IsSettled e
      (record a { active_batch = false; history = l.history; gate_denials = l.denials }) l.status p
      c
settled-IsSettled e l a none false o p c = absurd (omega arith)

settled_none :
    (e : Env) (l : Leftover) (a : Agent) (r : Option Request) (batch : Bool)
    → held r + bit batch ≡ 0
    → settled e l a r batch ≡ a
unfolding settled
settled_none e l a (some (turn_request turn)) batch o = absurd (omega arith)
settled_none e l a (some compact_request) batch o = absurd (omega arith)
settled_none e l a (some (upload_request url)) batch o = absurd (omega arith)
settled_none e l a none true o = absurd (omega arith)
settled_none e l a none false o = refl

-- What a cancel comes to: it succeeds, and settles what ran.
pub Cancels : Env → Leftover → Agent → Agent × Status → Type 0
Cancels e l a r =
    (r.1 ≡ done) × IsSettled (landed a.signals) (settled e l r.0 r.0.wire r.0.active_batch)

timers_set :
    (k : ℕ) (a : Agent)
    → Sound k a
    → (is_set a.llm_rl_timer || a.compact_rl_timer) ≡ true
    → held a.wire + bit a.active_batch ≡ 0
unfolding Sound
timers_set k a s q = ground arith

no_timers :
    (k : ℕ) (a : Agent)
    → Sound k a
    → agent_busy a ≡ true
    → (is_set a.llm_rl_timer || a.compact_rl_timer) ≡ false
    → held a.wire + bit a.active_batch ≡ 1
unfolding Sound
no_timers k a s p q = ground arith

nothing_held :
    (k : ℕ) (a : Agent)
    → Sound k a
    → held a.wire + bit a.active_batch ≡ 1
    → a.cancelling ≡ false
    → is_set a.inflight ≡ false
    → a.active_batch ≡ false
    → suc (held a.wire) ≤ held a.wire
unfolding Sound
nothing_held k a s one c u v = ground arith

unparked-Cancels :
    (k : ℕ) (e e' : Env) (l : Leftover) (a : Agent)
    → Sound k a
    → a.pending_notify ≡ none
    → (is_set a.llm_rl_timer || a.compact_rl_timer) ≡ true
    → Cancels e' l a (turn_done e (enter (unparked a) complete) (failed ecanceled), done)
unfolding Cancels turn_done turn_done_text IsSettled
unparked-Cancels k e e' l a s p q =
    rw p (refl, rw (settled_none e' l _ a.wire a.active_batch (timers_set k a s q)) (refl, refl))

aborted-Cancels :
    (e : Env) (l : Leftover) (a : Agent)
    → held a.wire + bit a.active_batch ≡ 1
    → a.pending_notify ≡ none
    → Cancels e l a (record a { inflight = none; cancelling = true }, done)
unfolding Cancels
aborted-Cancels e l a one p = (
  refl,
  settled-IsSettled e l (record a { inflight = none; cancelling = true }) a.wire a.active_batch one
      p refl,
)

stopped-Cancels :
    (e : Env) (l : Leftover) (a : Agent)
    → held a.wire + bit a.active_batch ≡ 1
    → a.pending_notify ≡ none
    → Cancels e l a (record a { cancelling = true }, done)
unfolding Cancels
stopped-Cancels e l a one p =
    (refl, settled-IsSettled e l (record a { cancelling = true }) a.wire a.active_batch one p refl)

-- A cancel of a turn that runs and has not been cancelled, with no text queued, succeeds; and once what it
-- aborted has called back, whatever that left, the agent is complete and one more turn has landed.
pub cancel-Cancels :
    (k : ℕ) (e e' : Env) (l : Leftover) (a : Agent)
    → Sound k a
    → agent_busy a ≡ true
    → a.cancelling ≡ false
    → a.pending_notify ≡ none
    → Cancels e' l a (cancel e a)
unfolding cancel
cancel-Cancels k e e' l a s b c p =
    if-cases (Cancels e' l a) a.cancelling (λ q. absurd (cc (c, q)))
      (λ q.
        if-cases (Cancels e' l a) (is_set a.llm_rl_timer || a.compact_rl_timer)
          (λ t. unparked-Cancels k e e' l a s p t)
          (λ t.
            let one = no_timers k a s b t in
            if-cases (Cancels e' l a) (is_set a.inflight) (λ u. aborted-Cancels e' l a one p)
              (λ u.
                if-cases (Cancels e' l a) a.active_batch (λ v. stopped-Cancels e' l a one p)
                  (λ v. absurd (omega (arith, nothing_held k a s one c u v))))))
