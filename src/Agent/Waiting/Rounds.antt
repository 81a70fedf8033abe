-- ===== src/Agent/Waiting/Rounds.antt =====
-- What an agent waits for after the calls that are neither a prompt nor a reply: the end of a batch of
-- tools, an upload, a timer, a notice, a cancel.
use clm.Base.{
  ℕ, ◌+◌, ◌≡◌, ◌∙◌, refl, ap, Bytes, true, false, ◌&&◌, ◌||◌, Option, none, some, codes,
  if◌then◌else◌, leb, ltb, ◌==◌, arith, if-cases,
}
use clm.Agent.{
  Status, done, failed, AsyncTurn, Agent, agent_busy, is_busy, Code, ecanceled, eperm, e2big, enter,
  thinking, complete, over_autocompact_threshold,
}
use clm.Agent.Calls.{
  notify, is_set, unparked, cancel, gate_deny_limit, after_compact, next_round, counted, tools_done,
  batch_done, file_upload_finish, file_upload_success, file_upload_error,
}
use clm.Agent.Compaction.{compact, on_compact_rl_timer, is_canceled}
use clm.Agent.Env.{Env}
use clm.Agent.Turn.{turn_done, upload_noted, on_llm_rl_timer}
use clm.Agent.Waiting.Compacting.{answered, Compacted, compact-Compacted, compact_post-Sound}
use clm.Agent.Waiting.Landing.{turn_done-Lands, agent_fail-Sound, submit-Sound}
use clm.Agent.Waiting.{
  busy, bit, bit-le, held, Sound, Open, Kept-Open, start_turn-Sound, upload_noted-Kept,
  on_llm_rl_timer-Sound,
}
use clm.History.{History}

after_compact-Sound :
    (k : ℕ) (e : Env) (r : Agent × Status) → Compacted k r → Sound k (after_compact e r)
unfolding after_compact Sound Open
after_compact-Sound k e (a, done) s = s
after_compact-Sound k e (a, failed code) (o, b) =
    start_turn-Sound k e (enter (record a { compact_resume_chain = false }) thinking) o refl

next_round-Sound : (k : ℕ) (e : Env) (a : Agent) → Open k a → Sound k (next_round e a)
unfolding next_round Open
next_round-Sound k e a o =
    let paused = record a { state = complete; compact_resume_chain = true } in
    if-cases (Sound k) (over_autocompact_threshold a)
      (λ p. after_compact-Sound k e (compact e paused) (compact-Compacted k e paused o refl))
      (λ p. start_turn-Sound k e (enter a thinking) o refl)

cancelled-Sound :
    (k : ℕ) (e : Env) (a : Agent)
    → Open k a
    → Sound k (turn_done e (enter (record a { cancelling = false }) complete) (failed ecanceled))
unfolding Open
cancelled-Sound k e a o =
    turn_done-Lands k e (enter (record a { cancelling = false }) complete) (failed ecanceled) o refl

tools_done-Sound :
    (k : ℕ) (e : Env) (a : Agent) (status : Status) → Open k a → Sound k (tools_done e a status)
unfolding tools_done Open
tools_done-Sound k e a (failed code) o =
    if-cases (Sound k) a.cancelling (λ p. cancelled-Sound k e a o)
      (λ p. agent_fail-Sound k e a (codes "tool execution failed") code o)
tools_done-Sound k e a done o =
    if-cases (Sound k) a.cancelling (λ p. cancelled-Sound k e a o)
      (λ p.
        if-cases (Sound k) (leb gate_deny_limit a.gate_denials)
          (λ q. agent_fail-Sound k e a e.denial_text eperm o)
          (λ q.
            if-cases (Sound k) (a.max_iterations == 0) (λ r. next_round-Sound k e a o)
              (λ r.
                if-cases (Sound k) (leb a.max_iterations (a.iteration + 1))
                  (λ s. agent_fail-Sound k e (counted a) (codes "max iterations reached") e2big o)
                  (λ s. next_round-Sound k e (counted a) o))))

batch_over-Open :
    (k : ℕ) (a : Agent) (history : History) (denials : ℕ)
    → a.active_batch ≡ true
    → Sound k a
    → Open k (record a { active_batch = false; history = history; gate_denials = denials })
unfolding Sound Open
batch_over-Open k a history denials w s =
    let one = ap bit w in let most = bit-le (is_busy a.state) in omega arith

pub batch_done-Sound :
    (k : ℕ) (e : Env) (a : Agent) (history : History) (denials : ℕ) (status : Status)
    → a.active_batch ≡ true
    → Sound k a
    → Sound k (batch_done e a history denials status)
unfolding batch_done
batch_done-Sound k e a history denials status w s =
    tools_done-Sound k e
      (record a { active_batch = false; history = history; gate_denials = denials }) status
      (batch_over-Open k a history denials w s)

upload_finish-Sound :
    (k : ℕ) (e : Env) (a : Agent) (url : Bytes) (id : Option Bytes)
    → Open k a
    → busy a ≡ 1
    → Sound k (file_upload_finish e a url id)
unfolding file_upload_finish
upload_finish-Sound k e a url id o b =
    let same = upload_noted-Kept e a url id in
    start_turn-Sound k e (upload_noted e a url id) (Kept-Open k a (upload_noted e a url id) same o)
      (same.5 ∙ b)

pub upload_success-Sound :
    (k : ℕ) (e : Env) (a : Agent) (url : Bytes) (status : ℕ) (id : Option Bytes)
    → Open k (answered a)
    → busy a ≡ 1
    → Sound k (file_upload_success e a url status id)
unfolding file_upload_success Open
upload_success-Sound k e a url status id o b =
    let read = if leb 200 status && ltb status 300 then id else none in
    if-cases (Sound k) (status == 404 || status == 405)
      (λ p. upload_finish-Sound k e (record (answered a) { file_uploads = false }) url read o b)
      (λ p. upload_finish-Sound k e (answered a) url read o b)

pub upload_error-Sound :
    (k : ℕ) (e : Env) (a : Agent) (url : Bytes) (code : Code)
    → Open k (answered a)
    → busy a ≡ 1
    → Sound k (file_upload_error e a url code)
unfolding file_upload_error Open
upload_error-Sound k e a url code o b =
    if-cases (Sound k) (is_canceled code)
      (λ p. turn_done-Lands k e (enter (answered a) complete) (failed ecanceled) o refl)
      (λ p. upload_finish-Sound k e (answered a) url none o b)

-- An agent whose timer has fired.
llm_timer-Open :
    (k : ℕ) (a : Agent) (turn : AsyncTurn)
    → a.llm_rl_timer ≡ some turn
    → Sound k a
    → Open k (record a { llm_rl_timer = none }) × (busy a ≡ 1)
unfolding Sound Open
llm_timer-Open k a turn w s =
    let one = ap held w in let most = bit-le (is_busy a.state) in omega arith

pub llm_timer-Sound :
    (k : ℕ) (e : Env) (a : Agent) (turn : AsyncTurn)
    → a.llm_rl_timer ≡ some turn
    → Sound k a
    → Sound k (on_llm_rl_timer (turn_done e) e a turn)
llm_timer-Sound k e a turn w s =
    let (o, b) = llm_timer-Open k a turn w s in
    on_llm_rl_timer-Sound k (turn_done e) e a turn (turn_done-Lands k e) o b

compact_timer-Open :
    (k : ℕ) (a : Agent)
    → a.compact_rl_timer ≡ true
    → Sound k a
    → Open k (record a { compact_rl_timer = false })
unfolding Sound Open
compact_timer-Open k a w s =
    let one = ap bit w in let most = bit-le (is_busy a.state) in omega arith

pub compact_timer-Sound :
    (k : ℕ) (e : Env) (a : Agent)
    → a.compact_rl_timer ≡ true
    → Sound k a
    → Sound k (on_compact_rl_timer e a)
unfolding on_compact_rl_timer
compact_timer-Sound k e a w s =
    compact_post-Sound k e (record a { compact_rl_timer = false }) (compact_timer-Open k a w s)

pub notify-Sound :
    (k : ℕ) (e : Env) (a : Agent) (text : Bytes) → Sound k a → Sound k (notify e a text).0
unfolding notify Sound
notify-Sound k e a text s = if-cases P (agent_busy a) (λ p. s) (λ p. submit-Sound k e a text s)
  where
    P : Agent × Status → Type 0
    P r = Sound k r.0

unparked-Open :
    (k : ℕ) (a : Agent)
    → (is_set a.llm_rl_timer || a.compact_rl_timer) ≡ true
    → Sound k a
    → Open k (unparked a)
unfolding Sound Open
unparked-Open k a p s = ground arith

aborted-Sound :
    (k : ℕ) (a : Agent) → Sound k a → Sound k (record a { inflight = none; cancelling = true })
unfolding Sound
aborted-Sound k a s = ground arith

stopped-Sound : (k : ℕ) (a : Agent) → Sound k a → Sound k (record a { cancelling = true })
unfolding Sound
stopped-Sound k a s = ground arith

pub cancel-Sound : (k : ℕ) (e : Env) (a : Agent) → Sound k a → Sound k (cancel e a).0
unfolding cancel Open
cancel-Sound k e a s =
    if-cases P a.cancelling (λ p. s)
      (λ p.
        if-cases P (is_set a.llm_rl_timer || a.compact_rl_timer)
          (λ q.
            turn_done-Lands k e (enter (unparked a) complete) (failed ecanceled)
              (unparked-Open k a q s) refl)
          (λ q.
            if-cases P (is_set a.inflight) (λ r. aborted-Sound k a s)
              (λ r. if-cases P a.active_batch (λ t. stopped-Sound k a s) (λ t. s))))
  where
    P : Agent × Status → Type 0
    P r = Sound k r.0
