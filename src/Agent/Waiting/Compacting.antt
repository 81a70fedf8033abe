-- ===== src/Agent/Waiting/Compacting.antt =====
-- What an agent waits for while it compacts its history: the callbacks and retries of a compaction.
use clm.Base.{
  ℕ, ◌≡◌, ◌∙◌, refl, ap, Bytes, Bool, true, false, not, ◌&&◌, ◌||◌, Option, codes, none, some, leb,
  ◌==◌, arith, if-cases,
}
use clm.Agent.{
  Status, done, failed, Agent, agent_busy, is_busy, Code, eio, eagain, enter, set_error, thinking,
  complete, Request, compact_request,
}
use clm.Agent.Compaction.{
  compact_effort, compact_build, compact_failed, message_or, is_canceled, compact_over,
  compact_error_cb, compact_unsent, compact_post, compact_rl_retry, effort_built,
  wants_session_effort, compact_effort_retry, compact_done, compact_landed, compact_fold,
  no_summary, CompactReply, Response, or_retried, compact_answered, compact_refused,
  compact_success_cb, posted_compact, compact, chain_resumed, folded_into, effort_refused,
  compact_sending, keep_bytes, code_of, is_blank, is_missing, has_status, body_of,
}
use clm.Agent.Delay.{is_rate_limit_message}
use clm.Agent.Env.{Env}
use clm.Agent.Turn.{rl_retry_max}
use clm.Agent.Waiting.Landing.{IfAny, turn_done-Lands, agent_fail-Sound}
use clm.Agent.Waiting.{
  busy, bit, bit-le, held, Sound, Open, Kept, Kept-Open, start_turn-Sound, posted-Sound,
}
use clm.History.Compact.{Result, ok, err}
use clm.History.Within.{compact_within}
use clm.History.{History}

-- An agent whose request has been answered.
abbrev pub answered : Agent → Agent
answered a = record a { wire = none; inflight = none }

pub answered-Open :
    (k : ℕ) (a : Agent) (r : Request) → a.wire ≡ some r → Sound k a → Open k (answered a)
unfolding Sound Open
answered-Open k a r w s = let one = ap held w in let most = bit-le (is_busy a.state) in omega arith

pub answered_busy : (k : ℕ) (a : Agent) (r : Request) → a.wire ≡ some r → Sound k a → busy a ≡ 1
unfolding Sound
answered_busy k a r w s = let one = ap held w in ground arith

pub compact_failed-Sound :
    (k : ℕ) (e : Env) (a : Agent) (resume : Bool) (msg : Bytes) (code : Code)
    → Open k a
    → busy a ≡ 1
    → Sound k (compact_failed e a resume msg code)
unfolding compact_failed Open
compact_failed-Sound k e a resume msg code o b =
    if-cases (Sound k) resume
      (λ p. start_turn-Sound k e (record (set_error a msg) { mid_chain_compact_failed = true }) o b)
      (λ p. agent_fail-Sound k e a msg code o)

pub compact_error_cb-Sound :
    (k : ℕ) (e : Env) (a : Agent) (code : Code) (msg : Option Bytes)
    → Open k (answered a)
    → busy a ≡ 1
    → Sound k (compact_error_cb e a code msg)
unfolding compact_error_cb Open
compact_error_cb-Sound k e a code msg o b =
    if-cases (Sound k) (is_canceled code)
      (λ p. turn_done-Lands k e (enter (compact_over a) complete) (failed code) o refl)
      (λ p.
        compact_failed-Sound k e (compact_over a) a.compact_resume_chain
          (message_or msg (codes "compaction request failed")) code o b)

pub compact_post-Sound : (k : ℕ) (e : Env) (a : Agent) → Open k a → Sound k (compact_post e a)
unfolding compact_post Open
compact_post-Sound k e a o =
    if-cases (Sound k) (e.post (enter a thinking))
      (λ p. posted-Sound k (enter a thinking) compact_request o refl)
      (λ p.
        compact_error_cb-Sound k e (compact_unsent a) eio (some (codes "compaction request failed"))
          (unsent o) refl)
  where
    unsent : Open k a → Open k (answered (compact_unsent a))
    unsent o = ground arith

pub compact_rl_retry-Sound :
    (k : ℕ) (e : Env) (a : Agent) (advice : Option Bytes)
    → e.timer_set ≡ true
    → Open k a
    → IfAny (Sound k) (compact_rl_retry e a advice)
unfolding compact_rl_retry Open Sound
compact_rl_retry-Sound k e a advice t o =
    if-cases (IfAny (Sound k))
      (not a.compact_body || (leb rl_retry_max a.compact_rl_retries || not e.has_timers)) (λ p. tt)
      (λ p. ground arith)

compact_build-Kept :
    (e : Env) (a : Agent) (effort : Option Bytes) → Kept a (compact_build e a effort).0
unfolding compact_build
compact_build-Kept e a effort = ground arith

-- What a retry leaves: it waits for its answer, or the turn is for the code to go on.
abbrev Retried : ℕ → Agent × Bool → Type 0
Retried k (a, true) = Sound k a
Retried k (a, false) = Open k a × (busy a ≡ 1)

effort_built-Retried :
    (k : ℕ) (e : Env) (r : Agent × Status)
    → Open k r.0
    → busy r.0 ≡ 1
    → Retried k (effort_built e r)
unfolding effort_built
effort_built-Retried k e (a, failed code) o b = (o, b)
effort_built-Retried k e (a, done) o b = compact_post-Sound k e a o

pub compact_effort_retry-Retried :
    (k : ℕ) (e : Env) (a : Agent) (body : Option Bytes)
    → Open k a
    → busy a ≡ 1
    → Retried k (compact_effort_retry e a body)
unfolding compact_effort_retry Open
compact_effort_retry-Retried k e a body o b =
    let tried = record a { compact_effort_fallback = true } in
    let same = compact_build-Kept e tried a.effort in
    if-cases (Retried k) (wants_session_effort a body)
      (λ p.
        effort_built-Retried k e (compact_build e tried a.effort)
          (Kept-Open k tried (compact_build e tried a.effort).0 same o) (same.5 ∙ b))
      (λ p. (o, b))

pub or_retried-Sound :
    (k : ℕ) (retry : Option Agent) (a : Agent)
    → IfAny (Sound k) retry
    → Sound k a
    → Sound k (or_retried retry a)
or_retried-Sound k none a r s = s
or_retried-Sound k (some b) a r s = r

compact_landed-Sound :
    (k : ℕ) (e : Env) (a : Agent) (resume : Bool) → Open k a → Sound k (compact_landed e a resume)
unfolding compact_landed Open
compact_landed-Sound k e a resume o =
    if-cases (Sound k) resume (λ p. start_turn-Sound k e (chain_resumed a) o refl)
      (λ p. turn_done-Lands k e (enter a complete) done o refl)

compact_fold-Sound :
    (k : ℕ) (e : Env) (a : Agent) (resume : Bool) (r : Result (ℕ × History))
    → Open k a
    → busy a ≡ 1
    → Sound k (compact_fold e a resume r)
unfolding compact_fold Open
compact_fold-Sound k e a resume (err c) o b =
    compact_failed-Sound k e (compact_done a) resume (codes "compaction failed") (code_of c) o b
compact_fold-Sound k e a resume (ok (folded, h)) o b =
    if-cases (Sound k) (folded == 0)
      (λ p.
        compact_failed-Sound k e (compact_done (record a { history = h })) resume
          (codes "compaction made no progress") eagain o b)
      (λ p. compact_landed-Sound k e (folded_into a h) resume o)

compact_answered-Sound :
    (k : ℕ) (e : Env) (a : Agent) (resume : Bool) (reply : CompactReply)
    → e.timer_set ≡ true
    → Open k a
    → busy a ≡ 1
    → Sound k (compact_answered e a resume reply)
unfolding compact_answered Open
compact_answered-Sound k e a resume reply t o b =
    let failing =
      compact_failed-Sound k e (compact_done a) resume (no_summary reply.finish_reason) eio o b in
    let waiting = record a { compact_resume_chain = resume } in
    if-cases (Sound k) (not (is_blank reply.summary))
      (λ p.
        compact_fold-Sound k e a resume
          (compact_within a.history reply.summary (keep_bytes a) 2 a.compressor) o b)
      (λ p.
        if-cases (Sound k) (is_rate_limit_message reply.error_message)
          (λ q.
            or_retried-Sound k (compact_rl_retry e waiting reply.error_message)
              (compact_failed e (compact_done a) resume (no_summary reply.finish_reason) eio)
              (compact_rl_retry-Sound k e waiting reply.error_message t o) failing)
          (λ q. failing))

effort_refused-Sound :
    (k : ℕ) (e : Env) (resume : Bool) (r : Agent × Bool)
    → Retried k r
    → Sound k (effort_refused e resume r)
unfolding effort_refused Open
effort_refused-Sound k e resume (a, true) s = s
effort_refused-Sound k e resume (a, false) (o, b) =
    compact_failed-Sound k e (compact_done (record a { compact_resume_chain = false })) resume
      e.http_detail eio o b

compact_refused-Sound :
    (k : ℕ) (e : Env) (a : Agent) (resume : Bool) (resp : Option Response)
    → e.timer_set ≡ true
    → Open k a
    → busy a ≡ 1
    → Sound k (compact_refused e a resume resp)
unfolding compact_refused Open
compact_refused-Sound k e a resume resp t o b =
    let failing = compact_failed-Sound k e (compact_done a) resume e.http_detail eio o b in
    let waiting = record a { compact_resume_chain = resume } in
    if-cases (Sound k) (has_status resp 429)
      (λ p.
        or_retried-Sound k (compact_rl_retry e waiting (body_of resp))
          (compact_failed e (compact_done a) resume e.http_detail eio)
          (compact_rl_retry-Sound k e waiting (body_of resp) t o) failing)
      (λ p.
        if-cases (Sound k) (has_status resp 400)
          (λ q.
            effort_refused-Sound k e resume (compact_effort_retry e waiting (body_of resp))
              (compact_effort_retry-Retried k e waiting (body_of resp) o b))
          (λ q. failing))

pub compact_success_cb-Sound :
    (k : ℕ) (e : Env) (a : Agent) (resp : Option Response) (reply : CompactReply)
    → e.timer_set ≡ true
    → Open k (answered a)
    → busy a ≡ 1
    → Sound k (compact_success_cb e a resp reply)
unfolding compact_success_cb Open
compact_success_cb-Sound k e a resp reply t o b =
    let fresh = record (answered a) { compact_resume_chain = false } in
    if-cases (Sound k) (has_status resp 200 && not (is_missing (body_of resp)))
      (λ p. compact_answered-Sound k e fresh a.compact_resume_chain reply t o b)
      (λ p. compact_refused-Sound k e fresh a.compact_resume_chain resp t o b)

-- A compaction that was asked for: it waits for its answer, or nothing has begun.
abbrev pub Compacted : ℕ → Agent × Status → Type 0
Compacted k (a, done) = Sound k a
Compacted k (a, failed code) = Open k a × (busy a ≡ 0)

posted_compact-Compacted :
    (k : ℕ) (e : Env) (r : Agent × Status)
    → Open k r.0
    → busy r.0 ≡ 0
    → Compacted k (posted_compact e r)
unfolding posted_compact Open
posted_compact-Compacted k e (a, failed code) o b = (o, b)
posted_compact-Compacted k e (a, done) o b =
    if-cases (Compacted k) (e.post (compact_sending a))
      (λ p. posted-Sound k (compact_sending a) compact_request o refl) (λ p. (o, refl))

pub compact-Compacted :
    (k : ℕ) (e : Env) (a : Agent) → Open k a → agent_busy a ≡ false → Compacted k (compact e a)
unfolding compact
compact-Compacted k e a o p =
    let same = compact_build-Kept e a (compact_effort a) in
    rw p (
      posted_compact-Compacted k e (compact_build e a (compact_effort a))
        (Kept-Open k a (compact_build e a (compact_effort a)).0 same o) (same.5 ∙ ap bit p))
