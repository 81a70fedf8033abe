-- ===== src/Agent/Compaction.antt =====
-- The compaction request: clm_agent_compact, compact_build, compact_post, the retries and the callbacks
-- compact_success_cb and compact_error_cb.
-- A compaction in the middle of a chain of tool calls (`compact_resume_chain`) goes on with the chain
-- when it is over; any other lands like a turn.
use clm.Base.{
  ℕ, ◌+◌, ◌*◌, ◌/◌, Bytes, Bool, true, false, not, ◌&&◌, ◌||◌, Option, none, some, codes, names,
  bytes_eq, if◌then◌else◌, leb, ◌==◌,
}
use clm.Agent.{
  thinking, rate_limited, complete, error, Code, eio, ecanceled, enomem, eagain, ebusy, einval,
  Status, done, failed, timer_for, compact_request, Agent, emit, enter, set_error, chain_reset,
  agent_busy, autocompact_fallback_tokens,
}
use clm.Agent.Delay.{contains, is_rate_limit_message, rl_retry_delay_ms}
use clm.Agent.Env.{build_failed, print_failed, built, Env}
use clm.Agent.Turn.{start_turn, turn_done, agent_fail, rl_retry_max}
use clm.History.Compact.{Result, ok, err, Errno}
use clm.History.Compact
use clm.History.{History}
use clm.History.Within.{compact_within}

-- `struct clm_http_response`; the pointer to it may be NULL.
pub record Response : Type 0 where
  pub status_code : ℕ
  pub body : Option Bytes

-- What the parser found in the body of the reply to a compaction request.
pub record CompactReply : Type 0 where
  pub summary : Option Bytes
  pub error_message : Option Bytes
  pub finish_reason : Option Bytes

abbrev pub body_of : Option Response → Option Bytes
body_of none = none
body_of (some r) = r.body

-- `resp ? resp->status_code : -1`, against a status that is not -1.
abbrev pub has_status : Option Response → ℕ → Bool
has_status none n = false
has_status (some r) n = r.status_code == n

abbrev pub is_missing : Option Bytes → Bool
is_missing none = true
is_missing (some s) = false

-- `s == NULL || s[0] == '\0'`.
abbrev pub is_blank : Option Bytes → Bool
is_blank s = elim s [ none ↦ true | some s ↦ bytes_eq s (codes "") ]

-- `s != NULL && strstr(s, w) != NULL`.
abbrev pub mentions : Option Bytes → Bytes → Bool
mentions none w = false
mentions (some s) w = contains s w

-- `compact_effort`.
unfoldable pub compact_effort : Agent → Option Bytes
compact_effort a = elim a.compact_effort [
  | some e ↦ if bytes_eq e (codes "session") then a.effort else some e
  | none ↦ if is_missing a.effort || a.is_anthropic then a.effort else some (codes "none")
]

abbrev pub same_effort : Option Bytes → Option Bytes → Bool
same_effort none e = is_missing e
same_effort (some s) e = names e s

-- `compact_build`.
unfoldable pub compact_build : Env → Agent → Option Bytes → Agent × Status
compact_build e a effort = elim e.compact_built [
  | build_failed ↦ (a, failed enomem)
  | print_failed ↦ (record a { compact_body = false }, failed enomem)
  | built ↦ (
    record a { compact_body = true; compact_effort_changed = not (same_effort effort a.effort) },
    done,
  )
]

-- A compaction that came to nothing: the chain goes on as it is, or the turn fails.
unfoldable pub compact_failed : Env → Agent → Bool → Bytes → Code → Agent
compact_failed e a resume msg code =
    if resume
    then start_turn e (record (set_error a msg) { mid_chain_compact_failed = true })
    else agent_fail e a msg code

abbrev pub message_or : Option Bytes → Bytes → Bytes
message_or none d = d
message_or (some m) d = m

abbrev pub is_canceled : Code → Bool
is_canceled ecanceled = true
is_canceled _ = false

-- What `compact_error_cb` clears first.
abbrev pub compact_over : Agent → Agent
compact_over a = record a {
  compact_resume_chain = false;
  wire = none;
  inflight = none;
  compact_body = false;
}

-- `compact_error_cb`.
unfoldable pub compact_error_cb : Env → Agent → Code → Option Bytes → Agent
unfolding compact_failed
compact_error_cb e a code msg =
    let text = message_or msg (codes "compaction request failed") in
    if is_canceled code
    then turn_done e (enter (compact_over a) complete) (failed code)
    else compact_failed e (compact_over a) a.compact_resume_chain text code

-- A request that the transport refused has no body left.
abbrev pub compact_unsent : Agent → Agent
compact_unsent a =
    set_error (record (enter a thinking) { compact_body = false })
      (codes "compaction request failed")

-- `compact_post`.
unfoldable pub compact_post : Env → Agent → Agent
unfolding compact_error_cb
compact_post e a =
    let sending = enter a thinking in
    if e.post sending
    then record sending { wire = some compact_request; inflight = some compact_request }
    else compact_error_cb e (compact_unsent a) eio (some (codes "compaction request failed"))

-- `on_compact_rl_timer`.
unfoldable pub on_compact_rl_timer : Env → Agent → Agent
unfolding compact_post
on_compact_rl_timer e a = compact_post e (record a { compact_rl_timer = false })

-- `compact_rl_retry`: nothing where it returns false.
unfoldable pub compact_rl_retry : Env → Agent → Option Bytes → Option Agent
compact_rl_retry e a advice =
    if not a.compact_body || (leb rl_retry_max a.compact_rl_retries || not e.has_timers)
    then none
    else some (record (emit (enter a rate_limited) (timer_for delay_ms)) {
      compact_rl_retries = a.compact_rl_retries + 1;
      compact_rl_timer = e.timer_set || a.compact_rl_timer;
    })
  where
    delay_ms : ℕ
    delay_ms = rl_retry_delay_ms e.scan advice a.compact_rl_retries

unfoldable pub effort_built : Env → Agent × Status → Agent × Bool
unfolding compact_post
effort_built e (a, failed code) = (a, false)
effort_built e (a, done) = (compact_post e a, true)

abbrev pub wants_session_effort : Agent → Option Bytes → Bool
wants_session_effort a body =
    let refused = mentions body (codes "reasoning") || mentions body (codes "effort") in
    a.compact_effort_changed && (not a.compact_effort_fallback && refused)

-- `compact_effort_retry`.
unfoldable pub compact_effort_retry : Env → Agent → Option Bytes → Agent × Bool
unfolding effort_built compact_build
compact_effort_retry e a body =
    if wants_session_effort a body
    then effort_built e (compact_build e (record a { compact_effort_fallback = true }) a.effort)
    else (a, false)

abbrev pub compact_done : Agent → Agent
compact_done a = record a { compact_body = false }

abbrev pub code_of : Errno → Code
code_of Compact.einval = einval
code_of Compact.enomem = enomem

-- How many bytes of the history a compaction keeps.
abbrev pub keep_bytes : Agent → ℕ
keep_bytes a = (if a.ctx_max == 0 then autocompact_fallback_tokens else a.ctx_max) * 10 / 100 * 4

abbrev pub chain_resumed : Agent → Agent
chain_resumed a =
    enter
      (record a {
        mid_chain_compact_failed = false;
        mid_chain_compact_succeeded = true;
        ctx_used = 0;
      })
      thinking

-- The end of a compaction that has shrunk the history.
unfoldable pub compact_landed : Env → Agent → Bool → Agent
compact_landed e a resume =
    if resume then start_turn e (chain_resumed a) else turn_done e (enter a complete) done

abbrev pub folded_into : Agent → History → Agent
folded_into a h = compact_done (record (chain_reset a) { history = h; facts_pending = true })

-- The fold, and what its result means.
unfoldable pub compact_fold : Env → Agent → Bool → Result (ℕ × History) → Agent
unfolding compact_landed compact_failed
compact_fold e a resume (err c) =
    compact_failed e (compact_done a) resume (codes "compaction failed") (code_of c)
compact_fold e a resume (ok (folded, h)) =
    if folded == 0
    then compact_failed e (compact_done (record a { history = h })) resume
        (codes "compaction made no progress") eagain
    else compact_landed e (folded_into a h) resume

abbrev pub no_summary : Option Bytes → Bytes
no_summary reason =
    if names reason (codes "content_filter")
    then codes "compaction stopped by content filter"
    else codes "compaction produced no summary"

abbrev pub or_retried : Option Agent → Agent → Agent
or_retried none a = a
or_retried (some retried) a = retried

-- A reply with status 200.
unfoldable pub compact_answered : Env → Agent → Bool → CompactReply → Agent
unfolding compact_fold compact_failed
compact_answered e a resume reply =
    let failing = compact_failed e (compact_done a) resume (no_summary reply.finish_reason) eio in
    let folding =
      compact_fold e a resume
        (compact_within a.history reply.summary (keep_bytes a) 2 a.compressor) in
    if not (is_blank reply.summary)
    then folding
    else if is_rate_limit_message reply.error_message
    then or_retried
        (compact_rl_retry e (record a { compact_resume_chain = resume }) reply.error_message)
        failing
    else failing

-- After a refusal with status 400, and the retry that follows it.
unfoldable pub effort_refused : Env → Bool → Agent × Bool → Agent
unfolding compact_failed
effort_refused e resume (a, true) = a
effort_refused e resume (a, false) =
    compact_failed e (compact_done (record a { compact_resume_chain = false })) resume e.http_detail
      eio

-- `status == 429`, `status == 400` and other refusals.
unfoldable pub compact_refused : Env → Agent → Bool → Option Response → Agent
unfolding compact_failed effort_refused
compact_refused e a resume resp =
    let waiting = record a { compact_resume_chain = resume } in
    let failing = compact_failed e (compact_done a) resume e.http_detail eio in
    let retried = effort_refused e resume (compact_effort_retry e waiting (body_of resp)) in
    if has_status resp 429
    then or_retried (compact_rl_retry e waiting (body_of resp)) failing
    else if has_status resp 400
    then retried
    else failing

-- `compact_success_cb`.
unfoldable pub compact_success_cb : Env → Agent → Option Response → CompactReply → Agent
unfolding compact_refused compact_answered
compact_success_cb e a resp reply =
    let fresh = record a { compact_resume_chain = false; wire = none; inflight = none } in
    if has_status resp 200 && not (is_missing (body_of resp))
    then compact_answered e fresh a.compact_resume_chain reply
    else compact_refused e fresh a.compact_resume_chain resp

abbrev pub compact_sending : Agent → Agent
compact_sending a =
    enter (record a { compact_rl_retries = 0; compact_effort_fallback = false }) thinking

unfoldable pub posted_compact : Env → Agent × Status → Agent × Status
posted_compact e (a, failed code) = (a, failed code)
posted_compact e (a, done) =
    if e.post (compact_sending a)
    then (
      record (compact_sending a) { wire = some compact_request; inflight = some compact_request },
      done,
    )
    else (
      record (compact_sending a) { compact_body = false; state = error },
      failed (e.post_error (compact_sending a)),
    )

-- `clm_agent_compact`.
unfoldable pub compact : Env → Agent → Agent × Status
unfolding posted_compact compact_build
compact e a =
    if agent_busy a
    then (set_error a (codes "turn already in progress"), failed ebusy)
    else posted_compact e (compact_build e a (compact_effort a))
