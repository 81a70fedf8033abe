-- ===== src/Agent/Waiting/Replies.antt =====
-- What an agent waits for once the reply to its turn has come.
use clm.Base.{
  ℕ, ◌≡◌, ◌∙◌, refl, Bytes, Bool, true, false, not, ◌&&◌, Option, codes, leb, length, names, arith,
  if-cases,
}
use clm.Agent.{
  done, failed, AsyncTurn, Agent, Code, eio, eacces, enter, set_error, calling_tool, complete,
  error,
}
use clm.Agent.Compaction.{
  Response, body_of, has_status, is_missing, is_blank, is_canceled, message_or, mentions,
}
use clm.Agent.Delay.{is_rate_limit_message}
use clm.Agent.Reply.{
  Reply, told, emit_reasoning, failure_text, dispatch_calls, record_text, agent_finish,
  stream_finalize, chain_note_response, noted_error, whole_response, lost_chain, resend_other,
  resend, resent_or_failed, refused_response, http_success_cb, agent_keep_partial, http_error_cb,
}
use clm.Agent.Env.{Env, Dispatched, refused, dispatched}
use clm.Agent.Turn.{rl_retry}
use clm.Agent.Waiting.Compacting.{answered, or_retried-Sound}
use clm.Agent.Waiting.Landing.{turn_done-Lands, agent_fail-Sound, rl_retry-Sound}
use clm.Agent.Waiting.{busy, Sound, Open, Kept, Kept-Open, start_turn-Sound}
use clm.History.Dangling.{repair_dangling}

dispatch_calls-Sound :
    (k : ℕ) (e : Env) (a : Agent) (d : Dispatched)
    → Open k a
    → busy a ≡ 1
    → Sound k (dispatch_calls e a d)
unfolding dispatch_calls Open Sound
dispatch_calls-Sound k e a (refused code) o b =
    agent_fail-Sound k e a (codes "failed to dispatch tools") code o
dispatch_calls-Sound k e a (dispatched h) o b = ground arith

record_text-Kept :
    (a : Agent) (content : Option Bytes) (streamed : Bool) → Kept a (record_text a content streamed)
record_text-Kept a content streamed = ground arith

agent_finish-Sound :
    (k : ℕ) (e : Env) (a : Agent) (reply : Reply) (streamed : Bool)
    → Open k a
    → Sound k (agent_finish e a reply streamed)
unfolding agent_finish Open
agent_finish-Sound k e a reply streamed o =
    let text = record_text a reply.content streamed in
    if-cases (Sound k) (names reply.finish_reason (codes "content_filter"))
      (λ p. agent_fail-Sound k e a (codes "response stopped by content filter") eacces o)
      (λ p.
        if-cases (Sound k) (names reply.finish_reason (codes "error"))
          (λ q. agent_fail-Sound k e a (failure_text a) eio o)
          (λ q.
            if-cases (Sound k) reply.has_calls
              (λ r. dispatch_calls-Sound k e (enter a calling_tool) e.dispatch o refl)
              (λ r.
                turn_done-Lands k e (enter text complete) done
                  (Kept-Open k a text (record_text-Kept a reply.content streamed) o) refl)))

told-Kept : (a : Agent) (reply : Reply) → Kept a (told a reply)
told-Kept a reply = ground arith

stream_finalize-Sound :
    (k : ℕ) (e : Env) (a : Agent) (turn : AsyncTurn) (reply : Reply)
    → e.timer_set ≡ true
    → Open k a
    → Sound k (stream_finalize e a turn reply)
unfolding stream_finalize
stream_finalize-Sound k e a turn reply t o =
    let finished =
      agent_finish-Sound k e (told a reply) reply true
        (Kept-Open k a (told a reply) (told-Kept a reply) o) in
    if-cases (Sound k)
      (not (is_missing reply.advice) && (is_blank reply.content && not reply.has_calls))
      (λ p.
        or_retried-Sound k (rl_retry e a turn reply.advice)
          (agent_finish e (told a reply) reply true) (rl_retry-Sound k e a turn reply.advice t o)
          finished)
      (λ p. finished)

abbrev heard : Agent → Reply → Agent
heard a reply = emit_reasoning (told a reply) reply.reasoning

abbrev noted : Agent → AsyncTurn → Reply → Agent
noted a turn reply =
    chain_note_response (noted_error (heard a reply) reply.advice) reply.response_id
      turn.history_msgs

heard-Kept : (a : Agent) (reply : Reply) → Kept a (heard a reply)
heard-Kept a reply = ground arith

noted-Kept : (a : Agent) (turn : AsyncTurn) (reply : Reply) → Kept a (noted a turn reply)
noted-Kept a turn reply = ground arith

whole_response-Sound :
    (k : ℕ) (e : Env) (a : Agent) (turn : AsyncTurn) (parsed : Bool) (reply : Reply)
    → e.timer_set ≡ true
    → Open k a
    → Sound k (whole_response e a turn parsed reply)
unfolding whole_response
whole_response-Sound k e a turn parsed reply t o =
    let finished =
      agent_finish-Sound k e (noted a turn reply) reply false
        (Kept-Open k a (noted a turn reply) (noted-Kept a turn reply) o) in
    if-cases (Sound k) (not parsed)
      (λ p. agent_fail-Sound k e a (codes "could not parse llm response") eio o)
      (λ p.
        if-cases (Sound k) (not reply.has_message)
          (λ q. agent_fail-Sound k e a (codes "could not extract message from llm response") eio o)
          (λ q.
            if-cases (Sound k) (is_rate_limit_message reply.advice)
              (λ r.
                or_retried-Sound k (rl_retry e (heard a reply) turn reply.advice)
                  (agent_finish e (noted a turn reply) reply false)
                  (rl_retry-Sound k e (heard a reply) turn reply.advice t
                    (Kept-Open k a (heard a reply) (heard-Kept a reply) o))
                  finished)
              (λ r. finished)))

abbrev KeptBy : Agent → Agent × Bool → Type 0
KeptBy a r = Kept a r.0

resend_other-Kept : (a : Agent) (resp : Option Response) → Kept a (resend_other a resp).0
unfolding resend_other
resend_other-Kept a resp =
    if-cases (KeptBy a)
      (has_status resp 404
        && (leb 1 (length a.files) && mentions (body_of resp) (codes "File `file_")))
      (λ p. ground arith)
      (λ p.
        if-cases (KeptBy a)
          (has_status resp 400
            && (not a.tools_unsupported
                && mentions (body_of resp) (codes "does not support tools")))
          (λ q. ground arith) (λ q. ground arith))

resend-Kept : (a : Agent) (resp : Option Response) → Kept a (resend a resp).0
unfolding resend
resend-Kept a resp =
    if-cases (KeptBy a) (not (is_missing a.resp_chain_id) && lost_chain (body_of resp))
      (λ p. ground arith)
      (λ p.
        if-cases (KeptBy a) (mentions (body_of resp) (codes "No tool output found"))
          (λ q.
            if-cases (KeptBy a) (leb 1 (repair_dangling a.history).0) (λ r. ground arith)
              (λ r. resend_other-Kept (record a { history = (repair_dangling a.history).1 }) resp))
          (λ q. resend_other-Kept a resp))

resent_or_failed-Sound :
    (k : ℕ) (e : Env) (r : Agent × Bool)
    → Open k r.0
    → busy r.0 ≡ 1
    → Sound k (resent_or_failed e r)
unfolding resent_or_failed
resent_or_failed-Sound k e (a, false) o b = agent_fail-Sound k e a e.http_detail eio o
resent_or_failed-Sound k e (a, true) o b = start_turn-Sound k e a o b

refused_response-Sound :
    (k : ℕ) (e : Env) (a : Agent) (turn : AsyncTurn) (resp : Option Response)
    → e.timer_set ≡ true
    → Open k a
    → busy a ≡ 1
    → Sound k (refused_response e a turn resp)
unfolding refused_response
refused_response-Sound k e a turn resp t o b =
    let same = resend-Kept a resp in
    let otherwise =
      resent_or_failed-Sound k e (resend a resp) (Kept-Open k a (resend a resp).0 same o)
        (same.5 ∙ b) in
    if-cases (Sound k) (has_status resp 429)
      (λ p.
        or_retried-Sound k (rl_retry e a turn (body_of resp)) (resent_or_failed e (resend a resp))
          (rl_retry-Sound k e a turn (body_of resp) t o) otherwise)
      (λ p. otherwise)

pub http_success_cb-Sound :
    (k : ℕ) (e : Env) (a : Agent) (turn : AsyncTurn) (resp : Option Response) (parsed : Bool)
    (reply : Reply)
    → e.timer_set ≡ true
    → Open k (answered a)
    → busy a ≡ 1
    → Sound k (http_success_cb e a turn resp parsed reply)
unfolding http_success_cb
http_success_cb-Sound k e a turn resp parsed reply t o b =
    if-cases (Sound k) (not (has_status resp 200))
      (λ p. refused_response-Sound k e (answered a) turn resp t o b)
      (λ p.
        if-cases (Sound k) turn.streaming
          (λ q. stream_finalize-Sound k e (answered a) turn reply t o)
          (λ q. whole_response-Sound k e (answered a) turn parsed reply t o))

keep_partial-Kept :
    (a : Agent) (turn : AsyncTurn) (content : Bytes) → Kept a (agent_keep_partial a turn content)
unfolding agent_keep_partial
keep_partial-Kept a turn content = ground arith

pub http_error_cb-Sound :
    (k : ℕ) (e : Env) (a : Agent) (turn : AsyncTurn) (code : Code) (msg : Option Bytes)
    (content : Bytes)
    → Open k (answered a)
    → Sound k (http_error_cb e a turn code msg content)
unfolding http_error_cb Open
http_error_cb-Sound k e a turn code msg content o =
    let kept = agent_keep_partial (answered a) turn content in
    if-cases (Sound k) (is_canceled code)
      (λ p.
        turn_done-Lands k e (enter kept complete) (failed code)
          (Kept-Open k (answered a) kept (keep_partial-Kept (answered a) turn content) o) refl)
      (λ p.
        turn_done-Lands k e
          (enter (set_error (answered a) (message_or msg (codes "http request failed"))) error)
          (failed code) o refl)
