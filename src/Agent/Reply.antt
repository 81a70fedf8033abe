-- ===== src/Agent/Reply.antt =====
-- The reply to a turn: clm_http_success_cb_wrapper, clm_http_error_cb_wrapper, agent_keep_partial,
-- stream_finalize, chain_note_response, agent_finish.
-- The JSON library, the provider and the parser of a stream are outside: `Reply` is what they found.
use clm.Base.{
  ℕ, ◌+◌, Bytes, Bool, true, false, not, ◌&&◌, ◌||◌, Option, none, some, List, ◌∷◌, ◌++◌, codes,
  names, length, if◌then◌else◌, ltb, leb, ◌==◌,
}
use clm.Agent.{
  calling_tool, complete, error, Code, eio, eacces, done, failed, FinishReason, stop, limit,
  tool_calls, content_filter, other, empty_reply, Signal, on_message, on_finish, on_usage, on_text,
  on_reasoning, on_notice, AsyncTurn, Agent, emit, enter, set_error, chain_reset,
}
use clm.Agent.Compaction.{
  Response, body_of, or_retried, message_or, has_status, is_missing, is_blank, is_canceled,
  mentions,
}
use clm.Agent.Delay.{is_rate_limit_message}
use clm.Agent.Env.{Dispatched, refused, dispatched, Env}
use clm.Agent.Turn.{start_turn, turn_done, agent_fail, rl_retry}
use clm.Files.{files_clear}
use clm.History.Dangling.{repair_dangling}
use clm.History.{add_assistant_text}

-- What was read from a response: of a stream `advice` is the wording of its rate limit, else of the
-- error message that the provider passed on.
pub record Reply : Type 0 where
  pub has_message : Bool
  pub has_calls : Bool
  pub content : Option Bytes
  pub reasoning : Option Bytes
  pub finish_reason : Option Bytes
  pub usage : Option ℕ
  pub advice : Option Bytes
  pub response_id : Option Bytes

-- `finish_from_str`.
unfoldable pub finish_from_str : Bytes → FinishReason
finish_from_str s =
    if names (some s) (codes "stop")
    then stop
    else if names (some s) (codes "length")
    then limit
    else if names (some s) (codes "tool_calls")
    then tool_calls
    else if names (some s) (codes "content_filter")
    then content_filter
    else other

abbrev pub emit_finish : Agent → Option Bytes → Agent
emit_finish a none = a
emit_finish a (some reason) = emit a (on_finish (finish_from_str reason))

-- `emit_usage`, with the sum of the prompt's and the reply's tokens.
abbrev pub emit_usage : Agent → Option ℕ → Agent
emit_usage a none = a
emit_usage a (some used) = record (emit a (on_usage used)) { ctx_used = used }

abbrev pub emit_reasoning : Agent → Option Bytes → Agent
emit_reasoning a none = a
emit_reasoning a (some text) = emit a (on_reasoning text)

abbrev pub failure_text : Agent → Bytes
failure_text a = elim a.last_error [
  | none ↦ codes "provider reported a failed response"
  | some why ↦ if length why == 0 then codes "provider reported a failed response" else why
]

unfoldable pub dispatch_calls : Env → Agent → Dispatched → Agent
dispatch_calls e a (refused code) = agent_fail e a (codes "failed to dispatch tools") code
dispatch_calls e a (dispatched h) = record a { active_batch = true; history = a.history ++ h }

-- The text of the reply goes into the history, an empty reply as a mark.
abbrev pub record_text : Agent → Option Bytes → Bool → Agent
record_text a content streamed =
    if is_blank content
    then record (emit a (on_finish empty_reply)) {
      history = add_assistant_text a.history (some (codes "[empty response]")) a.compressor;
      signals = on_message ∷ on_finish empty_reply ∷ a.signals;
    }
    else record a {
      history = add_assistant_text a.history content a.compressor;
      signals =
          (if streamed then on_message ∷ a.signals else shown content (on_message ∷ a.signals));
    }
  where
    shown : Option Bytes → List Signal → List Signal
    shown none l = l
    shown (some text) l = on_text text ∷ l

-- `agent_finish`.
unfoldable pub agent_finish : Env → Agent → Reply → Bool → Agent
unfolding dispatch_calls
agent_finish e a reply streamed =
    if names reply.finish_reason (codes "content_filter")
    then agent_fail e a (codes "response stopped by content filter") eacces
    else if names reply.finish_reason (codes "error")
    then agent_fail e a (failure_text a) eio
    else if reply.has_calls
    then dispatch_calls e (enter a calling_tool) e.dispatch
    else turn_done e (enter (record_text a reply.content streamed) complete) done

abbrev pub told : Agent → Reply → Agent
told a reply = emit_usage (emit_finish a reply.finish_reason) reply.usage

-- `stream_finalize`; `content_len == 0` is content that is blank.
unfoldable pub stream_finalize : Env → Agent → AsyncTurn → Reply → Agent
unfolding agent_finish
stream_finalize e a turn reply =
    let finished = agent_finish e (told a reply) reply true in
    if not (is_missing reply.advice) && (is_blank reply.content && not reply.has_calls)
    then or_retried (rl_retry e a turn reply.advice) finished
    else finished

-- `chain_note_response`.
abbrev pub chain_note_response : Agent → Option Bytes → ℕ → Agent
chain_note_response a id msgs =
    if is_blank id then a else record a { resp_chain_id = id; resp_chain_sent = msgs }

abbrev pub noted_error : Agent → Option Bytes → Agent
noted_error a none = a
noted_error a (some msg) = set_error a msg

-- A whole response with status 200: `parsed` says whether it could be parsed.
unfoldable pub whole_response : Env → Agent → AsyncTurn → Bool → Reply → Agent
unfolding agent_finish
whole_response e a turn parsed reply =
    let heard = emit_reasoning (told a reply) reply.reasoning in
    let finished =
      agent_finish e
        (chain_note_response (noted_error heard reply.advice) reply.response_id turn.history_msgs)
        reply false in
    if not parsed
    then agent_fail e a (codes "could not parse llm response") eio
    else if not reply.has_message
    then agent_fail e a (codes "could not extract message from llm response") eio
    else if is_rate_limit_message reply.advice
    then or_retried (rl_retry e heard turn reply.advice) finished
    else finished

-- A file that a request names is gone, or tools that the model cannot take: the request is sent
-- again, where the result says so.
unfoldable pub resend_other : Agent → Option Response → Agent × Bool
resend_other a resp =
    if has_status resp 404
      && (leb 1 (length a.files) && mentions (body_of resp) (codes "File `file_"))
    then (
      record a {
        files = files_clear a.files;
        files_lost = a.files_lost + 1;
        file_uploads = if ltb 1 (a.files_lost + 1) then false else a.file_uploads;
      },
      true,
    )
    else if has_status resp 400
        && (not a.tools_unsupported && mentions (body_of resp) (codes "does not support tools"))
    then (record (emit a on_notice) { tools_unsupported = true }, true)
    else (a, false)

abbrev pub lost_chain : Option Bytes → Bool
lost_chain body =
    mentions body (codes "previous_response") || mentions body (codes "No tool output found")

-- The same for a chain that the server has lost, and a call without a result in the history.
unfoldable pub resend : Agent → Option Response → Agent × Bool
unfolding resend_other
resend a resp =
    let lost_output = mentions (body_of resp) (codes "No tool output found") in
    let (fixed, h) = repair_dangling a.history in
    let repaired = record a { history = h } in
    if not (is_missing a.resp_chain_id) && lost_chain (body_of resp)
    then (chain_reset a, true)
    else if lost_output
    then (if leb 1 fixed then (repaired, true) else resend_other repaired resp)
    else resend_other a resp

unfoldable pub resent_or_failed : Env → Agent × Bool → Agent
resent_or_failed e (a, false) = agent_fail e a e.http_detail eio
resent_or_failed e (a, true) = start_turn e a

-- A response with another status than 200.
unfoldable pub refused_response : Env → Agent → AsyncTurn → Option Response → Agent
unfolding resent_or_failed resend
refused_response e a turn resp =
    let otherwise = resent_or_failed e (resend a resp) in
    if has_status resp 429
    then or_retried (rl_retry e a turn (body_of resp)) otherwise
    else otherwise

-- `clm_http_success_cb_wrapper`.
unfoldable pub http_success_cb : Env → Agent → AsyncTurn → Option Response → Bool → Reply → Agent
unfolding refused_response whole_response stream_finalize
http_success_cb e a turn resp parsed reply =
    let fresh = record a { wire = none; inflight = none } in
    if not (has_status resp 200)
    then refused_response e fresh turn resp
    else if turn.streaming
    then stream_finalize e fresh turn reply
    else whole_response e fresh turn parsed reply

-- `agent_keep_partial`, with the text that the stream had shown.
unfoldable pub agent_keep_partial : Agent → AsyncTurn → Bytes → Agent
agent_keep_partial a turn content =
    if not turn.streaming || length content == 0 then a else record a {
      history =
          add_assistant_text a.history (some (content ++ codes "\n\n[reply cancelled]"))
            a.compressor;
      signals = on_message ∷ a.signals;
    }

-- `clm_http_error_cb_wrapper`.
unfoldable pub http_error_cb : Env → Agent → AsyncTurn → Code → Option Bytes → Bytes → Agent
unfolding agent_keep_partial
http_error_cb e a turn code msg content =
    let fresh = record a { wire = none; inflight = none } in
    if is_canceled code
    then turn_done e (enter (agent_keep_partial fresh turn content) complete) (failed code)
    else turn_done e (enter (set_error fresh (message_or msg (codes "http request failed"))) error)
        (failed code)
