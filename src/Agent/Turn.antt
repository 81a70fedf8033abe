-- ===== src/Agent/Turn.antt =====
-- How a turn starts and lands: clm_agent_submit, agent_turn_done, clm_agent_notify,
-- agent_flush_pending_notify, clm_agent_start_turn, file_upload_*, llm_dispatch, on_llm_rl_timer,
-- turn_post_failed, rl_retry and agent_fail.
-- A turn lands by a function `land`: it is `ended` inside `start_turn`, which has just emptied
-- `pending_notify`, and `turn_done` where text may be queued.
use clm.Base.{
  ℕ, ◌+◌, ◌/◌, Bytes, Bool, true, false, not, ◌&&◌, ◌||◌, Option, none, some, [], ◌∷◌, ◌++◌, codes,
  length, if◌then◌else◌, leb, ◌==◌,
}
use clm.Agent.{
  thinking, rate_limited, error, Code, enomem, ebusy, Status, done, failed, on_turn_done,
  on_message, turn_start, turn_end, timer_for, AsyncTurn, turn_request, upload_request, Agent, emit,
  enter, set_error, chain_reset, agent_busy,
}
use clm.Agent.Env.{Applied, apply_failed, applied, missing, Env}
use clm.Agent.Delay.{rl_retry_delay_ms}
use clm.Files.{added, no_space, files_add}
use clm.History.{add_user}
use clm.Ratelimit.{Ratelimit, allow, delay, consume}

abbrev pub request_tokens : AsyncTurn → ℕ
request_tokens turn =
    let est = (if turn.ctx_bytes == 0 then turn.body_len else turn.ctx_bytes) / 4 in
    if est == 0 then 1 else est

-- The end of `agent_turn_done` where no text is queued: the hooks and `cb_on_turn_done`.
abbrev pub ended : Agent → Status → Agent
ended a status = record a {
  pending_notify = none;
  signals = on_turn_done status ∷ turn_end status ∷ a.signals;
}

abbrev pub in_error : Agent → Bytes → Agent
in_error a msg = enter (set_error a msg) error

-- An error that ends the turn: `set_error`, the state and its callback, and the end.
abbrev pub failed_with : (Agent → Status → Agent) → Agent → Bytes → Code → Agent
failed_with land a msg e = land (in_error a msg) (failed e)

abbrev pub turn_post_failed : (Agent → Status → Agent) → Env → Agent → Agent
turn_post_failed land e a = failed_with land a (codes "request could not be sent") (e.post_error a)

-- `agent_http_post` of a turn, and what follows a refusal.
abbrev pub post_turn : (Agent → Status → Agent) → Env → Agent → AsyncTurn → Agent
post_turn land e a turn =
    if e.post a
    then record a { wire = some (turn_request turn); inflight = some (turn_request turn) }
    else turn_post_failed land e a

unfoldable pub on_llm_rl_timer : (Agent → Status → Agent) → Env → Agent → AsyncTurn → Agent
on_llm_rl_timer land e a turn =
    post_turn land e
      (record a {
        llm_rl_timer = none;
        rl_parked_turn = none;
        llm_rl = consume a.llm_rl e.now_usec (request_tokens turn);
      })
      turn

-- A wait in microseconds, in whole milliseconds and at least one.
abbrev pub wait_ms : ℕ → ℕ
wait_ms delay_us = if delay_us / 1000 == 0 then 1 else delay_us / 1000

-- The turn waits for tokens; without a timer it goes out at once.
unfoldable pub park : (Agent → Status → Agent) → Env → Agent → AsyncTurn → ℕ → Agent
unfolding on_llm_rl_timer
park land e a turn delay_us =
    let waiting = emit (enter a rate_limited) (timer_for (wait_ms delay_us)) in
    if e.timer_set
    then record waiting { llm_rl_timer = some turn; rl_parked_turn = some turn }
    else on_llm_rl_timer land e waiting turn

-- The bucket once it was asked for the tokens of the turn, and the answer.
abbrev pub limited : Env → Agent → AsyncTurn → Option Ratelimit × Bool
limited e a turn = allow a.llm_rl e.now_usec (request_tokens turn)

-- The same for the wait.
abbrev pub waited : Env → Agent → AsyncTurn → Option Ratelimit × ℕ
waited e a turn = delay (limited e a turn).0 e.now_usec (request_tokens turn)

unfoldable pub llm_dispatch : (Agent → Status → Agent) → Env → Agent → AsyncTurn → Agent
llm_dispatch land e a turn =
    if not e.has_timers
    then post_turn land e a turn
    else if (limited e a turn).1
    then post_turn land e (record a { llm_rl = (limited e a turn).0 }) turn
    else park land e (record a { llm_rl = (waited e a turn).0 }) turn (waited e a turn).1

unfoldable pub flush_text : Agent → Option Bytes → Agent
flush_text a none = a
flush_text a (some text) = record a {
  pending_notify = none;
  history = add_user a.history (some text) a.compressor;
  signals = on_message ∷ a.signals;
}

unfoldable pub flush_pending_notify : Agent → Agent
unfolding flush_text
flush_pending_notify a = flush_text a a.pending_notify

-- `clm_files_add` for an image, and what a full table means for the uploads.
unfoldable pub upload_noted : Env → Agent → Bytes → Option Bytes → Agent
upload_noted e a url file_id = elim (files_add a.files url file_id e.time) [
  | added files ↦ record a { files = files }
  | no_space ↦ record a { file_uploads = false }
]

-- `file_upload_start`, with whether the upload is in flight.
unfoldable pub file_upload_start : Env → Agent → Bytes → Agent × Bool
unfolding upload_noted
file_upload_start e a url =
    if not e.files_url
    then (record a { file_uploads = false }, false)
    else if not e.upload_prepared
    then (upload_noted e a url none, false)
    else if e.upload_post
    then (record a { wire = some (upload_request url); inflight = some (upload_request url) }, true)
    else (record a { file_uploads = false }, false)

-- Whether the server holds the first `resp_chain_sent` messages of those that are to be sent.
abbrev pub is_chained : Agent → Bool
is_chained a = elim a.resp_chain_id [
  | none ↦ false
  | some id ↦ leb 1 a.resp_chain_sent && leb a.resp_chain_sent (length a.history)
]

-- A chain that cannot be continued is dropped.
abbrev pub chained : Agent → Agent
chained a = elim a.resp_chain_id [ none ↦ a | some id ↦ if is_chained a then a else chain_reset a ]

-- What goes out when a chain is continued, and when it is not.
unfoldable pub new_turn : Env → Agent → AsyncTurn
new_turn e a = record {
  body_len = e.body_len;
  streaming = a.stream;
  history_msgs = length a.history;
  ctx_bytes = if is_chained a && leb 1 e.full_len then e.full_len else e.body_len;
  rl_retries = 0;
}

abbrev pub out_of_memory : Agent → Agent
out_of_memory a = failed_with ended a (codes "out of memory") enomem

abbrev pub cannot_build : Env → Agent → Bool → Bool
cannot_build e a has_messages = not has_messages || (not a.tools_unsupported && not e.schema_built)

-- The part of `clm_agent_start_turn` that has the messages and sends the request.
unfoldable pub send_turn : Env → Agent → Bool → Agent
unfolding llm_dispatch
send_turn e a has_messages =
    if cannot_build e a has_messages
    then out_of_memory a
    else if not e.request_built
    then out_of_memory (chained a)
    else llm_dispatch ended e (chained a) (new_turn e a)

-- The completion of an upload that is in flight starts the turn again.
unfoldable pub sent_unless : Env → Agent × Bool → Agent
unfolding send_turn
sent_unless e (a, true) = a
sent_unless e (a, false) = send_turn e a true

unfoldable pub start_turn_files : Env → Agent → Applied → Agent
unfolding send_turn file_upload_start sent_unless
start_turn_files e a apply_failed = send_turn e a false
start_turn_files e a applied = send_turn e a true
start_turn_files e a (missing url) = sent_unless e (file_upload_start e a url)

abbrev pub with_parts : Agent → Agent
with_parts a =
    if a.prompt_parts_changed then record (chain_reset a) { prompt_parts_changed = false } else a

-- `clm_agent_start_turn`.
unfoldable pub start_turn : Env → Agent → Agent
unfolding start_turn_files send_turn flush_pending_notify
start_turn e a =
    let ready = with_parts (flush_pending_notify a) in
    if e.messages_built
    then (if ready.file_uploads
        then start_turn_files e ready e.files_apply
        else send_turn e ready true)
    else send_turn e ready false

abbrev pub time_stamp_interval : ℕ
time_stamp_interval = 600

abbrev pub pending_facts : Agent → Bytes
pending_facts a = elim a.system_prompt_suffix [
  | none ↦ []
  | some s ↦ if a.facts_pending then s else []
]

abbrev pub line_end : Bytes → Bytes
line_end [] = []
line_end (b ∷ s) = codes "\n"

abbrev pub context_update : Bytes → Bytes → Bytes
context_update stamp facts =
    codes "[context update] current time: "
    ++ stamp
    ++ codes "\n"
    ++ facts
    ++ line_end facts
    ++ codes "(automatic context, not user input; do not acknowledge)"

abbrev pub wants_context : Env → Agent → Bool
wants_context e a =
    leb (a.last_time_stamp + time_stamp_interval) e.time || leb 1 (length (pending_facts a))

-- The time and the facts about the host, when it is time for them or facts are pending.
unfoldable pub refresh_context : Env → Agent → Agent
refresh_context e a =
    if wants_context e a
    then record a {
      facts_pending = false;
      history = add_user a.history (some (context_update e.rfc2822 (pending_facts a))) a.compressor;
      signals = on_message ∷ a.signals;
      last_time_stamp = e.time;
    }
    else a

-- The prompt goes into the history, and the turn begins.
unfoldable pub begin_turn : Agent → Bytes → Agent
begin_turn a prompt =
    enter
      (record a {
        history = add_user a.history (some prompt) a.compressor;
        signals = on_message ∷ a.signals;
        iteration = 0;
        gate_denials = 0;
        cancelling = false;
      })
      thinking

-- `clm_agent_submit`.
unfoldable pub submit : Env → Agent → Bytes → Agent × Status
unfolding refresh_context begin_turn start_turn
submit e a prompt =
    if agent_busy a
    then (set_error a (codes "turn already in progress"), failed ebusy)
    else (start_turn e (begin_turn (refresh_context e (emit a (turn_start prompt))) prompt), done)

-- What `agent_turn_done` does with the text that it took from `pending_notify`.
unfoldable pub turn_done_text : Env → Agent → Status → Option Bytes → Agent
unfolding submit
turn_done_text e a status none = ended a status
turn_done_text e a status (some text) = (submit e (ended a status) text).0

-- `agent_turn_done`.
unfoldable pub turn_done : Env → Agent → Status → Agent
unfolding turn_done_text
turn_done e a status = turn_done_text e a status a.pending_notify

-- `agent_fail`.
unfoldable pub agent_fail : Env → Agent → Bytes → Code → Agent
unfolding turn_done
agent_fail e a msg code = failed_with (turn_done e) a msg code

abbrev pub rl_retry_max : ℕ
rl_retry_max = 8

-- The turn, with its count, is parked until the timer fires.
abbrev pub retrying : Env → Agent → AsyncTurn → Option Bytes → Agent
retrying e a turn advice =
    let delay_ms = rl_retry_delay_ms e.scan advice turn.rl_retries in
    let again = record turn { rl_retries = turn.rl_retries + 1 } in
    record (emit (enter a rate_limited) (timer_for delay_ms)) {
      rl_parked_turn = some again;
      llm_rl_timer = if e.timer_set then some again else a.llm_rl_timer;
    }

-- `rl_retry`: nothing where it returns false.
unfoldable pub rl_retry : Env → Agent → AsyncTurn → Option Bytes → Option Agent
rl_retry e a turn advice =
    if leb rl_retry_max turn.rl_retries || not e.has_timers
    then none
    else some (retrying e a turn advice)
