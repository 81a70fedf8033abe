-- ===== src/Agent/Tests.antt =====
-- The turns of an agent on small inputs.
use clm.Base.{◌≡◌, refl, ap, arith, Bytes, true, false, Option, none, some, [], ◌∷◌, codes}
use clm.Agent.{idle, thinking, done, ecanceled, turn_start, is_busy, AsyncTurn, turn_request, Agent}
use clm.Agent.Calls.{cancel}
use clm.Agent.Compaction.{Response}
use clm.Agent.Reply.{Reply, http_success_cb, http_error_cb}
use clm.Agent.Step.{submits, turn_answered, here, next}
use clm.Agent.Step.Cancelled.{Leftover, Cancels, cancel-Cancels}
use clm.Agent.Step.Paced.{IsRetry, rl_retry-IsRetry}
use clm.Agent.Step.Reached.{IsNew, IsNew-Sound, Reach-Sound}
use clm.Agent.Step.Stuck.{IsStuck, rl_retry-IsStuck, IsStale, compact-cancel-IsStale}
use clm.Agent.Env.{Env, applied, built, refused}
use clm.Agent.Turn.{
  submit, start_turn, send_turn, llm_dispatch, begin_turn, refresh_context, flush_pending_notify,
  flush_text, new_turn, rl_retry,
}
use clm.Agent.Waiting.{Sound, Open}
use clm.History.{add_user}
use clm.Ratelimit.{allow}
use clm.Agent.Waiting.Landing.{submit-Sound, IfAny}

abbrev pub env : Env
env = record {
  post = λ a. true;
  post_error = λ a. ecanceled;
  has_timers = true;
  timer_set = true;
  messages_built = true;
  files_apply = applied;
  files_url = true;
  upload_prepared = true;
  upload_post = true;
  schema_built = true;
  request_built = true;
  full_len = 0;
  body_len = 400;
  compact_built = built;
  dispatch = refused ecanceled;
  now_usec = 0;
  time = 0;
  rfc2822 = [];
  http_detail = [];
  denial_text = [];
  scan = λ s. none;
}

abbrev pub fresh : Agent
fresh = record {
  state = idle;
  wire = none;
  inflight = none;
  llm_rl_timer = none;
  compact_rl_timer = false;
  rl_parked_turn = none;
  active_batch = false;
  cancelling = false;
  pending_notify = none;
  signals = [];
  last_error = none;
  history = [];
  compressor = none;
  system_prompt_suffix = none;
  facts_pending = false;
  last_time_stamp = 0;
  iteration = 0;
  max_iterations = 0;
  gate_denials = 0;
  ctx_used = 0;
  ctx_max = 0;
  autocompact_pct = 0;
  autocompact_tokens = 0;
  compact_body = false;
  compact_resume_chain = false;
  compact_rl_retries = 0;
  compact_effort = none;
  compact_effort_changed = false;
  compact_effort_fallback = false;
  mid_chain_compact_started = false;
  mid_chain_compact_succeeded = false;
  mid_chain_compact_failed = false;
  llm_rl = none;
  effort = none;
  is_anthropic = false;
  stream = false;
  resp_chain_id = none;
  resp_chain_sent = 0;
  prompt_parts_changed = false;
  tools_unsupported = false;
  file_uploads = false;
  files = [];
  files_lost = 0;
}

fresh-IsNew : IsNew fresh
fresh-IsNew = record {
  is_idle = refl;
  no_wire = refl;
  no_inflight = refl;
  no_llm_timer = refl;
  no_compact_timer = refl;
  no_batch = refl;
  no_signals = refl;
}

abbrev prompt : Bytes
prompt = codes "hi"

abbrev first_turn : AsyncTurn
first_turn = record {
  body_len = 400;
  streaming = false;
  history_msgs = 1;
  ctx_bytes = 400;
  rl_retries = 0;
}

abbrev hello : Reply
hello = record {
  has_message = true;
  has_calls = false;
  content = some (codes "hello");
  reasoning = none;
  finish_reason = some (codes "stop");
  usage = some 12;
  advice = none;
  response_id = none;
}

abbrev ok_response : Option Response
ok_response = some (record { status_code = 200; body = some (codes "{}") })

running_wire : (submit env fresh prompt).0.wire ≡ some (turn_request first_turn)
unfolding submit start_turn send_turn llm_dispatch begin_turn refresh_context flush_pending_notify
    flush_text new_turn allow add_user
running_wire = refl

Reach-Sound_example :
    Sound 0 (http_success_cb env (submit env fresh prompt).0 first_turn ok_response true hello)
Reach-Sound_example = Reach-Sound fresh-IsNew (
    next (next here (submits env fresh prompt)) (
      turn_answered env (submit env fresh prompt).0 first_turn ok_response true hello refl
        running_wire))

abbrev leftover : Leftover
leftover = record { content = []; history = []; denials = 0; status = done }

running-Sound : Sound 0 (submit env fresh prompt).0
running-Sound = submit-Sound 0 env fresh prompt (IsNew-Sound fresh fresh-IsNew)

running_facts :
    ((submit env fresh prompt).0.state ≡ thinking)
    × ((submit env fresh prompt).0.cancelling ≡ false)
    × ((submit env fresh prompt).0.pending_notify ≡ none)
unfolding submit start_turn send_turn llm_dispatch begin_turn refresh_context flush_pending_notify
    flush_text new_turn allow add_user
running_facts = (refl, refl, refl)

cancel-Cancels_example :
    Cancels env leftover (submit env fresh prompt).0 (cancel env (submit env fresh prompt).0)
cancel-Cancels_example =
    cancel-Cancels 0 env env leftover (submit env fresh prompt).0 running-Sound
      (ap is_busy running_facts.0) running_facts.1 running_facts.2

-- A turn of which nothing is on the wire, as it is when its reply has come.
abbrev between : Agent
between = record fresh { state = thinking; signals = turn_start prompt ∷ [] }

between-Open : Open 0 between
unfolding Open
between-Open = ground arith

abbrev refusing : Env
refusing = record env { timer_set = false }

rl_retry-IsStuck_example :
    (b : Agent) × (rl_retry refusing between first_turn none ≡ some b) × IsStuck b
rl_retry-IsStuck_example =
    rl_retry-IsStuck 0 refusing between first_turn none refl refl (omega arith) between-Open refl

rl_retry-IsRetry_example :
    IfAny (IsRetry env between first_turn none) (rl_retry env between first_turn none)
rl_retry-IsRetry_example = rl_retry-IsRetry env between first_turn none

-- The retry of that turn goes ahead.
retry_goes :
    IfAny
      (λ a. a.rl_parked_turn ≡ some (record first_turn { rl_retries = 1 }))
      (rl_retry env between first_turn none)
unfolding rl_retry
retry_goes = refl

abbrev aborting : Agent
aborting = record between { cancelling = true }

compact-cancel-IsStale_example :
    IsStale env env (http_error_cb env aborting first_turn ecanceled none [])
compact-cancel-IsStale_example =
    compact-cancel-IsStale env env env aborting first_turn none [] refl refl refl (λ b. refl)
