-- ===== src/Agent/Calls.antt =====
-- The other calls on an agent: clm_agent_notify, clm_agent_cancel, clm_agent_tools_done and the callbacks
-- of an upload.
use clm.Base.{
  ℕ, ◌+◌, Bytes, Bool, true, false, ◌&&◌, ◌||◌, Option, none, some, ◌++◌, codes, if◌then◌else◌, ltb,
  leb, ◌==◌,
}
use clm.Agent.{
  thinking, complete, Code, ecanceled, eperm, e2big, ealready, einval, Status, done, failed, Agent,
  enter, agent_busy, over_autocompact_threshold,
}
use clm.Agent.Compaction.{is_canceled, compact}
use clm.Agent.Env.{Env}
use clm.Agent.Turn.{submit, start_turn, turn_done, agent_fail, upload_noted}
use clm.History.{History}

-- What is queued once a text joins it.
abbrev pub joined : Option Bytes → Bytes → Bytes
joined none text = text
joined (some queued) text = queued ++ codes "\n\n" ++ text

-- `clm_agent_notify`.
unfoldable pub notify : Env → Agent → Bytes → Agent × Status
notify e a text =
    if agent_busy a
    then (record a { pending_notify = some (joined a.pending_notify text) }, done)
    else submit e a text

abbrev pub is_set {ℓ} : {A : Type ℓ} → Option A → Bool
is_set none = false
is_set (some x) = true

-- An agent that no longer waits for a timer, nor keeps what the timer would have sent.
abbrev pub unparked : Agent → Agent
unparked a = record a {
  llm_rl_timer = none;
  compact_rl_timer = false;
  rl_parked_turn = none;
  compact_body = false;
  compact_resume_chain = false;
}

-- `clm_agent_cancel`. The host answers an aborted request by its error callback, and the tools
-- end by `clm_agent_tools_done`.
unfoldable pub cancel : Env → Agent → Agent × Status
cancel e a =
    if a.cancelling
    then (a, failed ealready)
    else if is_set a.llm_rl_timer || a.compact_rl_timer
    then (turn_done e (enter (unparked a) complete) (failed ecanceled), done)
    else if is_set a.inflight
    then (record a { inflight = none; cancelling = true }, done)
    else if a.active_batch
    then (record a { cancelling = true }, done)
    else (a, failed einval)

abbrev pub gate_deny_limit : ℕ
gate_deny_limit = 3

-- What follows the compaction that was asked for in the middle of a chain.
unfoldable pub after_compact : Env → Agent × Status → Agent
after_compact e (a, done) =
    enter (record a { mid_chain_compact_started = true; ctx_used = 0 }) a.state
after_compact e (a, failed c) =
    start_turn e (enter (record a { compact_resume_chain = false }) thinking)

-- The next request of a chain, or a compaction before it.
unfoldable pub next_round : Env → Agent → Agent
unfolding after_compact
next_round e a =
    if over_autocompact_threshold a
    then after_compact e (compact e (record a { state = complete; compact_resume_chain = true }))
    else start_turn e (enter a thinking)

abbrev pub counted : Agent → Agent
counted a = record a { iteration = a.iteration + 1 }

-- `clm_agent_tools_done`; the batch is over, and has left its results in the history.
unfoldable pub tools_done : Env → Agent → Status → Agent
unfolding next_round
tools_done e a (failed code) =
    if a.cancelling
    then turn_done e (enter (record a { cancelling = false }) complete) (failed ecanceled)
    else agent_fail e a (codes "tool execution failed") code
tools_done e a done =
    if a.cancelling
    then turn_done e (enter (record a { cancelling = false }) complete) (failed ecanceled)
    else if leb gate_deny_limit a.gate_denials
    then agent_fail e a e.denial_text eperm
    else if a.max_iterations == 0
    then next_round e a
    else if leb a.max_iterations (a.iteration + 1)
    then agent_fail e (counted a) (codes "max iterations reached") e2big
    else next_round e (counted a)

-- The end of a batch in libclm/tools.c, which calls `clm_agent_tools_done` once its calls are over;
-- what it left in the history and how many calls hooks have blocked by then are arguments.
unfoldable pub batch_done : Env → Agent → History → ℕ → Status → Agent
unfolding tools_done
batch_done e a history denials status =
    tools_done e (record a { active_batch = false; history = history; gate_denials = denials })
      status

-- `file_upload_finish`.
unfoldable pub file_upload_finish : Env → Agent → Bytes → Option Bytes → Agent
file_upload_finish e a url file_id = start_turn e (upload_noted e a url file_id)

-- `file_upload_success`, with the status of the response and the id that was read from its body.
unfoldable pub file_upload_success : Env → Agent → Bytes → ℕ → Option Bytes → Agent
unfolding file_upload_finish
file_upload_success e a url status id =
    let read = if leb 200 status && ltb status 300 then id else none in
    let fresh = record a { wire = none; inflight = none } in
    if status == 404 || status == 405
    then file_upload_finish e (record fresh { file_uploads = false }) url read
    else file_upload_finish e fresh url read

-- `file_upload_error`.
unfoldable pub file_upload_error : Env → Agent → Bytes → Code → Agent
unfolding file_upload_finish
file_upload_error e a url code =
    let fresh = record a { wire = none; inflight = none } in
    if is_canceled code
    then turn_done e (enter fresh complete) (failed ecanceled)
    else file_upload_finish e fresh url none
