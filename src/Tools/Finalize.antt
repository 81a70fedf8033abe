-- ===== src/Tools/Finalize.antt =====
-- How an invocation and a batch end: batch_really_free, batch_finalize, inv_finalize, the calls that
-- report, and on_timeout.
-- `clm_agent_tools_done` is the agent's; what it starts calls back later, so that it does not come
-- back to the batch, which is freed right after it.
use clm.Base.{
  ℕ, ◌+◌, ◌-◌, Bytes, true, false, Option, none, some, [], ◌∷◌, map, length, if◌then◌else◌, leb,
  ◌==◌,
}
use clm.Agent.{Agent, on_message, emit, chain_reset}
use clm.Agent.Calls.{batch_done}
use clm.History.{History, Attachment, add_tool_result, add_attachment}
use clm.History.Compact.{Result as Fallible, ok as succeeded, err}
use clm.History.Supersede.{supersede_tool}
use clm.Tools.{
  Invocation, Toolbox, Ext, Report, Result, tool_result, tool_batch, inv_at, with_inv, update,
  with_pending,
}
use clm.Tools.Registry.{unpin}
use clm.Tools.Results.{reported, timeout_result, output_of, superseded_stub, tool_is_volatile}

-- `batch_really_free`.
abbrev pub batch_really_free : Toolbox → Toolbox
batch_really_free s = record s { frees = s.frees + 1 }

-- The timers that are still live when the batch ends.
abbrev pub no_timers : Invocation → Invocation
no_timers v = record v { timer = false; rl_timer = false }

-- The turn goes on.
abbrev pub handed_over : Ext → Toolbox → Agent
handed_over e s = batch_done e.env s.agent s.agent.history s.agent.gate_denials s.batch.status

-- `batch_finalize`.
unfoldable pub batch_finalize : Ext → Toolbox → Toolbox
batch_finalize e s = batch_really_free (
    with_inv (record s { active = false; agent = handed_over e s; finals = s.finals + 1 })
      (map no_timers s.batch.inv))

-- `if (batch->pending > 0) batch->pending--; if (batch->pending == 0) batch_finalize(batch);`
unfoldable pub release : Ext → Toolbox → Toolbox
unfolding batch_finalize
release e s =
    let let_down = with_pending s (s.batch.pending - 1) in
    if s.batch.pending - 1 == 0 then batch_finalize e let_down else let_down

-- The end of an invocation whose agent is gone.
unfoldable pub retire : Toolbox → Toolbox
retire s =
    let let_down = with_pending s (s.batch.pending - 1) in
    if s.batch.pending - 1 == 0 then batch_really_free let_down else let_down

unfoldable pub attach_last : History → Option Attachment → History
attach_last h none = h
attach_last [] (some att) = []
attach_last (m ∷ []) (some att) = add_attachment m att.media_type att.image ∷ []
attach_last (m ∷ m' ∷ h) (some att) = m ∷ attach_last (m' ∷ h) (some att)

-- The agent once older results of a volatile tool are stubs; a chain that has them is dropped.
unfoldable pub stubbed_by : Agent → Fallible (ℕ × History) → Agent
stubbed_by a (succeeded (n, h)) =
    if leb 1 n then chain_reset (record a { history = h }) else record a { history = h }
stubbed_by a (err c) = a

unfoldable pub superseded : Ext → Toolbox → Bytes → Agent
unfolding stubbed_by
superseded e s name =
    if tool_is_volatile e s.volatile_tools name
    then stubbed_by s.agent
        (supersede_tool s.agent.history (some name) (some (superseded_stub name)))
    else s.agent

-- The result goes into the history, and the embedder sees the message.
unfoldable pub recorded : Agent → Invocation → Bytes → Option Attachment → Agent
unfolding attach_last
recorded a v out att =
    emit
      (record a {
        history =
            attach_last
              (add_tool_result a.history (some v.id) (some v.name) (some out) a.compressor) att;
      })
      on_message

-- What `inv_finalize` does for an agent that is there, before it lets the batch go.
abbrev pub answered : Ext → Toolbox → Invocation → Result → Toolbox
answered e s v r =
    let out = output_of e v.output_cap r.content in
    record s {
      store = unpin s.store v.def;
      agent = recorded (superseded e s v.name) v out r.att;
      batch = record (s.batch) { done = s.batch.done + 1 };
      told =
          tool_batch (s.batch.done + 1) (length s.batch.inv)
          ∷ tool_result v.name out r.outcome
          ∷ s.told;
    }

abbrev pub completed : Invocation → Invocation
completed v = record v { completed = true }

abbrev pub untimed : Invocation → Invocation
untimed v = record v { completed = true; timer = false }

-- `inv_finalize`.
unfoldable pub inv_finalize : Ext → Toolbox → ℕ → Result → Toolbox
unfolding release retire unpin superseded recorded
inv_finalize e s i r =
    if s.batch.detached
    then retire (update s i completed)
    else release e (answered e (update s i untimed) (inv_at s i) r)

-- The calls by which a tool reports; a completed invocation has no second result.
unfoldable pub report : Ext → Toolbox → ℕ → Report → Toolbox
unfolding inv_finalize reported
report e s i r =
    if (inv_at s i).completed then s else inv_finalize e s i (reported e s.no_vision (inv_at s i) r)

unfoldable pub report_if : Ext → Toolbox → ℕ → Option Report → Toolbox
unfolding report
report_if e s i none = s
report_if e s i (some r) = report e s i r

abbrev pub timed_out : Invocation → Invocation
timed_out v = record v { timed_out = true }

-- `on_timeout`: a tool that can be cancelled is, and reports; another is given up.
unfoldable pub on_timeout : Ext → Toolbox → ℕ → Toolbox
unfolding report_if inv_finalize
on_timeout e s i =
    let late = update s i timed_out in
    if (inv_at s i).completed
    then s
    else if (inv_at s i).cancel
    then report_if e late i (e.cancels (inv_at late i))
    else inv_finalize e late i (timeout_result e (inv_at late i))
