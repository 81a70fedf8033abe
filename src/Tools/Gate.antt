-- ===== src/Tools/Gate.antt =====
-- The way of a call to its tool: run_invoke, permission_gate, clm_tool_permission_respond, gate_run,
-- clm_tool_gate_respond, dispatch_one and on_rl_timer.
use clm.Base.{
  ℕ, ◌+◌, Bytes, Bool, true, false, not, ◌&&◌, ◌||◌, Option, none, some, List, [], ◌∷◌, ◌++◌, codes,
  drop, if◌then◌else◌, leb,
}
use clm.Agent.{Status, done, einval}
use clm.Agent.{failed as failed_status}
use clm.Ratelimit.{consume}
use clm.Tools.{
  Tool, Invocation, Toolbox, Ext, fail, GateAnswer, Verdict, pass, deny, ask, Decision, allow_once,
  allow_always, deny_always, tool_begin, notice, invoked, inv_at, update, with_pending, tell,
}
use clm.Tools.Finalize.{release, report, report_if}
use clm.Tools.Registry.{find_tool, write}
use clm.Tools.Results.{printed}

-- The timer of the call, if the host has one for it.
abbrev pub armed : Ext → Invocation → Invocation
armed e v = record v { timer = v.timer || (leb 1 v.timeout_ms && (e.has_timers && e.arms v)) }

abbrev pub with_cancel : Bool → Invocation → Invocation
with_cancel cancels v = record v { cancel = v.cancel || cancels }

-- The batch is held, and the tool runs.
unfoldable pub run_invoke : Ext → Toolbox → ℕ → Toolbox
unfolding release report_if
run_invoke e s i =
    let ready = update s i (armed e) in
    let held = tell (with_pending ready (ready.batch.pending + 1)) (invoked i) in
    let got = e.invoke (inv_at held i) in
    release e (report_if e (update held i (with_cancel got.cancels)) i got.reports)

unfoldable pub fail_with : Ext → Toolbox → ℕ → Bytes → Toolbox
unfolding report
fail_with e s i msg = report e s i (fail (some msg))

abbrev pub allows : Decision → Bool
allows allow_once = true
allows allow_always = true
allows _ = false

abbrev pub is_always : Decision → Bool
is_always allow_always = true
is_always deny_always = true
is_always _ = false

abbrev pub with_answer : Bool → Option Tool → Option Tool
with_answer allow none = none
with_answer allow (some t) = some (record t { remembered = true; remember_allow = allow })

abbrev pub remember_at : Toolbox → Bool → Option ℕ → Toolbox
remember_at s allow none = s
remember_at s allow (some k) = record s { store = write s.store k (with_answer allow (s.store k)) }

unfoldable pub remember : Toolbox → Bytes → Decision → Toolbox
remember s name d = if is_always d then remember_at s (allows d) (find_tool s name) else s

abbrev pub unparked : Invocation → Invocation
unparked v = record v { awaiting_perm = false }

-- `clm_tool_permission_respond`; the answer is to the request of the invocation `i`.
unfoldable pub permission_respond : Ext → Toolbox → ℕ → Decision → Toolbox × Status
unfolding remember run_invoke fail_with
permission_respond e s i d =
    let told = remember (update s i unparked) (inv_at s i).name d in
    if not (inv_at s i).awaiting_perm
    then (s, failed_status einval)
    else if allows d
    then (run_invoke e told i, done)
    else (fail_with e told i (codes "denied by user"), done)

abbrev pub awaiting : Invocation → Invocation
awaiting v = record v { awaiting_perm = true }

-- The prompt may be answered before it returns.
unfoldable pub asked : Ext → Toolbox → ℕ → Option Decision → Toolbox
unfolding permission_respond
asked e s i none = s
asked e s i (some d) = (permission_respond e s i d).0

unfoldable pub ask_permission : Ext → Toolbox → ℕ → Option (Invocation → Option Decision) → Toolbox
unfolding asked fail_with
ask_permission e s i none = fail_with e s i (codes "denied: no permission policy")
ask_permission e s i (some prompt) =
    let parked = update s i awaiting in asked e parked i (prompt (inv_at parked i))

-- A remembered answer holds, but a hook that asked outdoes one that allows.
abbrev pub is_settled : Tool → Bool → Bool
is_settled t force_ask = t.remembered && (not t.remember_allow || not force_ask)

-- `permission_gate`; the node of an invocation is there while it runs.
unfoldable pub permission_gate : Ext → Toolbox → ℕ → Option Tool → Toolbox
unfolding run_invoke fail_with ask_permission
permission_gate e s i none = s
permission_gate e s i (some t) =
    if t.no_prompt && not (inv_at s i).force_ask
    then run_invoke e s i
    else if is_settled t (inv_at s i).force_ask
    then (if t.remember_allow
        then run_invoke e s i
        else fail_with e s i (codes "denied by user (remembered)"))
    else ask_permission e s i e.permission

abbrev pub def_of : Toolbox → Option ℕ → Option Tool
def_of s none = none
def_of s (some k) = s.store k

abbrev with_args : Option Bytes → Invocation → Invocation
with_args none v = v
with_args (some args) v = record v { args = args }

abbrev first_of : Option Bytes → Option Bytes → Option Bytes
first_of (some old) new = some old
first_of none new = new

abbrev pub forced : Option Bytes → Invocation → Invocation
forced reason v = record v { force_ask = true; ask_reason = first_of v.ask_reason reason }

abbrev or_unsaid : Option Bytes → Bytes
or_unsaid none = codes "no reason given"
or_unsaid (some s) = s

abbrev pub denied_by_hook : Option Bytes → Bytes
denied_by_hook reason = printed 511 (codes "denied by hook: " ++ or_unsaid reason)

abbrev pub counted_denial : Toolbox → Toolbox
counted_denial s = record s { agent = record (s.agent) { gate_denials = s.agent.gate_denials + 1 } }

abbrev pub noted : Toolbox → Option Bytes → Toolbox
noted s none = s
noted s (some reason) = tell s (notice (printed 511 (codes "allowed by hook: " ++ reason)))

-- The verdict, and `next`, which runs the next hook.
unfoldable pub judged : Ext → Toolbox → ℕ → Option Bytes → Verdict → (Toolbox → Toolbox) → Toolbox
unfolding fail_with
judged e s i reason deny next = fail_with e (counted_denial s) i (denied_by_hook reason)
judged e s i reason ask next = next (update s i (forced reason))
judged e s i reason pass next = next (noted s reason)

abbrev pub ungated : Option Bytes → Invocation → Invocation
ungated args v = record (with_args args v) { gate = false }

-- `clm_tool_gate_respond`, for a call that is not gone.
unfoldable pub answer : Ext → Toolbox → ℕ → GateAnswer → (Toolbox → Toolbox) → Toolbox
unfolding judged
answer e s i a next = judged e (update s i (ungated a.args)) i a.reason a.verdict next

unfoldable pub hooked : Ext → Toolbox → ℕ → Option GateAnswer → (Toolbox → Toolbox) → Toolbox
unfolding answer
hooked e s i none next = s
hooked e s i (some a) next = answer e s i a next

abbrev pub gated : Invocation → Invocation
gated v = record v { gate = true; gate_next = v.gate_next + 1 }

-- The hooks that are left, each of which may answer before it returns.
unfoldable pub gate_steps : List (Invocation → Option GateAnswer) → Ext → ℕ → Toolbox → Toolbox
unfolding permission_gate hooked
gate_steps [] e i s = permission_gate e s i (def_of s (inv_at s i).def)
gate_steps (hook ∷ l) e i s =
    let waiting = update s i gated in
    hooked e waiting i (hook (inv_at waiting i)) (gate_steps l e i)

-- `gate_run`.
unfoldable pub gate_run : Ext → ℕ → Toolbox → Toolbox
unfolding gate_steps
gate_run e i s = gate_steps (drop (inv_at s i).gate_next e.hooks) e i s

unfoldable pub gate_respond : Ext → Toolbox → ℕ → GateAnswer → Toolbox
unfolding answer gate_run
gate_respond e s i a = answer e s i a (gate_run e i)

unfoldable pub dispatch_def : Ext → Toolbox → ℕ → Option ℕ → Toolbox
unfolding gate_run fail_with
dispatch_def e s i none = fail_with e s i (codes "unknown tool")
dispatch_def e s i (some k) = gate_run e i s

-- `dispatch_one`.
unfoldable pub dispatch_one : Ext → Toolbox → ℕ → Toolbox
unfolding dispatch_def
dispatch_one e s i =
    dispatch_def e (tell s (tool_begin (inv_at s i).name (inv_at s i).args)) i (inv_at s i).def

abbrev pub no_rl_timer : Invocation → Invocation
no_rl_timer v = record v { rl_timer = false }

-- `on_rl_timer`.
unfoldable pub on_rl_timer : Ext → Toolbox → ℕ → Toolbox
unfolding dispatch_one
on_rl_timer e s i =
    dispatch_one e (record (update s i no_rl_timer) { tool_rl = consume s.tool_rl e.now_usec 1 }) i
