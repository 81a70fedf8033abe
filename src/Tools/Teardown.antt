-- ===== src/Tools/Teardown.antt =====
-- The end of a batch before its calls are over: clm_tools_cancel and clm_tools_detach.
use clm.Base.{ℕ, zero, suc, ◌+◌, ◌-◌, true, false, not, none, codes, length, if◌then◌else◌, ◌==◌}
use clm.Tools.{Invocation, Toolbox, Ext, Result, failed, inv_at, update, with_pending}
use clm.Tools.Finalize.{batch_really_free, release, inv_finalize, report_if}
use clm.Tools.Gate.{no_rl_timer}
use clm.Tools.Registry.{detach_nodes}

abbrev pub cancelled_result : Result
cancelled_result = record {
  content = codes "[tool failed: cancelled]";
  outcome = failed;
  att = none;
}

abbrev pub no_gate : Invocation → Invocation
no_gate v = record v { gate = false }

abbrev pub cancel_if : Ext → Toolbox → ℕ → Toolbox
cancel_if e s i = if (inv_at s i).cancel then report_if e s i (e.cancels (inv_at s i)) else s

-- The body of the loop of `clm_tools_cancel`.
unfoldable pub cancel_at : Ext → Toolbox → ℕ → Toolbox
unfolding inv_finalize report_if
cancel_at e s i =
    if (inv_at s i).completed
    then s
    else if (inv_at s i).rl_timer
    then inv_finalize e (update s i no_rl_timer) i cancelled_result
    else if (inv_at s i).awaiting_perm
    then s
    else if (inv_at s i).gate
    then inv_finalize e (update s i no_gate) i cancelled_result
    else cancel_if e s i

unfoldable pub cancel_loop : Ext → ℕ → ℕ → Toolbox → Toolbox
unfolding cancel_at
cancel_loop e zero i s = s
cancel_loop e (suc n) i s = cancel_loop e n (i + 1) (cancel_at e s i)

-- `clm_tools_cancel`.
unfoldable pub tools_cancel : Ext → Toolbox → Toolbox
unfolding cancel_loop release
tools_cancel e s =
    if not s.active
    then s
    else release e (cancel_loop e (length s.batch.inv) 0 (with_pending s (s.batch.pending + 1)))

abbrev pub unlimited : Invocation → Invocation
unlimited v = record v { completed = true; rl_timer = false }

abbrev pub unasked : Invocation → Invocation
unasked v = record v { completed = true; gate = false }

abbrev pub unanswered : Invocation → Invocation
unanswered v = record v { completed = true; awaiting_perm = false }

-- A call that never started ends.
abbrev pub dropped : Toolbox → ℕ → (Invocation → Invocation) → Toolbox
dropped s i f = with_pending (update s i f) (s.batch.pending - 1)

abbrev pub no_timer : Invocation → Invocation
no_timer v = record v { timer = false }

-- The body of the loop of `clm_tools_detach`.
unfoldable pub detach_at : Ext → Toolbox → ℕ → Toolbox
unfolding report_if
detach_at e s i =
    if (inv_at s i).completed
    then s
    else if (inv_at s i).rl_timer
    then dropped s i unlimited
    else if (inv_at s i).gate
    then dropped s i unasked
    else if (inv_at s i).awaiting_perm
    then dropped s i unanswered
    else cancel_if e (update s i no_timer) i

unfoldable pub detach_loop : Ext → ℕ → ℕ → Toolbox → Toolbox
unfolding detach_at
detach_loop e zero i s = s
detach_loop e (suc n) i s = detach_loop e n (i + 1) (detach_at e s i)

abbrev pub freed_if_done : Toolbox → Toolbox
freed_if_done s = if s.batch.pending == 0 then batch_really_free s else s

abbrev pub severed : Toolbox → Toolbox
severed s = record s {
  batch = record (s.batch) { detached = true };
  active = false;
  agent = record (s.agent) { active_batch = false };
}

-- `clm_tools_detach`.
unfoldable pub tools_detach : Ext → Toolbox → Toolbox
unfolding detach_nodes detach_loop
tools_detach e s =
    if not s.active
    then detach_nodes s s.tools
    else freed_if_done (detach_loop e (length s.batch.inv) 0 (severed (detach_nodes s s.tools)))
