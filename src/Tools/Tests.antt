-- ===== src/Tools/Tests.antt =====
-- Runs of the tool batches.
use clm.Agent.{done}
use clm.Agent.Tests.{env}
use clm.Agent.Tests.{fresh as new_agent}
use clm.Base.{
  ◌+◌, ◌≡◌, refl, Bytes, true, false, Option, none, some, List, [], ◌∷◌, bytes_eq, codes,
  if◌then◌else◌, ◌==◌, arith, if-cases,
}
use clm.Tools.{Tool, Invocation, Toolbox, Ext, complete_buf, fail, no_inv, deny_once}
use clm.Tools.Counts.{count}
use clm.Tools.Detach.Twice.{LastCall, tools_detach-freed_twice}
use clm.Tools.Dispatch.{Call, string, absent, dispatch}
use clm.Tools.Teardown.{tools_detach}
use clm.Tools.Gate.{permission_gate}
use clm.Tools.Guard.{SameRuns, may_run, permission_gate-SameRuns}
use clm.Tools.Life.{Reach}
use clm.Tools.Life.Batch.{
  IsOnce, IsAnswered, IsPinned, Reach-IsOnce, Reach-IsAnswered, Reach-IsPinned,
}
use clm.Tools.Life.Reached.{Idle}
use clm.Tools.Limits.{IsLimited, inv_compute_limits-IsLimited}
use clm.Tools.Registry.{tool_add, tool_remove}
use clm.Tools.Registry.Map.{IsRegistry}
use clm.Tools.Registry.Refined.{Added, Removed, registry-IsMap}
use clm.Tools.Results.{inv_compute_limits}
use clm.Tools.Sound.{given, inflight_of, Watch, Sound, Counted}
use clm.Tools.Sound.Start.{has_id}

-- A host that reads a file at once, and whose user denies what is asked.
abbrev ext : Ext
ext = record {
  env = env;
  now_usec = 0;
  has_timers = true;
  arms = λ v. true;
  arms_rl = λ v. true;
  invoke = λ v. record { cancels = false; reports = some (complete_buf (codes "text")) };
  hooks = [];
  permission = some (λ v. some deny_once);
  cancels = λ v. some (fail (some (codes "cancelled")));
  fnmatch = λ p n. false;
  arg_number = λ a k. none;
  decimal = λ n. [];
  marker = λ m. [];
  overread = λ d. [];
}

abbrev read_tool : Tool
read_tool = record {
  name = codes "file_read";
  detach = false;
  output_cap = 0;
  timeout_ms = 0;
  no_prompt = true;
  output_cap_overridable = false;
  timeout_overridable = false;
  remembered = false;
  remember_allow = false;
  inflight = 0;
  removed = false;
}

abbrev shell_tool : Tool
shell_tool = record read_tool { name = codes "shell"; no_prompt = false }

abbrev box : Toolbox
box = record {
  agent = new_agent;
  tools = 1 ∷ [];
  store = λ k. if k == 1 then some read_tool else none;
  tool_rl = none;
  volatile_tools = [];
  no_vision = false;
  batch = record { inv = []; pending = 0; done = 0; status = done; detached = false };
  active = false;
  finals = 0;
  frees = 0;
  told = [];
}

abbrev calls : List Call
calls =
    record { id = string (codes "a"); name = string (codes "file_read"); arguments = none }
    ∷ record { id = absent; name = string (codes "none"); arguments = some (codes "{}") }
    ∷ []

box-Idle : Idle box
box-Idle k = if-cases (λ (o : Option Tool). inflight_of o ≡ 0) (k == 1) (λ p. refl) (λ p. refl)

Reach-IsOnce_example :
    (t : Toolbox) × (dispatch ext box calls ≡ some (t, done))
    × ((u : Toolbox) → Reach t u → IsOnce u)
Reach-IsOnce_example = Reach-IsOnce ext box calls refl (omega arith) box-Idle

Reach-IsAnswered_example :
    (t : Toolbox) × (dispatch ext box calls ≡ some (t, done))
    × ((id : Bytes) (u : Toolbox)
        → Reach t u
        → IsAnswered id (given id box.agent.history + count (has_id id) calls) u)
Reach-IsAnswered_example = Reach-IsAnswered ext box calls refl (omega arith) box-Idle

Reach-IsPinned_example :
    (t : Toolbox) × (dispatch ext box calls ≡ some (t, done))
    × ((u : Toolbox) → Reach t u → IsPinned u)
Reach-IsPinned_example = Reach-IsPinned ext box calls refl (omega arith) box-Idle

inv_compute_limits-IsLimited_example : IsLimited (inv_compute_limits ext (some read_tool) no_inv)
inv_compute_limits-IsLimited_example = inv_compute_limits-IsLimited ext (some read_tool) no_inv

-- A shell command that is parked nowhere, and one that runs and can be cancelled.
abbrev waiting : Invocation
waiting = record no_inv { completed = false; name = codes "shell"; def = some 1 }

abbrev running : Invocation
running = record waiting { cancel = true }

abbrev one_call : Invocation → Toolbox
one_call v = record box {
  store = λ k. if k == 1 then some (record shell_tool { inflight = 1 }) else none;
  batch = record { inv = v ∷ []; pending = 1; done = 0; status = done; detached = false };
  active = true;
}

waiting_denied : may_run ext (one_call waiting) 0 shell_tool ≡ false
unfolding may_run
waiting_denied = refl

permission_gate-SameRuns_example :
    SameRuns (one_call waiting) (permission_gate ext (one_call waiting) 0 (some shell_tool))
permission_gate-SameRuns_example =
    permission_gate-SameRuns ext (one_call waiting) 0 shell_tool waiting_denied

abbrev nothing : Watch
nothing = record { id = codes "x"; total = 0; node = 1; other = none; ready = true }

-- Behind a call that is over.
abbrev two_calls : Toolbox
two_calls = record (one_call running) {
  batch = record {
    inv = (record waiting { completed = true }) ∷ running ∷ [];
    pending = 1;
    done = 1;
    status = done;
    detached = false;
  };
}

two_calls-Sound : Sound nothing 0 two_calls
unfolding Sound Counted bytes_eq
two_calls-Sound =
    ((refl, refl, refl, refl, refl, refl, refl), (λ p. (refl, tt)), (λ p. absurd (omega arith)))

two_calls-LastCall : LastCall two_calls 1 running
two_calls-LastCall = record {
  here = refl;
  others = refl;
  active = refl;
  runs = refl;
  idle = refl;
  cancel = refl;
}

tools_detach-freed_twice_example : (tools_detach ext two_calls).frees ≡ 2
tools_detach-freed_twice_example =
    tools_detach-freed_twice nothing ext two_calls 1 running (fail (some (codes "cancelled")))
      two_calls-Sound two_calls-LastCall refl

box-IsRegistry : IsRegistry box.tools box.store
box-IsRegistry = (read_tool, refl, refl, tt, refl, tt)

registry-IsMap_example :
    Added box shell_tool (tool_add box 2 shell_tool)
    × Removed box (codes "file_read") (tool_remove box (codes "file_read"))
registry-IsMap_example =
    registry-IsMap box 2 shell_tool (codes "file_read") box-IsRegistry (refl, tt)
