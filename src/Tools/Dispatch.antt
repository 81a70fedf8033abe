-- ===== src/Tools/Dispatch.antt =====
-- How a batch starts: clm_tools_dispatch.
use clm.Base.{
  ℕ, zero, suc, ◌+◌, Bytes, true, false, not, ◌||◌, Option, none, some, List, [], ◌∷◌, ◌++◌, codes,
  length, if◌then◌else◌, ◌==◌,
}
use clm.Agent.{Status, done, einval, on_message, emit}
use clm.Agent.{failed as failed_status}
use clm.History.{Message, create, assistant, add_tool_call}
use clm.Ratelimit.{Ratelimit, allow, delay, consume}
use clm.Tools.{Invocation, Toolbox, Ext, tool_batch, no_inv, inv_at, with_inv, update, tell}
use clm.Tools.Finalize.{release}
use clm.Tools.Gate.{dispatch_one, def_of}
use clm.Tools.Registry.{find_tool, pin}
use clm.Tools.Results.{inv_compute_limits}

-- A member of a call that should be a string; of one that is not, cJSON_GetStringValue gives NULL.
pub data Field : Type 0 where
  absent not_string : Field
  string : Bytes → Field

-- What `tool_calls` has for a call: `arguments` is a string, or JSON that is printed.
pub record Call : Type 0 where
  pub id : Field
  pub name : Field
  pub arguments : Option Bytes

-- `strdup` of a member: nothing where it is given NULL, which is undefined.
abbrev pub copied : Field → Option Bytes
copied absent = some []
copied not_string = none
copied (string s) = some s

abbrev pub args_str : Option Bytes → Bytes
args_str none = codes "{}"
args_str (some s) = s

-- A call as it is put into the batch: the invocation, and its pin on the tool.
abbrev pub new_inv : Ext → Toolbox → Bytes → Bytes → Bytes → Invocation
new_inv e s id name args =
    inv_compute_limits e (def_of s (find_tool s name)) (record no_inv {
      def = find_tool s name;
      id = id;
      name = name;
      args = args;
      completed = false;
    })

abbrev pub pinned : Toolbox → Bytes → Toolbox
pinned s name = record s { store = pin s.store (find_tool s name) }

abbrev pub joined : Toolbox → Invocation → Toolbox
joined s v = with_inv s (s.batch.inv ++ v ∷ [])

abbrev build_one : Ext → Toolbox → Option Bytes → Option Bytes → Bytes → Option Toolbox
build_one e s none name args = none
build_one e s (some id) none args = none
build_one e s (some id) (some name) args = some (joined (pinned s name) (new_inv e s id name args))

abbrev and_then : Option Toolbox → (Toolbox → Option Toolbox) → Option Toolbox
and_then none next = none
and_then (some s) next = next s

-- The loop that builds the invocations.
unfoldable pub build_all : Ext → List Call → Toolbox → Option Toolbox
build_all e [] s = some s
build_all e (c ∷ l) s =
    and_then (build_one e s (copied c.id) (copied c.name) (args_str c.arguments)) (build_all e l)

abbrev pub or_same : Message → Option Message → Message
or_same m none = m
or_same m (some m') = m'

-- The assistant message with the calls of the invocations.
unfoldable pub mirrored : Message → List Invocation → Message
mirrored m [] = m
mirrored m (v ∷ l) =
    mirrored (or_same m (add_tool_call m (some v.id) (some v.name) (some v.args))) l

-- `batch` as `clm_tools_dispatch` allocates it, which is then the active one.
abbrev pub begun : Toolbox → ℕ → Toolbox
begun s n =
    tell
      (record s {
        batch = record { inv = []; pending = n + 1; done = 0; status = done; detached = false };
        active = true;
        agent = record (s.agent) { active_batch = true };
        finals = 0;
        frees = 0;
      })
      (tool_batch 0 n)

abbrev pub emitted : Toolbox → Toolbox
emitted s = record s {
  agent =
      emit
        (record (s.agent) {
          history = s.agent.history ++ mirrored (create assistant) s.batch.inv ∷ [];
        })
        on_message;
}

abbrev pub with_rl : Toolbox → Option Ratelimit → Toolbox
with_rl s rl = record s { tool_rl = rl }

abbrev pub limited : Invocation → Invocation
limited v = record v { rl_timer = true }

-- A call that the rate limit holds back; without a timer it goes on.
unfoldable pub hold_back : Ext → Toolbox → ℕ → Toolbox
unfolding dispatch_one
hold_back e s i =
    let asked = with_rl s (delay s.tool_rl e.now_usec 1).0 in
    if e.arms_rl (inv_at s i)
    then update asked i limited
    else dispatch_one e (with_rl asked (consume asked.tool_rl e.now_usec 1)) i

-- The body of the loop that dispatches.
unfoldable pub dispatch_at : Ext → Toolbox → ℕ → Toolbox
unfolding dispatch_one hold_back
dispatch_at e s i =
    let asked = with_rl s (allow s.tool_rl e.now_usec 1).0 in
    if (allow s.tool_rl e.now_usec 1).1 || not e.has_timers
    then dispatch_one e asked i
    else hold_back e asked i

unfoldable pub dispatch_loop : Ext → ℕ → ℕ → Toolbox → Toolbox
unfolding dispatch_at
dispatch_loop e zero i s = s
dispatch_loop e (suc n) i s = dispatch_loop e n (i + 1) (dispatch_at e s i)

unfoldable pub dispatch_built : Ext → ℕ → Option Toolbox → Option (Toolbox × Status)
unfolding dispatch_loop release
dispatch_built e n none = none
dispatch_built e n (some s) = some (release e (dispatch_loop e n 0 (emitted s)), done)

-- `clm_tools_dispatch`; nothing where a NULL is copied.
unfoldable pub dispatch : Ext → Toolbox → List Call → Option (Toolbox × Status)
unfolding build_all dispatch_built
dispatch e s calls =
    if length calls == 0
    then some (s, failed_status einval)
    else dispatch_built e (length calls) (build_all e calls (begun s (length calls)))
