-- ===== src/Tools.antt =====
-- Batches of tool calls: libclm/tools.c with include/clm/tools.h and include/clm/clm.h.
-- A batch is the calls of one assistant message. What the embedder answers while a call of it runs
-- (a tool that completes inside of `invoke`, a hook or a permission prompt that is answered inside of
-- its callback, a cancel that completes the call) is a function of the invocation, in `Ext`; an
-- answer that comes later is a call of its own. A tool completes no invocation but the one it was given
-- while it is invoked. A pointer to an invocation is its place in the batch, a pointer to a tool node
-- its address in `store`; `tools` has the addresses of the TAILQ in order. Allocation succeeds.
pub mod Registry
pub mod Results
pub mod Finalize
pub mod Gate
pub mod Dispatch
pub mod Teardown
pub mod Counts
pub mod Sound
pub mod Detach
pub mod Life
pub mod Guard
pub mod Limits
pub mod Tests
use clm.Base.{
  ℕ, zero, suc, Bytes, Bool, true, false, not, ◌&&◌, ◌||◌, Option, none, some, List, [], ◌∷◌,
  get_or, if◌then◌else◌, leb, ltb, ◌==◌,
}
use clm.Agent.{Agent, Status}
use clm.Agent.Env.{Env}
use clm.History.{Attachment}
use clm.Output.{Marker}
use clm.Ratelimit.{Ratelimit}

pub data Outcome : Type 0 where
  ok failed timedout : Outcome

pub data Verdict : Type 0 where
  pass deny ask : Verdict

pub data Decision : Type 0 where
  allow_once allow_always deny_once deny_always : Decision

-- `struct clm_tool`. The flags are fields; `detach` tells whether the node still has its callback.
pub record Tool : Type 0 where
  pub name : Bytes
  pub detach : Bool
  pub output_cap : ℕ
  pub timeout_ms : ℕ
  pub no_prompt : Bool
  pub output_cap_overridable : Bool
  pub timeout_overridable : Bool
  pub remembered : Bool
  pub remember_allow : Bool
  pub inflight : ℕ
  pub removed : Bool

-- `struct clm_tool_invocation`. A timer and a gate are there or not.
pub record Invocation : Type 0 where
  pub def : Option ℕ
  pub id : Bytes
  pub name : Bytes
  pub args : Bytes
  pub output_cap : ℕ
  pub timeout_ms : ℕ
  pub timer : Bool
  pub timed_out : Bool
  pub completed : Bool
  pub cancel : Bool
  pub awaiting_perm : Bool
  pub gate : Bool
  pub gate_next : ℕ
  pub force_ask : Bool
  pub ask_reason : Option Bytes
  pub rl_timer : Bool

-- `struct clm_tool_batch`; `n` is the length of `inv`.
pub record Batch : Type 0 where
  pub inv : List Invocation
  pub pending : ℕ
  pub done : ℕ
  pub status : Status
  pub detached : Bool

-- What the embedder is told, and the calls of `invoke`.
pub data Told : Type 0 where
  tool_begin : Bytes → Bytes → Told
  tool_result : Bytes → Bytes → Outcome → Told
  tool_batch : ℕ → ℕ → Told
  notice : Bytes → Told
  invoked : ℕ → Told
  detached : Bytes → Told

-- An agent, what of it its tools use, and one batch of it. `active` tells whether the batch is the
-- agent's `active_batch`; `finals` and `frees` count the calls of `batch_finalize` and of
-- `batch_really_free` for the batch.
pub record Toolbox : Type 0 where
  pub agent : Agent
  pub tools : List ℕ
  pub store : ℕ → Option Tool
  pub tool_rl : Option Ratelimit
  pub volatile_tools : List Bytes
  pub no_vision : Bool
  pub batch : Batch
  pub active : Bool
  pub finals : ℕ
  pub frees : ℕ
  pub told : List Told

-- A call by which a tool reports: clm_tool_complete_buf, clm_tool_complete_image,
-- clm_tool_complete_image_base64 and clm_tool_fail. `clm_tool_complete` is the first, for a string.
pub data Report : Type 0 where
  complete_buf : Bytes → Report
  complete_image : Option Bytes → Option Bytes → Option Bytes → Report
  complete_image_base64 : Option Bytes → Option Bytes → Report
  fail : Option Bytes → Report

-- What a report comes to.
pub record Result : Type 0 where
  pub content : Bytes
  pub outcome : Outcome
  pub att : Option Attachment

-- What `invoke` does before it returns.
pub record Invoked : Type 0 where
  pub cancels : Bool
  pub reports : Option Report

pub record GateAnswer : Type 0 where
  pub verdict : Verdict
  pub reason : Option Bytes
  pub args : Option Bytes

-- The embedder, the host and the C library. `arg_number` is the number that the JSON arguments have
-- under a key, cut to an integer, where there is one; one that is not positive is 0.
-- `overread` is the output that a build makes where `fit_tail` reads outside of it.
pub record Ext : Type 0 where
  pub env : Env
  pub now_usec : ℕ
  pub has_timers : Bool
  pub arms : Invocation → Bool
  pub arms_rl : Invocation → Bool
  pub invoke : Invocation → Invoked
  pub hooks : List (Invocation → Option GateAnswer)
  pub permission : Option (Invocation → Option Decision)
  pub cancels : Invocation → Option Report
  pub fnmatch : Bytes → Bytes → Bool
  pub arg_number : Bytes → Bytes → Option ℕ
  pub decimal : ℕ → Bytes
  pub marker : Marker → Bytes
  pub overread : Bytes → Bytes

-- What a place outside of the batch reads as; no code goes there.
abbrev pub no_inv : Invocation
no_inv = record {
  def = none;
  id = [];
  name = [];
  args = [];
  output_cap = 0;
  timeout_ms = 0;
  timer = false;
  timed_out = false;
  completed = true;
  cancel = false;
  awaiting_perm = false;
  gate = false;
  gate_next = 0;
  force_ask = false;
  ask_reason = none;
  rl_timer = false;
}

abbrev pub inv_at : Toolbox → ℕ → Invocation
inv_at s i = get_or s.batch.inv i no_inv

abbrev pub modify_at {ℓ} : {A : Type ℓ} → ℕ → (A → A) → List A → List A
modify_at i f [] = []
modify_at zero f (x ∷ xs) = f x ∷ xs
modify_at (suc i) f (x ∷ xs) = x ∷ modify_at i f xs

abbrev pub with_inv : Toolbox → List Invocation → Toolbox
with_inv s l = record s { batch = record (s.batch) { inv = l } }

-- An assignment to fields of the invocation `i`.
abbrev pub update : Toolbox → ℕ → (Invocation → Invocation) → Toolbox
update s i f = with_inv s (modify_at i f s.batch.inv)

abbrev pub with_pending : Toolbox → ℕ → Toolbox
with_pending s n = record s { batch = record (s.batch) { pending = n } }

abbrev pub tell : Toolbox → Told → Toolbox
tell s t = record s { told = t ∷ s.told }
