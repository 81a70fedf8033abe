-- ===== src/Tools/Life.antt =====
-- The life of a batch as a transition system: what the embedder, the tools, the hooks, the host's timers
-- and the owner of the agent do to it. A callback comes for an invocation that waits for it. A tool
-- whose cancel reports inside of the cancel is left out of the detach here.
pub mod Registry
pub mod Detached
pub mod Reached
pub mod Batch
use clm.Base.{ℕ, ◌≡◌, Bytes, Bool, true, false, Option, none, some}
use clm.Tools.{Tool, Invocation, Toolbox, Ext, Report, GateAnswer, Decision, inv_at}
use clm.Tools.Teardown.{tools_cancel, tools_detach}
use clm.Tools.Finalize.{report, on_timeout}
use clm.Tools.Gate.{permission_respond, gate_respond, on_rl_timer}
use clm.Tools.Registry.{tool_add, tool_remove}
use clm.Tools.Sound.{is_parked}

pub data Step : Toolbox → Toolbox → Type 0 where
  reports :
      (e : Ext) (s : Toolbox) (i : ℕ) (r : Report)
      → is_parked (inv_at s i) ≡ false
      → Step s (report e s i r)
  times_out :
      (e : Ext) (s : Toolbox) (i : ℕ) → (inv_at s i).timer ≡ true → Step s (on_timeout e s i)
  rl_fires :
      (e : Ext) (s : Toolbox) (i : ℕ) → (inv_at s i).rl_timer ≡ true → Step s (on_rl_timer e s i)
  hook_answers :
      (e : Ext) (s : Toolbox) (i : ℕ) (a : GateAnswer)
      → (inv_at s i).gate ≡ true
      → Step s (gate_respond e s i a)
  user_answers :
      (e : Ext) (s : Toolbox) (i : ℕ) (d : Decision) → Step s (permission_respond e s i d).0
  cancels : (e : Ext) (s : Toolbox) → Step s (tools_cancel e s)
  detaches :
      (e : Ext) (s : Toolbox) → ((v : Invocation) → e.cancels v ≡ none) → Step s (tools_detach e s)
  adds : (s : Toolbox) (k : ℕ) (def : Tool) → s.store k ≡ none → Step s (tool_add s k def).0
  removes : (s : Toolbox) (name : Bytes) → Step s (tool_remove s name).0

pub data Reach (s : Toolbox) : Toolbox → Type 0 where
  here : Reach s s
  next : {t u : Toolbox} → Reach s t → Step t u → Reach s u
