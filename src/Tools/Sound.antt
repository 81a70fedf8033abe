-- ===== src/Tools/Sound.antt =====
-- What holds of a batch between any two calls on it, and while one of them holds it: libclm/tools.c.
pub mod Steps
pub mod Answers
pub mod Gates
pub mod Hooks
pub mod Batches
pub mod Start
pub mod Sent
use clm.Agent.Waiting.{bit}
use clm.Base.{
  ℕ, zero, suc, ◌+◌, ◌≤◌, ◌≡◌, Bytes, Bool, true, false, not, ◌&&◌, ◌||◌, Option, none, some, List,
  ◌≢◌, names, bytes_eq, ◌==◌, arith,
}
use clm.History.{Message, History}
use clm.History.Wire.{is_tool}
use clm.Tools.{Tool, Invocation, Toolbox, Ext}
use clm.Tools.Counts.{count, at}
use clm.Tools.Finalize.{handed_over}

abbrev pub is_open : Invocation → Bool
is_open v = not v.completed

abbrev pub is_parked : Invocation → Bool
is_parked v = v.awaiting_perm || (v.gate || v.rl_timer)

abbrev is_parked_twice : Invocation → Bool
is_parked_twice v = (v.awaiting_perm && (v.gate || v.rl_timer)) || (v.gate && v.rl_timer)

-- Parked, though it has completed or runs, or is parked for another reason.
abbrev pub is_stray : Invocation → Bool
is_stray v = (is_parked v && (v.completed || v.timer)) || is_parked_twice v

-- Neither started nor parked, as a call is when it comes to its gates.
abbrev pub is_ready : Invocation → Bool
is_ready v = not v.completed && (not (is_parked v) && not v.timer)

abbrev pub is_owed : Bytes → Invocation → Bool
is_owed id v = not v.completed && bytes_eq v.id id

abbrev pub is_node : ℕ → Option ℕ → Bool
is_node k none = false
is_node k (some j) = k == j

abbrev pub is_pinning : ℕ → Invocation → Bool
is_pinning k v = not v.completed && is_node k v.def

abbrev pub is_answer : Bytes → Message → Bool
is_answer id m = is_tool m && names m.tool_call_id id

-- The results that the history has for an id.
abbrev pub given : Bytes → History → ℕ
given id h = count (is_answer id) h

abbrev pub inflight_of : Option Tool → ℕ
inflight_of none = 0
inflight_of (some t) = t.inflight

abbrev pub ended : ℕ → ℕ
ended zero = 1
ended (suc n) = 0

-- What is followed through the life of a batch: an id with the results that it is to have, a node of
-- the registry, and perhaps an invocation that the call at hand is not about.
pub record Watch : Type 0 where
  pub id : Bytes
  pub total : ℕ
  pub node : ℕ
  pub other : Option ℕ
  pub ready : Bool

abbrev pub Watched : Option ℕ → Bool → List Invocation → Type 0
Watched none b l = Unit
Watched (some j) b l = is_ready (at l j) ≡ b

abbrev pub Apart : ℕ → Option ℕ → Type 0
Apart i none = Unit
Apart i (some j) = i ≢ j

-- `pending` counts the open calls and the holds; the batch is handed over and freed when it is 0,
-- once; and a tool node counts the open calls that point to it.
unfoldable pub Counted : ℕ → ℕ → Toolbox → Type 0
Counted k h s =
    (s.batch.detached ≡ false)
    × (s.batch.pending ≡ count is_open s.batch.inv + h)
    × (count is_stray s.batch.inv ≡ 0)
    × (s.frees ≡ ended s.batch.pending)
    × (s.finals ≡ ended s.batch.pending)
    × (bit s.active + ended s.batch.pending ≡ 1)
    × (count (is_pinning k) s.batch.inv ≡ inflight_of (s.store k))

-- While the batch is open, each id has its results but for those that are owed.
abbrev Running : Watch → Toolbox → Type 0
Running w s =
    (given w.id s.agent.history + count (is_owed w.id) s.batch.inv ≡ w.total)
    × Watched w.other w.ready s.batch.inv

-- The agent went on from one whose history has all of them.
abbrev pub Over : Watch → Toolbox → Type 0
Over w s =
    (e : Ext) × (t : Toolbox) × (given w.id t.agent.history ≡ w.total) × (s.agent ≡ handed_over e t)

unfoldable pub Sound : Watch → ℕ → Toolbox → Type 0
Sound w h s =
    Counted w.node h s × (1 ≤ s.batch.pending → Running w s) × (s.batch.pending ≡ 0 → Over w s)

pub is_stray_idle : (v : Invocation) → is_parked v ≡ false → is_stray v ≡ false
is_stray_idle v u = ground arith
