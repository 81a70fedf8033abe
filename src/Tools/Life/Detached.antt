-- ===== src/Tools/Life/Detached.antt =====
-- The steps on a batch whose agent is gone.
use clm.Agent.{Status}
use clm.Base.{
  true-false, ℕ, ◌≡◌, refl, sym, ◌∙◌, true, false, not, Option, none, some, List, [], ◌∷◌, arith,
  if-cases,
}
use clm.Tools.{Tool, Invocation, Toolbox, Ext, Decision, inv_at}
use clm.Tools.Counts.{count-none}
use clm.Tools.Detach.{Gone, is_held}
use clm.Tools.Teardown.{tools_cancel, tools_detach}
use clm.Tools.Finalize.{on_timeout}
use clm.Tools.Gate.{permission_respond, no_rl_timer, unparked, ungated}
use clm.Tools.Registry.{add_at, remove_at, detach_node, detach_nodes}
use clm.Tools.Sound.{is_parked, is_stray, is_ready}

pub rl-ready :
    (v : Invocation) → is_stray v ≡ false → v.rl_timer ≡ true → is_ready (no_rl_timer v) ≡ true
rl-ready v k r = ground arith

pub gate-ready :
    (v : Invocation) → is_stray v ≡ false → v.gate ≡ true → is_ready (ungated none v) ≡ true
gate-ready v k r = ground arith

pub user-ready :
    (v : Invocation) → is_stray v ≡ false → v.awaiting_perm ≡ true → is_ready (unparked v) ≡ true
user-ready v k r = ground arith

pub stray-completed :
    (v : Invocation) → is_stray v ≡ false → is_parked v ≡ true → v.completed ≡ false
stray-completed v k p = ground arith

pub stray-timer : (v : Invocation) → is_stray v ≡ false → v.timer ≡ true → is_parked v ≡ false
stray-timer v k p = ground arith

pub parked-rl : (v : Invocation) → v.rl_timer ≡ true → is_parked v ≡ true
parked-rl v r = ground arith

pub parked-gate : (v : Invocation) → v.gate ≡ true → is_parked v ≡ true
parked-gate v r = ground arith

pub parked-user : (v : Invocation) → v.awaiting_perm ≡ true → is_parked v ≡ true
parked-user v r = ground arith

free_of : (v : Invocation) → is_stray v ≡ false → is_held v ≡ false → is_parked v ≡ false
free_of v k h = ground arith

pub Gone-free : (s : Toolbox) (i : ℕ) → Gone s → is_parked (inv_at s i) ≡ false
unfolding Gone
Gone-free s i (d, c, k, f, z, a, free) =
    let stray = count-none is_stray s.batch.inv i k refl in
    let held = free i in free_of (inv_at s i) stray held

timed : (v : Invocation) → is_held v ≡ false → v.completed ≡ false → v.timer ≡ true → ⊥
timed v h c t = ground arith

active_no : (s : Toolbox) → s.active ≡ false → not s.active ≡ false → ⊥
active_no s a n = ground arith

node-Gone : (s : Toolbox) (k : ℕ) (o : Option Tool) → Gone s → Gone (detach_node s k o)
unfolding detach_node Gone
node-Gone s k none g = g
node-Gone s k (some t) g = if-cases Gone t.detach (λ d. g) (λ d. g)

nodes-Gone : (s : Toolbox) (l : List ℕ) → Gone s → Gone (detach_nodes s l)
unfolding detach_nodes
nodes-Gone s [] g = g
nodes-Gone s (k ∷ l) g = nodes-Gone (detach_node s k (s.store k)) l (node-Gone s k (s.store k) g)

module _ (e : Ext) (s : Toolbox) (g : Gone s) where
  pub on_timeout-Gone : (i : ℕ) → (inv_at s i).timer ≡ true → Gone (on_timeout e s i)
  unfolding on_timeout Gone
  on_timeout-Gone i t =
      if-cases Gone (inv_at s i).completed (λ c. g) (λ c. absurd (timed (inv_at s i) (g.6 i) c t))

  pub user-Gone : (i : ℕ) (d : Decision) → Gone (permission_respond e s i d).0
  unfolding permission_respond
  user-Gone i d =
      if-cases (λ (x : Toolbox × Status). Gone x.0) (not (inv_at s i).awaiting_perm) (λ a. g)
        (λ a. absurd (true-false (sym (parked-user (inv_at s i) (ground arith)) ∙ Gone-free s i g)))

  pub cancel-Gone : Gone (tools_cancel e s)
  unfolding tools_cancel Gone
  cancel-Gone = if-cases Gone (not s.active) (λ a. g) (λ a. absurd (active_no s g.5 a))

  pub detach-Gone : Gone (tools_detach e s)
  unfolding tools_detach Gone
  detach-Gone =
      if-cases Gone (not s.active) (λ a. nodes-Gone s s.tools g) (λ a. absurd (active_no s g.5 a))

pub add-Gone :
    (s : Toolbox) (k : ℕ) (def : Tool) (o : Option ℕ) → Gone s → Gone (add_at s k def o).0
unfolding add_at Gone
add-Gone s k def (some old) g = g
add-Gone s k def none g = g

pub remove-Gone : (s : Toolbox) (o : Option ℕ) → Gone s → Gone (remove_at s o).0
unfolding remove_at Gone
remove-Gone s none g = g
remove-Gone s (some k) g = node-Gone s k (s.store k) g
