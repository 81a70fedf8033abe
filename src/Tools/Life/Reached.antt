-- ===== src/Tools/Life/Reached.antt =====
-- What holds of a batch whenever it is left to itself.
use clm.Agent.{Status, done}
use clm.Base.{
  true-false, ℕ, ◌+◌, ◌≤◌, ◌≡◌, refl, sym, ap, ◌∙◌, subst, ◌⊎◌, inl, inr, true, false, not, Option,
  none, some, List, length, arith, if-cases, Bool-cases,
}
use clm.Tools.{Invocation, Toolbox, Ext, Decision, inv_at}
use clm.Tools.Counts.{count, count-none}
use clm.Tools.Detach.{Gone, report-Gone}
use clm.Tools.Detach.Left.{tools_detach-Gone}
use clm.Tools.Dispatch.{Call, dispatch}
use clm.Tools.Teardown.{tools_detach}
use clm.Tools.Gate.{permission_respond}
use clm.Tools.Life.{
  Step, reports, times_out, rl_fires, hook_answers, user_answers, cancels, detaches, adds, removes,
  Reach, here, next,
}
use clm.Tools.Registry.{tool_add, tool_remove, find_tool}
use clm.Tools.Sound.{is_stray, given, inflight_of, Watch, Counted, Sound}
use clm.Tools.Sound.Answers.{report-Sound}
use clm.Tools.Sound.Batches.{tools_cancel-Sound}
use clm.Tools.Sound.Gates.{permission_respond-Sound}
use clm.Tools.Sound.Hooks.{gate_respond-Sound, on_rl_timer-Sound, on_timeout-Sound}
use clm.Tools.Sound.Sent.{watching_none, dispatch-Sound}
use clm.Tools.Sound.Start.{has_id, can_copy}
use clm.Tools.Life.Detached.{
  rl-ready, gate-ready, user-ready, stray-completed, stray-timer, parked-rl, parked-gate,
  parked-user, Gone-free, on_timeout-Gone, user-Gone, cancel-Gone, detach-Gone, add-Gone,
  remove-Gone,
}
use clm.Tools.Life.Registry.{nodes-Sound, add-Sound, remove-Sound}

-- A batch of an agent that is there, or of one that is gone.
unfoldable pub Held : Watch → Toolbox → Type 0
Held w s = Sound (watching_none w) 0 s ⊎ Gone s

stray-none : (w : Watch) (s : Toolbox) (i : ℕ) → Sound w 0 s → is_stray (inv_at s i) ≡ false
unfolding Sound Counted
stray-none w s i (c, r, v) = count-none is_stray s.batch.inv i c.2 refl

unasked_same :
    (e : Ext) (s : Toolbox) (i : ℕ) (d : Decision)
    → (inv_at s i).awaiting_perm ≡ false
    → (permission_respond e s i d).0 ≡ s
unfolding permission_respond
unasked_same e s i d u =
    if-cases (λ (x : Toolbox × Status). x.0 ≡ s) (not (inv_at s i).awaiting_perm) (λ a. refl)
      (λ a. absurd (true-false (ground arith)))

module _ (w : Watch) where
  user-Sound :
      (e : Ext) (s : Toolbox) (i : ℕ) (d : Decision)
      → Sound (watching_none w) 0 s
      → Sound (watching_none w) 0 (permission_respond e s i d).0
  user-Sound e s i d q = elim (Bool-cases (inv_at s i).awaiting_perm) [
    | inl u ↦
        let v = inv_at s i in
        let k = stray-none (watching_none w) s i q in
        permission_respond-Sound (watching_none w) e 0 i s d tt
          (stray-completed v k (parked-user v u)) (user-ready v k u) q
    | inr u ↦ subst (Sound (watching_none w) 0) (sym (unasked_same e s i d u)) q
  ]

  detach-Held :
      (e : Ext) (s : Toolbox)
      → ((v : Invocation) → e.cancels v ≡ none)
      → Sound (watching_none w) 0 s
      → Held w (tools_detach e s)
  unfolding Held tools_detach
  detach-Held e s quiet q = elim (Bool-cases s.active) [
    | inl a ↦ inr (tools_detach-Gone (watching_none w) e s quiet q a)
    | inr a ↦ inl (
        if-cases (Sound (watching_none w) 0) (not s.active)
          (λ n. nodes-Sound (watching_none w) s s.tools q)
          (λ n. absurd (true-false (ground arith))))
  ]

  Step-Held : {s t : Toolbox} → Step s t → Held w s → Held w t
  unfolding Held tool_add tool_remove
  Step-Held (reports e s i r u) (inl q) = inl (report-Sound (watching_none w) e 0 i s r tt u q)
  Step-Held (reports e s i r u) (inr g) = inr (report-Gone e s i r g)
  Step-Held (times_out e s i u) (inl q) =
      let k = stray-none (watching_none w) s i q in
      inl (on_timeout-Sound (watching_none w) e 0 i s tt (stray-timer (inv_at s i) k u) q)
  Step-Held (times_out e s i u) (inr g) = inr (on_timeout-Gone e s g i u)
  Step-Held (rl_fires e s i u) (inl q) =
      let v = inv_at s i in
      let k = stray-none (watching_none w) s i q in
      inl (
        on_rl_timer-Sound (watching_none w) e 0 i s tt (stray-completed v k (parked-rl v u))
          (rl-ready v k u) q)
  Step-Held (rl_fires e s i u) (inr g) =
      absurd (true-false (sym (parked-rl (inv_at s i) u) ∙ Gone-free s i g))
  Step-Held (hook_answers e s i a u) (inl q) =
      let v = inv_at s i in
      let k = stray-none (watching_none w) s i q in
      inl (
        gate_respond-Sound (watching_none w) e 0 i s a tt (stray-completed v k (parked-gate v u))
          (gate-ready v k u) q)
  Step-Held (hook_answers e s i a u) (inr g) =
      absurd (true-false (sym (parked-gate (inv_at s i) u) ∙ Gone-free s i g))
  Step-Held (user_answers e s i d) (inl q) = inl (user-Sound e s i d q)
  Step-Held (user_answers e s i d) (inr g) = inr (user-Gone e s g i d)
  Step-Held (cancels e s) (inl q) = inl (tools_cancel-Sound (watching_none w) (λ i. tt) e 0 s q)
  Step-Held (cancels e s) (inr g) = inr (cancel-Gone e s g)
  Step-Held (detaches e s quiet) (inl q) = detach-Held e s quiet q
  Step-Held (detaches e s quiet) (inr g) = inr (detach-Gone e s g)
  Step-Held (adds s k def f) (inl q) =
      inl (add-Sound (watching_none w) s k def (find_tool s def.name) f q)
  Step-Held (adds s k def f) (inr g) = inr (add-Gone s k def (find_tool s def.name) g)
  Step-Held (removes s name) (inl q) = inl (remove-Sound (watching_none w) s (find_tool s name) q)
  Step-Held (removes s name) (inr g) = inr (remove-Gone s (find_tool s name) g)

  Reach-Held : {s t : Toolbox} → Reach s t → Held w s → Held w t
  Reach-Held here h = h
  Reach-Held (next r step) h = Step-Held step (Reach-Held r h)

-- Nothing ran before the batch.
abbrev pub Idle : Toolbox → Type 0
Idle s = (k : ℕ) → inflight_of (s.store k) ≡ 0

abbrev or_else : Toolbox → Option (Toolbox × Status) → Toolbox
or_else s none = s
or_else s (some x) = x.0

-- From the start of a batch on, whatever is done to it.
pub dispatch-Held :
    (w : Watch) (e : Ext) (s t u : Toolbox) (calls : List Call)
    → can_copy calls ≡ true
    → 1 ≤ length calls
    → Idle s
    → given w.id s.agent.history + count (has_id w.id) calls ≡ w.total
    → dispatch e s calls ≡ some (t, done)
    → Reach t u
    → Held w u
unfolding Held
dispatch-Held w e s t u calls c p z total eq r =
    let (t', eq', q) = dispatch-Sound w e s calls c p (z w.node) total in
    let same : t' ≡ t = ap (or_else s) (sym eq' ∙ eq) in
    Reach-Held w r (inl (subst (Sound (watching_none w) 0) same q))
