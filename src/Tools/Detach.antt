-- ===== src/Tools/Detach.antt =====
-- A batch whose agent is gone: `clm_tools_detach` and the reports after it.
pub mod Leaves
pub mod Left
pub mod Twice
use clm.Agent.Waiting.{bit}
use clm.Base.{
  ℕ, zero, suc, ◌+◌, ◌-◌, ◌≤◌, ◌<◌, ◌≡◌, ◌≢◌, refl, sym, ap, ◌∙◌, subst, ◌⊎◌, inl, inr, Bool, true,
  false, not, ◌&&◌, ◌||◌, Option, none, some, List, [], ◌∷◌, length, ◌==◌, arith, if-cases,
  Bool-cases,
}
use clm.Tools.{
  Tool, Invocation, Toolbox, Ext, Report, Result, inv_at, update, with_pending, modify_at,
}
use clm.Tools.Counts.{
  at, count, open-lt, count-modify, count-modify_same, at-modify, at-modify_other, length-modify,
}
use clm.Tools.Teardown.{
  unlimited, unasked, unanswered, dropped, no_timer, cancel_if, detach_at, detach_loop,
  freed_if_done, severed, tools_detach,
}
use clm.Tools.Finalize.{completed, retire, inv_finalize, report, report_if}
use clm.Tools.Registry.{detach_node, detach_nodes}
use clm.Tools.Results.{reported}
use clm.Tools.Sound.{is_open, is_parked, is_stray, is_stray_idle, ended}

-- An open call that waits for something, or has a timer.
abbrev pub is_held : Invocation → Bool
is_held v = not v.completed && (is_parked v || v.timer)

-- The agent is gone: a call that is open runs, and nothing calls back for it but its tool; the batch is
-- freed once with the last of them, and nobody is told.
unfoldable pub Gone : Toolbox → Type 0
Gone s =
    (s.batch.detached ≡ true)
    × (s.batch.pending ≡ count is_open s.batch.inv)
    × (count is_stray s.batch.inv ≡ 0)
    × (s.frees ≡ ended s.batch.pending)
    × (s.finals ≡ 0)
    × (s.active ≡ false)
    × ((j : ℕ) → is_held (inv_at s j) ≡ false)

pub ended-some : (n : ℕ) → 1 ≤ n → ended n ≡ 0
ended-some zero p = absurd (omega arith)
ended-some (suc n) p = refl

pub nat-cases : (i j : ℕ) → (i ≡ j) ⊎ (i ≢ j)
nat-cases i j = elim (Bool-cases (i == j)) [
  | inl q ↦ inl (ground arith)
  | inr q ↦ inr (λ e. ground arith)
]

pub below : (i j : ℕ) → j < i + 1 → i ≢ j → j < i
below i j p n = elim (nat-cases i j) [ inl e ↦ absurd (n e) | inr e ↦ ground arith ]

-- A property of each invocation, when one changes.
pub each-modify :
    (p : Invocation → Bool) (f : Invocation → Invocation) (l : List Invocation) (i j : ℕ)
    → i < length l
    → p (f (at l i)) ≡ false
    → (i ≢ j → p (at l j) ≡ false)
    → p (at (modify_at i f l) j) ≡ false
each-modify p f l i j lt here there = elim (nat-cases i j) [
  | inl same ↦
      subst (λ k. p (at (modify_at i f l) k) ≡ false) same (ap p (at-modify f l i lt) ∙ here)
  | inr other ↦ ap p (at-modify_other f l i j other) ∙ there other
]

free-held : (v : Invocation) → v.completed ≡ false → is_held v ≡ false → is_parked v ≡ false
free-held v o h = ground arith

retire-Gone :
    (s : Toolbox) (i : ℕ)
    → (inv_at s i).completed ≡ false
    → Gone s
    → Gone (retire (update s i completed))
unfolding Gone retire
retire-Gone s i o (d, c, k, f, z, a, free) =
    let l = s.batch.inv in
    let x = inv_at s i in
    let lt = open-lt l i o in
    let opens = count-modify is_open completed l i lt in
    let was : bit (is_open x) ≡ 1 = rw o refl in
    let idle = free-held x o (free i) in
    let strays =
      count-modify_same is_stray completed l i lt
        (is_stray_idle (completed x) idle ∙ sym (is_stray_idle x idle)) in
    let before = ended-some s.batch.pending (omega (arith, c, opens, was)) in
    let held : (j : ℕ) → is_held (at (modify_at i completed l) j) ≡ false =
      λ j. each-modify is_held completed l i j lt refl (λ n. free j) in
    let left = s.batch.pending - 1 in
    if-cases Gone (left == 0)
      (λ e.
        let none_left : left ≡ 0 = ground arith in
        (
          d,
          omega (arith, c, opens, was),
          strays ∙ k,
          omega (arith, f, before, ap ended none_left),
          z,
          a,
          held,
        ))
      (λ e.
        let some_left : 1 ≤ left = ground arith in
        (
          d,
          omega (arith, c, opens, was),
          strays ∙ k,
          omega (arith, f, before, ended-some left some_left),
          z,
          a,
          held,
        ))

not_attached : (s : Toolbox) → Gone s → s.batch.detached ≡ false → ⊥
unfolding Gone
not_attached s g d = cc (g.0, d)

-- A tool that reports to a batch whose agent is gone ends its call, and no more.
pub report-Gone : (e : Ext) (s : Toolbox) (i : ℕ) (r : Report) → Gone s → Gone (report e s i r)
unfolding report inv_finalize
report-Gone e s i r g =
    if-cases Gone (inv_at s i).completed (λ c. g)
      (λ c.
        if-cases Gone s.batch.detached (λ d. retire-Gone s i c g)
          (λ d. absurd (not_attached s g d)))
