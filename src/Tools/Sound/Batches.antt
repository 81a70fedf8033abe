-- ===== src/Tools/Sound/Batches.antt =====
-- `clm_tools_cancel` and the start of a batch keep it sound.
use clm.Agent.Waiting.{bit}
use clm.Base.{ℕ, zero, suc, ◌+◌, ◌≤◌, ◌≡◌, refl, ap, ◌∙◌, true, false, not, length, arith, if-cases}
use clm.Tools.{Invocation, Toolbox, Ext, inv_at, update, with_pending}
use clm.Tools.Counts.{count-at, open-lt}
use clm.Tools.Teardown.{cancelled_result, no_gate, cancel_at, cancel_loop, tools_cancel}
use clm.Tools.Finalize.{inv_finalize}
use clm.Tools.Gate.{no_rl_timer}
use clm.Tools.Sound.{is_parked, is_stray, is_stray_idle, ended, Watch, Apart, Counted, Sound}
use clm.Tools.Sound.Answers.{inv_finalize-Sound, report_if-Sound}
use clm.Tools.Sound.Gates.{at_update}
use clm.Tools.Sound.Steps.{Same, update-Sound, hold-Sound, release-Sound}

stray-at :
    (w : Watch) (h i : ℕ) (s : Toolbox)
    → Sound w h s
    → (inv_at s i).completed ≡ false
    → is_stray (inv_at s i) ≡ false
unfolding Sound Counted
stray-at w h i s (c, r, v) o =
    let one = count-at is_stray s.batch.inv i (open-lt s.batch.inv i o) in
    let none : bit (is_stray (inv_at s i)) ≡ 0 = omega (arith, one, c.2) in ground arith

-- A call that is parked is so for one reason.
is_parked-no_rl :
    (v : Invocation) → is_stray v ≡ false → v.rl_timer ≡ true → is_parked (no_rl_timer v) ≡ false
is_parked-no_rl v k r = ground arith

is_parked-no_gate :
    (v : Invocation) → is_stray v ≡ false → v.gate ≡ true → is_parked (no_gate v) ≡ false
is_parked-no_gate v k r = ground arith

ended-pos : (n : ℕ) → ended n ≡ 0 → 1 ≤ n
ended-pos zero h = absurd (omega arith)
ended-pos (suc n) h = omega arith

pub active-pending :
    (w : Watch) (h : ℕ) (s : Toolbox) → Sound w h s → s.active ≡ true → 1 ≤ s.batch.pending
unfolding Sound Counted
active-pending w h s (c, r, v) a =
    let one : bit s.active ≡ 1 = ap bit a in ended-pos s.batch.pending (omega (arith, c.5, one))

module _ (w : Watch) (n : (i : ℕ) → Apart i w.other) where
  -- A parked call is taken out of its place and ends.
  ends-Sound :
      (e : Ext) (h i : ℕ) (s : Toolbox) (f : Invocation → Invocation)
      → (inv_at s i).completed ≡ false
      → Same (inv_at s i) (f (inv_at s i))
      → is_parked (f (inv_at s i)) ≡ false
      → Sound w h s
      → Sound w h (inv_finalize e (update s i f) i cancelled_result)
  ends-Sound e h i s f o m u q =
      let at = at_update s i f o in
      inv_finalize-Sound w e h i (update s i f) cancelled_result (n i)
        (ap (λ x. x.completed) at ∙ (m.completed ∙ o), ap is_parked at ∙ u)
        (update-Sound w h i s f (n i) o m (is_stray_idle (f (inv_at s i)) u) q)

  is_parked-none :
      (v : Invocation)
      → v.rl_timer ≡ false
      → v.awaiting_perm ≡ false
      → v.gate ≡ false
      → is_parked v ≡ false
  is_parked-none v a b c = rw (b, c, a) refl

  cancel_at-Sound : (e : Ext) (h i : ℕ) (s : Toolbox) → Sound w h s → Sound w h (cancel_at e s i)
  unfolding cancel_at
  cancel_at-Sound e h i s q =
      let v = inv_at s i in
      let same : Same v v = record { completed = refl; def = refl; id = refl } in
      if-cases (Sound w h) v.completed (λ c. q)
        (λ c.
          let k = stray-at w h i s q c in
          if-cases (Sound w h) v.rl_timer
            (λ t.
              ends-Sound e h i s no_rl_timer c (record { completed = refl; def = refl; id = refl })
                (is_parked-no_rl v k t) q)
            (λ t.
              if-cases (Sound w h) v.awaiting_perm (λ p. q)
                (λ p.
                  if-cases (Sound w h) v.gate
                    (λ g.
                      ends-Sound e h i s no_gate c
                        (record { completed = refl; def = refl; id = refl })
                        (is_parked-no_gate v k g) q)
                    (λ g.
                      if-cases (Sound w h) v.cancel
                        (λ x.
                          report_if-Sound w e h i s (e.cancels v) (n i) (is_parked-none v t p g) q)
                        (λ x. q)))))

  cancel_loop-Sound :
      (e : Ext) (h k i : ℕ) (s : Toolbox) → Sound w h s → Sound w h (cancel_loop e k i s)
  unfolding cancel_loop
  cancel_loop-Sound e h zero i s q = q
  cancel_loop-Sound e h (suc k) i s q =
      cancel_loop-Sound e h k (i + 1) (cancel_at e s i) (cancel_at-Sound e h i s q)

  pub tools_cancel-Sound :
      (e : Ext) (h : ℕ) (s : Toolbox) → Sound w h s → Sound w h (tools_cancel e s)
  unfolding tools_cancel
  tools_cancel-Sound e h s q =
      if-cases (Sound w h) (not s.active) (λ a. q)
        (λ a.
          let held = with_pending s (s.batch.pending + 1) in
          let more = active-pending w h s q (ground arith) in
          release-Sound w e h (cancel_loop e (length s.batch.inv) 0 held)
            (cancel_loop-Sound e (suc h) (length s.batch.inv) 0 held (hold-Sound w h s more q)))
