-- ===== src/Tools/Sound/Gates.antt =====
-- A call on its way through the hooks, the permission gate and its tool keeps the batch sound.
use clm.Base.{
  ℕ, suc, ◌+◌, ◌≡◌, refl, ap, ◌∙◌, inl, inr, Bytes, Bool, true, false, not, ◌&&◌, Option, none,
  some, codes, ◌==◌, arith, if-cases, Bool-cases,
}
use clm.Agent.{Status}
use clm.Tools.{
  Tool, Invocation, Toolbox, Ext, fail, Decision, invoked, inv_at, update, with_pending, tell,
}
use clm.Tools.Counts.{at-modify, open-lt}
use clm.Tools.Finalize.{report_if}
use clm.Tools.Gate.{
  armed, with_cancel, run_invoke, fail_with, allows, is_always, with_answer, remember_at, remember,
  unparked, permission_respond, awaiting, asked, ask_permission, is_settled, permission_gate,
}
use clm.Tools.Registry.{find_tool, write}
use clm.Tools.Sound.{is_parked, is_stray, is_stray_idle, is_ready, inflight_of, Watch, Apart, Sound}
use clm.Tools.Sound.Answers.{report-Sound, report_if-Sound}
use clm.Tools.Sound.Steps.{
  Same, open-pending, update-Sound, hold-Sound, release-Sound, store-Sound, tell-Sound,
}

pub at_update :
    (s : Toolbox) (i : ℕ) (f : Invocation → Invocation)
    → (inv_at s i).completed ≡ false
    → inv_at (update s i f) i ≡ f (inv_at s i)
at_update s i f o = at-modify f s.batch.inv i (open-lt s.batch.inv i o)

-- What is ready is neither completed nor parked, and has no timer.
pub ready-parts :
    (v : Invocation)
    → is_ready v ≡ true
    → (v.completed ≡ false) × (is_parked v ≡ false) × (v.timer ≡ false)
ready-parts v r = ground arith

inflight-with_answer : (b : Bool) (t : Option Tool) → inflight_of (with_answer b t) ≡ inflight_of t
inflight-with_answer b none = refl
inflight-with_answer b (some t) = refl

pub inflight-write :
    (store : ℕ → Option Tool) (k j : ℕ) (t : Option Tool)
    → inflight_of t ≡ inflight_of (store k)
    → inflight_of (write store k t j) ≡ inflight_of (store j)
inflight-write store k j t same = elim (Bool-cases (j == k)) [
  | inl q ↦ let there : j ≡ k = ground arith in rw (q, there) same
  | inr q ↦ rw q refl
]

module _ (w : Watch) where
  pub update_ready-Sound :
      (h i : ℕ) (s : Toolbox) (f : Invocation → Invocation)
      → Apart i w.other
      → is_ready (inv_at s i) ≡ true
      → Same (inv_at s i) (f (inv_at s i))
      → is_stray (f (inv_at s i)) ≡ false
      → Sound w h s
      → Sound w h (update s i f)
  update_ready-Sound h i s f n r m k q =
      update-Sound w h i s f n (ready-parts (inv_at s i) r).0 m k q

  run_invoke-Sound :
      (e : Ext) (h i : ℕ) (s : Toolbox)
      → Apart i w.other
      → is_ready (inv_at s i) ≡ true
      → Sound w h s
      → Sound w h (run_invoke e s i)
  unfolding run_invoke
  run_invoke-Sound e h i s n r q =
      let p = ready-parts (inv_at s i) r in
      let ready = update s i (armed e) in
      let at = at_update s i (armed e) p.0 in
      let live : (inv_at ready i).completed ≡ false = ap (λ v. v.completed) at ∙ p.0 in
      let idle : is_parked (inv_at ready i) ≡ false = ap is_parked at ∙ p.1 in
      let one =
        update_ready-Sound h i s (armed e) n r (record { completed = refl; def = refl; id = refl })
          (is_stray_idle (armed e (inv_at s i)) p.1) q in
      let more = open-pending w h i ready one live in
      let held = tell (with_pending ready (ready.batch.pending + 1)) (invoked i) in
      let two =
        tell-Sound w (suc h) (with_pending ready (ready.batch.pending + 1)) (invoked i)
          (hold-Sound w h ready (omega (arith, more)) one) in
      let got = e.invoke (inv_at held i) in
      let f = with_cancel got.cancels in
      let three =
        update-Sound w (suc h) i held f n live (record { completed = refl; def = refl; id = refl })
          (is_stray_idle (f (inv_at held i)) idle) two in
      release-Sound w e h (report_if e (update held i f) i got.reports) (
        report_if-Sound w e (suc h) i (update held i f) got.reports n
          (ap is_parked (at_update held i f live) ∙ idle) three)

  pub fail_with-Sound :
      (e : Ext) (h i : ℕ) (s : Toolbox) (msg : Bytes)
      → Apart i w.other
      → is_ready (inv_at s i) ≡ true
      → Sound w h s
      → Sound w h (fail_with e s i msg)
  unfolding fail_with
  fail_with-Sound e h i s msg n r q =
      report-Sound w e h i s (fail (some msg)) n (ready-parts (inv_at s i) r).1 q

  remember_at-Sound :
      (h : ℕ) (s : Toolbox) (b : Bool) (k : Option ℕ) → Sound w h s → Sound w h (remember_at s b k)
  remember_at-Sound h s b none q = q
  remember_at-Sound h s b (some k) q =
      store-Sound w h s (write s.store k (with_answer b (s.store k)))
        (inflight-write s.store k w.node (with_answer b (s.store k))
          (inflight-with_answer b (s.store k)))
        q

  remember-Sound :
      (h : ℕ) (s : Toolbox) (name : Bytes) (d : Decision)
      → Sound w h s
      → Sound w h (remember s name d)
  unfolding remember
  remember-Sound h s name d q =
      if-cases (Sound w h) (is_always d)
        (λ p. remember_at-Sound h s (allows d) (find_tool s name) q) (λ p. q)

  is_ready-remember :
      (s : Toolbox) (i : ℕ) (name : Bytes) (d : Decision)
      → inv_at (remember s name d) i ≡ inv_at s i
  unfolding remember
  is_ready-remember s i name d =
      if-cases (λ t. inv_at t i ≡ inv_at s i) (is_always d)
        (λ p. remembered s (allows d) (find_tool s name)) (λ p. refl)
    where
      remembered :
          (s : Toolbox) (b : Bool) (k : Option ℕ) → inv_at (remember_at s b k) i ≡ inv_at s i
      remembered s b none = refl
      remembered s b (some k) = refl

  -- A call that only waits for the answer is ready once it has it.
  pub permission_respond-Sound :
      (e : Ext) (h i : ℕ) (s : Toolbox) (d : Decision)
      → Apart i w.other
      → (inv_at s i).completed ≡ false
      → is_ready (unparked (inv_at s i)) ≡ true
      → Sound w h s
      → Sound w h (permission_respond e s i d).0
  unfolding permission_respond
  permission_respond-Sound e h i s d n o r q =
      let p = ready-parts (unparked (inv_at s i)) r in
      let name = (inv_at s i).name in
      let t = remember (update s i unparked) name d in
      let at : inv_at t i ≡ unparked (inv_at s i) =
        is_ready-remember (update s i unparked) i name d ∙ at_update s i unparked o in
      let ready : is_ready (inv_at t i) ≡ true = ap is_ready at ∙ r in
      let told = remember-Sound h (update s i unparked) name d (
        update-Sound w h i s unparked n o (record { completed = refl; def = refl; id = refl })
          (is_stray_idle (unparked (inv_at s i)) p.1) q) in
      if-cases (λ (x : Toolbox × Status). Sound w h x.0) (not (inv_at s i).awaiting_perm) (λ z. q)
        (λ z.
          if-cases (λ (x : Toolbox × Status). Sound w h x.0) (allows d)
            (λ y. run_invoke-Sound e h i t n ready told)
            (λ y. fail_with-Sound e h i t (codes "denied by user") n ready told))

  asked-Sound :
      (e : Ext) (h i : ℕ) (s : Toolbox) (d : Option Decision)
      → Apart i w.other
      → (inv_at s i).completed ≡ false
      → is_ready (unparked (inv_at s i)) ≡ true
      → Sound w h s
      → Sound w h (asked e s i d)
  unfolding asked
  asked-Sound e h i s none n o r q = q
  asked-Sound e h i s (some d) n o r q = permission_respond-Sound e h i s d n o r q

  is_ready-unparked : (v : Invocation) → is_ready v ≡ true → is_ready (unparked (awaiting v)) ≡ true
  is_ready-unparked v r = ground arith

  is_stray-awaiting : (v : Invocation) → is_ready v ≡ true → is_stray (awaiting v) ≡ false
  is_stray-awaiting v r = ground arith

  ask_permission-Sound :
      (e : Ext) (h i : ℕ) (s : Toolbox) (p : Option (Invocation → Option Decision))
      → Apart i w.other
      → is_ready (inv_at s i) ≡ true
      → Sound w h s
      → Sound w h (ask_permission e s i p)
  unfolding ask_permission
  ask_permission-Sound e h i s none n r q =
      fail_with-Sound e h i s (codes "denied: no permission policy") n r q
  ask_permission-Sound e h i s (some prompt) n r q =
      let v = inv_at s i in
      let o = (ready-parts v r).0 in
      let parked = update s i awaiting in
      let at = at_update s i awaiting o in
      asked-Sound e h i parked (prompt (inv_at parked i)) n (ap (λ x. x.completed) at ∙ o)
        (ap (λ x. is_ready (unparked x)) at ∙ is_ready-unparked v r)
        (update_ready-Sound h i s awaiting n r (record { completed = refl; def = refl; id = refl })
          (is_stray-awaiting v r) q)

  pub permission_gate-Sound :
      (e : Ext) (h i : ℕ) (s : Toolbox) (t : Option Tool)
      → Apart i w.other
      → is_ready (inv_at s i) ≡ true
      → Sound w h s
      → Sound w h (permission_gate e s i t)
  unfolding permission_gate
  permission_gate-Sound e h i s none n r q = q
  permission_gate-Sound e h i s (some t) n r q =
      let run = run_invoke-Sound e h i s n r q in
      if-cases (Sound w h) (t.no_prompt && not (inv_at s i).force_ask) (λ y. run)
        (λ y.
          if-cases (Sound w h) (is_settled t (inv_at s i).force_ask)
            (λ z.
              if-cases (Sound w h) t.remember_allow (λ x. run)
                (λ x. fail_with-Sound e h i s (codes "denied by user (remembered)") n r q))
            (λ z. ask_permission-Sound e h i s e.permission n r q))
