-- ===== src/Tools/Sound/Hooks.antt =====
-- The hooks before the permission gate, the dispatch of a call and its two timers keep the batch sound.
use clm.Base.{
  ℕ, ◌≡◌, refl, ap, ◌∙◌, Bytes, true, false, Option, none, some, List, [], ◌∷◌, codes, drop, arith,
  if-cases,
}
use clm.Ratelimit.{consume}
use clm.Tools.{
  Invocation, Toolbox, Ext, GateAnswer, Verdict, pass, deny, ask, tool_begin, inv_at, update, tell,
}
use clm.Tools.Finalize.{timed_out, on_timeout}
use clm.Tools.Gate.{
  def_of, forced, denied_by_hook, counted_denial, noted, judged, ungated, answer, hooked, gated,
  gate_steps, gate_run, gate_respond, dispatch_def, dispatch_one, no_rl_timer, on_rl_timer,
}
use clm.Tools.Results.{timeout_result}
use clm.Tools.Sound.{is_parked, is_stray, is_stray_idle, is_ready, Watch, Apart, Sound}
use clm.Tools.Sound.Answers.{inv_finalize-Sound, report_if-Sound}
use clm.Tools.Sound.Gates.{
  at_update, ready-parts, update_ready-Sound, fail_with-Sound, permission_gate-Sound,
}
use clm.Tools.Sound.Steps.{Same, open-pending, update-Sound, agent-Sound, tell-Sound, rl-Sound}

ungated-Same : (args : Option Bytes) (v : Invocation) → Same v (ungated args v)
ungated-Same none v = record { completed = refl; def = refl; id = refl }
ungated-Same (some args) v = record { completed = refl; def = refl; id = refl }

is_ready-ungated :
    (args : Option Bytes) (v : Invocation)
    → is_ready (ungated none v) ≡ true
    → is_ready (ungated args v) ≡ true
is_ready-ungated none v r = r
is_ready-ungated (some args) v r = r

is_ready-gated : (v : Invocation) → is_ready v ≡ true → is_ready (ungated none (gated v)) ≡ true
is_ready-gated v r = ground arith

is_stray-gated : (v : Invocation) → is_ready v ≡ true → is_stray (gated v) ≡ false
is_stray-gated v r = ground arith

module _ (w : Watch) where
  -- What goes on with a ready call keeps the batch sound.
  abbrev Goes : ℕ → ℕ → (Toolbox → Toolbox) → Type 0
  Goes h i next = (s : Toolbox) → is_ready (inv_at s i) ≡ true → Sound w h s → Sound w h (next s)

  noted-Sound :
      (h i : ℕ) (s : Toolbox) (reason : Option Bytes) (next : Toolbox → Toolbox)
      → Goes h i next
      → is_ready (inv_at s i) ≡ true
      → Sound w h s
      → Sound w h (next (noted s reason))
  noted-Sound h i s none next g r q = g s r q
  noted-Sound h i s (some reason) next g r q = g (noted s (some reason)) r (tell-Sound w h s _ q)

  judged-Sound :
      (e : Ext) (h i : ℕ) (s : Toolbox) (reason : Option Bytes) (verdict : Verdict)
      (next : Toolbox → Toolbox)
      → Apart i w.other
      → Goes h i next
      → is_ready (inv_at s i) ≡ true
      → Sound w h s
      → Sound w h (judged e s i reason verdict next)
  unfolding judged
  judged-Sound e h i s reason pass next n g r q = noted-Sound h i s reason next g r q
  judged-Sound e h i s reason deny next n g r q =
      let more = open-pending w h i s q (ready-parts (inv_at s i) r).0 in
      fail_with-Sound w e h i (counted_denial s) (denied_by_hook reason) n r
        (agent-Sound w h s (counted_denial s).agent (omega (arith, more)) refl q)
  judged-Sound e h i s reason ask next n g r q =
      let at = at_update s i (forced reason) (ready-parts (inv_at s i) r).0 in
      g (update s i (forced reason)) (ap is_ready at ∙ r) (
        update_ready-Sound w h i s (forced reason) n r
          (record { completed = refl; def = refl; id = refl })
          (is_stray_idle (forced reason (inv_at s i)) (ready-parts (inv_at s i) r).1) q)

  -- A call that only waits for a hook is ready once it has the answer.
  answer-Sound :
      (e : Ext) (h i : ℕ) (s : Toolbox) (a : GateAnswer) (next : Toolbox → Toolbox)
      → Apart i w.other
      → Goes h i next
      → (inv_at s i).completed ≡ false
      → is_ready (ungated none (inv_at s i)) ≡ true
      → Sound w h s
      → Sound w h (answer e s i a next)
  unfolding answer
  answer-Sound e h i s a next n g o r q =
      let v = inv_at s i in
      let r' = is_ready-ungated a.args v r in
      judged-Sound e h i (update s i (ungated a.args)) a.reason a.verdict next n g
        (ap is_ready (at_update s i (ungated a.args) o) ∙ r')
        (update-Sound w h i s (ungated a.args) n o (ungated-Same a.args v)
          (is_stray_idle (ungated a.args v) (ready-parts (ungated a.args v) r').1) q)

  hooked-Sound :
      (e : Ext) (h i : ℕ) (s : Toolbox) (a : Option GateAnswer) (next : Toolbox → Toolbox)
      → Apart i w.other
      → Goes h i next
      → (inv_at s i).completed ≡ false
      → is_ready (ungated none (inv_at s i)) ≡ true
      → Sound w h s
      → Sound w h (hooked e s i a next)
  unfolding hooked
  hooked-Sound e h i s none next n g o r q = q
  hooked-Sound e h i s (some a) next n g o r q = answer-Sound e h i s a next n g o r q

  gate_steps-Sound :
      (l : List (Invocation → Option GateAnswer)) (e : Ext) (h i : ℕ)
      → Apart i w.other
      → Goes h i (gate_steps l e i)
  unfolding gate_steps
  gate_steps-Sound [] e h i n s r q =
      permission_gate-Sound w e h i s (def_of s (inv_at s i).def) n r q
  gate_steps-Sound (hook ∷ l) e h i n s r q =
      let v = inv_at s i in
      let o = (ready-parts v r).0 in
      let at = at_update s i gated o in
      let waiting = update s i gated in
      hooked-Sound e h i waiting (hook (inv_at waiting i)) (gate_steps l e i) n
        (gate_steps-Sound l e h i n) (ap (λ x. x.completed) at ∙ o)
        (ap (λ x. is_ready (ungated none x)) at ∙ is_ready-gated v r)
        (update_ready-Sound w h i s gated n r (record { completed = refl; def = refl; id = refl })
          (is_stray-gated v r) q)

  gate_run-Sound : (e : Ext) (h i : ℕ) → Apart i w.other → Goes h i (gate_run e i)
  unfolding gate_run
  gate_run-Sound e h i n s r q =
      gate_steps-Sound (drop (inv_at s i).gate_next e.hooks) e h i n s r q

  pub gate_respond-Sound :
      (e : Ext) (h i : ℕ) (s : Toolbox) (a : GateAnswer)
      → Apart i w.other
      → (inv_at s i).completed ≡ false
      → is_ready (ungated none (inv_at s i)) ≡ true
      → Sound w h s
      → Sound w h (gate_respond e s i a)
  unfolding gate_respond
  gate_respond-Sound e h i s a n o r q =
      answer-Sound e h i s a (gate_run e i) n (gate_run-Sound e h i n) o r q

  dispatch_def-Sound :
      (e : Ext) (h i : ℕ) (s : Toolbox) (def : Option ℕ)
      → Apart i w.other
      → is_ready (inv_at s i) ≡ true
      → Sound w h s
      → Sound w h (dispatch_def e s i def)
  unfolding dispatch_def
  dispatch_def-Sound e h i s none n r q = fail_with-Sound w e h i s (codes "unknown tool") n r q
  dispatch_def-Sound e h i s (some k) n r q = gate_run-Sound e h i n s r q

  pub dispatch_one-Sound :
      (e : Ext) (h i : ℕ) (s : Toolbox)
      → Apart i w.other
      → is_ready (inv_at s i) ≡ true
      → Sound w h s
      → Sound w h (dispatch_one e s i)
  unfolding dispatch_one
  dispatch_one-Sound e h i s n r q =
      let t = tell s (tool_begin (inv_at s i).name (inv_at s i).args) in
      dispatch_def-Sound e h i t (inv_at s i).def n r (tell-Sound w h s _ q)

  pub on_rl_timer-Sound :
      (e : Ext) (h i : ℕ) (s : Toolbox)
      → Apart i w.other
      → (inv_at s i).completed ≡ false
      → is_ready (no_rl_timer (inv_at s i)) ≡ true
      → Sound w h s
      → Sound w h (on_rl_timer e s i)
  unfolding on_rl_timer
  on_rl_timer-Sound e h i s n o r q =
      let v = inv_at s i in
      let fired = update s i no_rl_timer in
      dispatch_one-Sound e h i (record fired { tool_rl = consume s.tool_rl e.now_usec 1 }) n
        (ap is_ready (at_update s i no_rl_timer o) ∙ r)
        (rl-Sound w h fired (consume s.tool_rl e.now_usec 1) (
          update-Sound w h i s no_rl_timer n o (record { completed = refl; def = refl; id = refl })
            (is_stray_idle (no_rl_timer v) (ready-parts (no_rl_timer v) r).1) q))

  pub on_timeout-Sound :
      (e : Ext) (h i : ℕ) (s : Toolbox)
      → Apart i w.other
      → is_parked (inv_at s i) ≡ false
      → Sound w h s
      → Sound w h (on_timeout e s i)
  unfolding on_timeout
  on_timeout-Sound e h i s n u q =
      let late = update s i timed_out in
      if-cases (Sound w h) (inv_at s i).completed (λ o. q)
        (λ o.
          let at = at_update s i timed_out o in
          let u' : is_parked (inv_at late i) ≡ false = ap is_parked at ∙ u in
          let q' =
            update-Sound w h i s timed_out n o (record { completed = refl; def = refl; id = refl })
              (is_stray_idle (timed_out (inv_at s i)) u) q in
          if-cases (Sound w h) (inv_at s i).cancel
            (λ c. report_if-Sound w e h i late (e.cancels (inv_at late i)) n u' q')
            (λ c.
              inv_finalize-Sound w e h i late (timeout_result e (inv_at late i)) n
                (ap (λ x. x.completed) at ∙ o, u') q'))
