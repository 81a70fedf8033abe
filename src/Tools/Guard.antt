-- ===== src/Tools/Guard.antt =====
-- Which tools run: the permission gate of libclm/tools.c denies what nothing allows.
use clm.Base.{
  ℕ, suc, ◌≡◌, refl, ap, ◌∙◌, Bytes, Bool, false, not, ◌&&◌, ◌||◌, Option, none, some, List, [],
  ◌∷◌, codes, ◌==◌, ◌-◌, arith, if-cases,
}
use clm.Agent.{Status}
use clm.Tools.{
  Tool, Invocation, Toolbox, Ext, Report, fail, Decision, Told, invoked, inv_at, update,
}
use clm.Tools.Finalize.{release, batch_finalize, retire, inv_finalize, report, answered, untimed}
use clm.Tools.Gate.{
  fail_with, allows, is_always, remember_at, remember, unparked, permission_respond, awaiting,
  asked, ask_permission, is_settled, permission_gate,
}
use clm.Tools.Registry.{find_tool}
use clm.Tools.Results.{reported}

-- How often a tool was invoked.
abbrev runs_of : List Told → ℕ
runs_of [] = 0
runs_of (invoked i ∷ l) = suc (runs_of l)
runs_of (_ ∷ l) = runs_of l

-- Nothing more was invoked.
pub SameRuns : Toolbox → Toolbox → Type 0
SameRuns s t = runs_of t.told ≡ runs_of s.told

abbrev answers_allow : Option Decision → Bool
answers_allow none = false
answers_allow (some d) = allows d

abbrev allowed_by : Option (Invocation → Option Decision) → Invocation → Bool
allowed_by none v = false
allowed_by (some prompt) v = answers_allow (prompt v)

-- What the prompt answers before it returns.
abbrev prompt_allows : Ext → Toolbox → ℕ → Bool
prompt_allows e s i = allowed_by e.permission (inv_at (update s i awaiting) i)

-- Whether the tool may run: it needs no prompt or the user has said yes for good, and no hook asked; or
-- the user says yes now, where there is no answer for good that settles it.
unfoldable pub may_run : Ext → Toolbox → ℕ → Tool → Bool
may_run e s i t =
    (not (inv_at s i).force_ask && (t.no_prompt || (t.remembered && t.remember_allow)))
    || (not (t.remembered && not t.remember_allow) && prompt_allows e s i)

module _ (e : Ext) where
  release-SameRuns : (s : Toolbox) → SameRuns s (release e s)
  unfolding SameRuns release batch_finalize
  release-SameRuns s =
      if-cases (λ t. SameRuns s t) (s.batch.pending - 1 == 0) (λ z. refl) (λ z. refl)

  report-SameRuns : (s : Toolbox) (i : ℕ) (r : Report) → SameRuns s (report e s i r)
  unfolding SameRuns report inv_finalize retire
  report-SameRuns s i r =
      if-cases (λ t. SameRuns s t) (inv_at s i).completed (λ c. refl)
        (λ c.
          if-cases (λ t. SameRuns s t) s.batch.detached
            (λ d. if-cases (λ t. SameRuns s t) (s.batch.pending - 1 == 0) (λ z. refl) (λ z. refl))
            (λ d. release-SameRuns (
              answered e (update s i untimed) (inv_at s i)
                (reported e s.no_vision (inv_at s i) r))))

  fail_with-SameRuns : (s : Toolbox) (i : ℕ) (msg : Bytes) → SameRuns s (fail_with e s i msg)
  unfolding fail_with
  fail_with-SameRuns s i msg = report-SameRuns s i (fail (some msg))

  remember_at_told : (s : Toolbox) (b : Bool) (k : Option ℕ) → (remember_at s b k).told ≡ s.told
  remember_at_told s b none = refl
  remember_at_told s b (some k) = refl

  remember_told : (s : Toolbox) (name : Bytes) (d : Decision) → (remember s name d).told ≡ s.told
  unfolding remember
  remember_told s name d =
      if-cases (λ (t : Toolbox). t.told ≡ s.told) (is_always d)
        (λ a. remember_at_told s (allows d) (find_tool s name)) (λ a. refl)

  denied-SameRuns :
      (s : Toolbox) (i : ℕ) (d : Decision)
      → allows d ≡ false
      → SameRuns s (permission_respond e s i d).0
  unfolding permission_respond SameRuns
  denied-SameRuns s i d n =
      let told = remember (update s i unparked) (inv_at s i).name d in
      let msg = codes "denied by user" in
      let P = λ (x : Toolbox × Status). SameRuns s x.0 in
      if-cases P (not (inv_at s i).awaiting_perm) (λ a. refl)
        (λ a.
          if-cases P (allows d) (λ b. absurd (cc (n, b)))
            (λ b.
              fail_with-SameRuns told i msg
              ∙ ap runs_of (remember_told (update s i unparked) (inv_at s i).name d)))

  asked-SameRuns :
      (s : Toolbox) (i : ℕ) (o : Option Decision)
      → answers_allow o ≡ false
      → SameRuns s (asked e s i o)
  unfolding asked SameRuns
  asked-SameRuns s i none n = refl
  asked-SameRuns s i (some d) n = denied-SameRuns s i d n

  ask-SameRuns :
      (s : Toolbox) (i : ℕ) (o : Option (Invocation → Option Decision))
      → allowed_by o (inv_at (update s i awaiting) i) ≡ false
      → SameRuns s (ask_permission e s i o)
  unfolding ask_permission SameRuns
  ask-SameRuns s i none n = fail_with-SameRuns s i (codes "denied: no permission policy")
  ask-SameRuns s i (some prompt) n =
      let parked = update s i awaiting in asked-SameRuns parked i (prompt (inv_at parked i)) n

  -- A tool that may not run is not invoked by the permission gate: one that wants a prompt, or that a
  -- hook asked about, waits for a yes; a remembered no, and a host without a prompt, deny it.
  pub permission_gate-SameRuns :
      (s : Toolbox) (i : ℕ) (t : Tool)
      → may_run e s i t ≡ false
      → SameRuns s (permission_gate e s i (some t))
  unfolding permission_gate may_run
  permission_gate-SameRuns s i t n =
      let P = λ (x : Toolbox). SameRuns s x in
      let v = inv_at s i in
      if-cases P (t.no_prompt && not v.force_ask) (λ a. absurd (ground arith))
        (λ a.
          if-cases P (is_settled t v.force_ask)
            (λ b.
              if-cases P t.remember_allow (λ c. absurd (ground arith))
                (λ c. fail_with-SameRuns s i (codes "denied by user (remembered)")))
            (λ b. ask-SameRuns s i e.permission (ground arith)))
