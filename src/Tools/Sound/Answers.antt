-- ===== src/Tools/Sound/Answers.antt =====
-- The end of an invocation: its result in the history, its pin on the tool, and `inv_finalize` as a whole.
use clm.Agent.{Agent}
use clm.Agent.Waiting.{bit}
use clm.Base.{
  ℕ, suc, ◌+◌, ◌-◌, ◌≡◌, refl, ap, ◌∙◌, inl, inr, Bytes, true, false, Option, none, some, [], ◌∷◌,
  names, bytes_eq, leb, ◌==◌, arith, if-cases, Bool-cases,
}
use clm.History.{
  set_content, History, Attachment, Compressor, tool, create, add_tool_result, add_attachment,
}
use clm.History.Content.{set_content-SameFrame}
use clm.History.Supersede.{supersede_tool, supersede_before, before_batch}
use clm.History.Supersede.Same.{AllSame, supersede_before-AllSame}
use clm.Tools.{Tool, Invocation, Toolbox, Ext, Result, Report, inv_at, update}
use clm.Tools.Counts.{count-append, count-modify, open-lt}
use clm.Tools.Finalize.{
  attach_last, recorded, superseded, stubbed_by, inv_finalize, answered, untimed, report, report_if,
}
use clm.Tools.Registry.{unpin, unpinned, let_go}
use clm.Tools.Results.{reported, tool_is_volatile, superseded_stub, output_of}
use clm.Tools.Sound.{
  is_open, is_parked, is_stray, is_stray_idle, is_owed, is_node, is_pinning, is_answer, given,
  inflight_of, Watch, Apart, Counted, Sound,
}
use clm.Tools.Sound.Steps.{release-Sound, modify-Watched}

given-attach_last :
    (id : Bytes) (h : History) (att : Option Attachment) → given id (attach_last h att) ≡ given id h
unfolding attach_last add_attachment
given-attach_last id h none = refl
given-attach_last id [] (some att) = refl
given-attach_last id (m ∷ []) (some att) = refl
given-attach_last id (m ∷ m' ∷ h) (some att) =
    omega (arith, given-attach_last id (m' ∷ h) (some att))

given-add_tool_result :
    (id : Bytes) (h : History) (called name out : Bytes) (cz : Option Compressor)
    → given id (add_tool_result h (some called) (some name) (some out) cz)
      ≡ given id h + bit (bytes_eq called id)
unfolding add_tool_result names
given-add_tool_result id h called name out cz =
    let base = record (create tool) { tool_call_id = some called; tool_name = some name } in
    let same = set_content-SameFrame base (some out) cz in
    let answers : is_answer id (set_content base (some out) cz) ≡ bytes_eq called id =
      rw (same.role, same.tool_call_id) refl in
    count-append (is_answer id) h (set_content base (some out) cz ∷ [])
    ∙ omega (arith, ap bit answers)

given-AllSame : (id : Bytes) (a b : History) → AllSame a b → given id a ≡ given id b
given-AllSame id [] [] s = refl
given-AllSame id [] (y ∷ b) s = absurd s
given-AllSame id (x ∷ a) [] s = absurd s
given-AllSame id (x ∷ a) (y ∷ b) s =
    let one : is_answer id x ≡ is_answer id y = rw (s.0.role, s.0.tool_call_id) refl in
    omega (arith, ap bit one, given-AllSame id a b s.1)

given-superseded :
    (id : Bytes) (e : Ext) (s : Toolbox) (name : Bytes)
    → given id (superseded e s name).history ≡ given id s.agent.history
unfolding superseded stubbed_by supersede_tool
given-superseded id e s name =
    let h = s.agent.history in
    let stub = superseded_stub name in
    let same =
      given-AllSame id (supersede_before (before_batch h) h name stub).1 h
        (supersede_before-AllSame (before_batch h) h name stub) in
    let Fits : Agent → Type 0 = λ a. given id a.history ≡ given id h in
    if-cases Fits (tool_is_volatile e s.volatile_tools name)
      (λ p.
        if-cases Fits (leb 1 (supersede_before (before_batch h) h name stub).0) (λ q. same)
          (λ q. same))
      (λ p. refl)

inflight-let_go : (t : Tool) → inflight_of (let_go t) ≡ t.inflight - 1
inflight-let_go t = ground arith

inflight-unpin :
    (store : ℕ → Option Tool) (def : Option ℕ) (k : ℕ)
    → inflight_of (unpin store def k) ≡ inflight_of (store k) - bit (is_node k def)
unfolding unpin
inflight-unpin store none k = omega arith
inflight-unpin store (some j) k = inflight-found (store j) refl
  where
    inflight-found :
        (o : Option Tool)
        → store j ≡ o
        → inflight_of (unpinned store j o k) ≡ inflight_of (store k) - bit (k == j)
    inflight-found none e = elim (Bool-cases (k == j)) [
      | inl q ↦ let there : k ≡ j = ground arith in rw (q, there, e) (omega arith)
      | inr q ↦ rw q (omega arith)
    ]
    inflight-found (some t) e = elim (Bool-cases (k == j)) [
      | inl q ↦ let there : k ≡ j = ground arith in rw (q, there, e) (inflight-let_go t)
      | inr q ↦ rw q (omega arith)
    ]

given-answered :
    (id : Bytes) (e : Ext) (s : Toolbox) (v : Invocation) (r : Result)
    → given id (answered e s v r).agent.history ≡ given id s.agent.history + bit (bytes_eq v.id id)
unfolding recorded
given-answered id e s v r =
    let out = output_of e v.output_cap r.content in
    let a = superseded e s v.name in
    given-attach_last id
      (add_tool_result a.history (some v.id) (some v.name) (some out) a.compressor) r.att
    ∙ given-add_tool_result id a.history v.id v.name out a.compressor
    ∙ ap (λ n. n + bit (bytes_eq v.id id)) (given-superseded id e s v.name)

-- Neither completed nor parked.
abbrev pub Runs : Invocation → Type 0
Runs v = (v.completed ≡ false) × (is_parked v ≡ false)

module _ (w : Watch) where
  answered-Sound :
      (e : Ext) (h i : ℕ) (s : Toolbox) (r : Result)
      → Apart i w.other
      → Runs (inv_at s i)
      → Sound w h s
      → Sound w (suc h) (answered e (update s i untimed) (inv_at s i) r)
  unfolding Sound Counted
  answered-Sound e h i s r n (o, u) (c, g, v) =
      let l = s.batch.inv in
      let x = inv_at s i in
      let lt = open-lt l i o in
      let opens = count-modify is_open untimed l i lt in
      let strays = count-modify is_stray untimed l i lt in
      let pins = count-modify (is_pinning w.node) untimed l i lt in
      let owed = count-modify (is_owed w.id) untimed l i lt in
      let there = modify-Watched untimed l i w.other w.ready n in
      let was_open : bit (is_open x) ≡ 1 = rw o refl in
      let no_stray : bit (is_stray (untimed x)) ≡ 0 = ap bit (is_stray_idle (untimed x) u) in
      let was_owed : bit (is_owed w.id x) ≡ bit (bytes_eq x.id w.id) = rw o refl in
      let was_pinned : bit (is_pinning w.node x) ≡ bit (is_node w.node x.def) = rw o refl in
      let kept = inflight-unpin s.store x.def w.node in
      let new = given-answered w.id e (update s i untimed) x r in
      (
        (
          c.0,
          omega (arith, c.1, opens, was_open),
          omega (arith, c.2, strays, no_stray),
          c.3,
          c.4,
          c.5,
          omega (arith, kept, pins, was_pinned, c.6),
        ),
        (λ p. (omega (arith, (g p).0, new, owed, was_owed), there (g p).1)),
        (λ z. absurd (omega (arith, z, c.1, opens, was_open))),
      )

  attached : (h : ℕ) (s : Toolbox) → Sound w h s → s.batch.detached ≡ true → ⊥
  unfolding Sound Counted
  attached h s (c, g, v) d = cc (c.0, d)

  pub inv_finalize-Sound :
      (e : Ext) (h i : ℕ) (s : Toolbox) (r : Result)
      → Apart i w.other
      → Runs (inv_at s i)
      → Sound w h s
      → Sound w h (inv_finalize e s i r)
  unfolding inv_finalize
  inv_finalize-Sound e h i s r n u q =
      if-cases (Sound w h) s.batch.detached (λ d. absurd (attached h s q d))
        (λ d.
          release-Sound w e h (answered e (update s i untimed) (inv_at s i) r)
            (answered-Sound e h i s r n u q))

  pub report-Sound :
      (e : Ext) (h i : ℕ) (s : Toolbox) (r : Report)
      → Apart i w.other
      → is_parked (inv_at s i) ≡ false
      → Sound w h s
      → Sound w h (report e s i r)
  unfolding report
  report-Sound e h i s r n u q =
      if-cases (Sound w h) (inv_at s i).completed (λ c. q)
        (λ c. inv_finalize-Sound e h i s (reported e s.no_vision (inv_at s i) r) n (c, u) q)

  pub report_if-Sound :
      (e : Ext) (h i : ℕ) (s : Toolbox) (r : Option Report)
      → Apart i w.other
      → is_parked (inv_at s i) ≡ false
      → Sound w h s
      → Sound w h (report_if e s i r)
  unfolding report_if
  report_if-Sound e h i s none n u q = q
  report_if-Sound e h i s (some r) n u q = report-Sound e h i s r n u q
