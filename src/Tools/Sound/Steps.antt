-- ===== src/Tools/Sound/Steps.antt =====
-- The steps that the calls on a batch are made of, and what holds after each.
use clm.Agent.Waiting.{bit}
use clm.Base.{
  ℕ, suc, ◌+◌, ◌-◌, ◌≤◌, ◌≡◌, refl, sym, ap, ◌∙◌, Bool, false, not, Option, none, some, List, ◌==◌,
  arith, if-cases,
}
use clm.Agent.{Agent}
use clm.Ratelimit.{Ratelimit}
use clm.Tools.{Tool, Told, tell, Invocation, Toolbox, Ext, inv_at, update, modify_at, with_pending}
use clm.Tools.Counts.{
  count, count-modify_same, count-le, open-lt, count-modify, count-map_eq, count-map_le, count-at,
  at-modify_other,
}
use clm.Tools.Finalize.{release, batch_finalize, no_timers}
use clm.Tools.Sound.{
  is_open, is_stray, is_ready, is_owed, is_pinning, given, inflight_of, ended, Watch, Apart,
  Watched, Counted, Sound,
}

-- What an assignment leaves of an invocation.
pub record Same (v v' : Invocation) : Type 0 where
  pub completed : v'.completed ≡ v.completed
  pub def : v'.def ≡ v.def
  pub id : v'.id ≡ v.id

pub modify-Watched :
    (f : Invocation → Invocation) (l : List Invocation) (i : ℕ) (j : Option ℕ) (b : Bool)
    → Apart i j
    → Watched j b l
    → Watched j b (modify_at i f l)
modify-Watched f l i none b n r = tt
modify-Watched f l i (some j) b n r = ap is_ready (at-modify_other f l i j n) ∙ r

module _ (w : Watch) where
  pub open-pending :
      (h i : ℕ) (s : Toolbox)
      → Sound w h s
      → (inv_at s i).completed ≡ false
      → 1 + h ≤ s.batch.pending
  unfolding Sound Counted
  open-pending h i s (c, r, v) o =
      let one = count-at is_open s.batch.inv i (open-lt s.batch.inv i o) in
      let o' : bit (is_open (inv_at s i)) ≡ 1 = rw o refl in omega (arith, c.1, one, o')

  pub update-Sound :
      (h i : ℕ) (s : Toolbox) (f : Invocation → Invocation)
      → Apart i w.other
      → (inv_at s i).completed ≡ false
      → Same (inv_at s i) (f (inv_at s i))
      → is_stray (f (inv_at s i)) ≡ false
      → Sound w h s
      → Sound w h (update s i f)
  unfolding Sound Counted
  update-Sound h i s f n o m k (c, r, v) =
      let l = s.batch.inv in
      let lt = open-lt l i o in
      let opens = count-modify_same is_open f l i lt (ap not m.completed) in
      let strays = count-modify is_stray f l i lt in
      let k' : bit (is_stray (f (inv_at s i))) ≡ 0 = ap bit k in
      let pins = count-modify_same (is_pinning w.node) f l i lt (rw (m.completed, m.def) refl) in
      let owed = count-modify_same (is_owed w.id) f l i lt (rw (m.completed, m.id) refl) in
      let there = modify-Watched f l i w.other w.ready n in
      (
        (c.0, omega (arith, c.1, opens), omega (arith, c.2, strays, k'), c.3, c.4, c.5, pins ∙ c.6),
        (λ p. (omega (arith, (r p).0, owed), there (r p).1)),
        v,
      )

  -- The batch is held once more.
  pub hold-Sound :
      (h : ℕ) (s : Toolbox)
      → 1 ≤ s.batch.pending
      → Sound w h s
      → Sound w (suc h) (with_pending s (s.batch.pending + 1))
  unfolding Sound Counted
  hold-Sound h s p (c, r, v) = (ground arith, (λ q. r p), (λ q. absurd (omega arith)))

  finalize-Sound :
      (e : Ext) (h : ℕ) (s : Toolbox)
      → s.batch.pending ≡ 1
      → Sound w (suc h) s
      → Sound w h (batch_finalize e (with_pending s (s.batch.pending - 1)))
  unfolding Sound Counted batch_finalize
  finalize-Sound e h s p (c, r, v) =
      let l = s.batch.inv in
      let opens = count-map_eq is_open no_timers l (λ x. refl) in
      let pins = count-map_eq (is_pinning w.node) no_timers l (λ x. refl) in
      let strays = count-map_le is_stray no_timers l (λ x. ground arith) in
      let owed = count-le (is_owed w.id) is_open l (λ x. ground arith) in
      let none_left : s.batch.pending - 1 ≡ 0 = omega (arith, p) in
      let over : ended (s.batch.pending - 1) ≡ 1 = ap ended none_left in
      let before : ended s.batch.pending ≡ 0 = ap ended p in
      (
        (
          c.0,
          omega (arith, c.1, opens, p),
          omega (arith, c.2, strays),
          omega (arith, c.3, over, before),
          omega (arith, c.4, over, before),
          omega (arith, over),
          pins ∙ c.6,
        ),
        (λ q. absurd (omega (arith, p, q))),
        (λ q. (
          e,
          with_pending s (s.batch.pending - 1),
          omega (arith, (r (omega (arith, p))).0, owed, c.1, p),
          refl,
        )),
      )

  let_down-Sound :
      (h : ℕ) (s : Toolbox)
      → 2 ≤ s.batch.pending
      → Sound w (suc h) s
      → Sound w h (with_pending s (s.batch.pending - 1))
  unfolding Sound Counted
  let_down-Sound h s p (c, r, v) =
      (ground arith, (λ q. r (omega arith)), (λ q. absurd (omega arith)))

  count-hold : (h : ℕ) (s : Toolbox) → Sound w (suc h) s → 1 ≤ s.batch.pending
  unfolding Sound Counted
  count-hold h s (c, r, v) = omega (arith, c.1)

  pub release-Sound : (e : Ext) (h : ℕ) (s : Toolbox) → Sound w (suc h) s → Sound w h (release e s)
  unfolding release
  release-Sound e h s q =
      let held = count-hold h s q in
      if-cases (Sound w h) (s.batch.pending - 1 == 0) (λ z. finalize-Sound e h s (ground arith) q)
        (λ z. let_down-Sound h s (ground arith) q)

  pub store-Sound :
      (h : ℕ) (s : Toolbox) (store : ℕ → Option Tool)
      → inflight_of (store w.node) ≡ inflight_of (s.store w.node)
      → Sound w h s
      → Sound w h (record s { store = store })
  unfolding Sound Counted
  store-Sound h s store same (c, r, v) = ((c.0, c.1, c.2, c.3, c.4, c.5, c.6 ∙ sym same), r, v)

  -- While a call is open, the agent may change in all but its history.
  pub agent-Sound :
      (h : ℕ) (s : Toolbox) (a : Agent)
      → 1 ≤ s.batch.pending
      → a.history ≡ s.agent.history
      → Sound w h s
      → Sound w h (record s { agent = a })
  unfolding Sound Counted
  agent-Sound h s a p same (c, r, v) = (
    c,
    (λ q. (ap (λ l. given w.id l + owed s) same ∙ (r q).0, (r q).1)),
    (λ z. absurd (omega arith)),
  )
    where
      owed : Toolbox → ℕ
      owed s = count (is_owed w.id) s.batch.inv

  pub tell-Sound : (h : ℕ) (s : Toolbox) (t : Told) → Sound w h s → Sound w h (tell s t)
  unfolding Sound Counted
  tell-Sound h s t q = q

  pub rl-Sound :
      (h : ℕ) (s : Toolbox) (rl : Option Ratelimit)
      → Sound w h s
      → Sound w h (record s { tool_rl = rl })
  unfolding Sound Counted
  rl-Sound h s rl q = q
