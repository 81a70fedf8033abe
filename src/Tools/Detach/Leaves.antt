-- ===== src/Tools/Detach/Leaves.antt =====
-- The loop of `clm_tools_detach`, where no tool reports inside of its cancel.
use clm.Agent.Waiting.{bit}
use clm.Base.{
  ℕ, zero, suc, ◌+◌, ◌<◌, ◌≡◌, refl, ap, ◌∙◌, subst, inl, inr, true, false, none, length, arith,
  if-cases,
}
use clm.Tools.{Invocation, Toolbox, Ext, inv_at, update}
use clm.Tools.Counts.{count, count-at, open-lt, count-modify, count-modify_same, length-modify}
use clm.Tools.Teardown.{unlimited, unasked, unanswered, dropped, no_timer, detach_at, detach_loop}
use clm.Tools.Finalize.{report_if}
use clm.Tools.Sound.{is_open, is_parked, is_stray, is_stray_idle}
use clm.Tools.Detach.{is_held, each-modify, below, nat-cases}

-- How far the loop of the detach has come.
unfoldable pub Leaving : ℕ → Toolbox → Type 0
Leaving i s =
    (s.batch.detached ≡ true)
    × (s.batch.pending ≡ count is_open s.batch.inv)
    × (count is_stray s.batch.inv ≡ 0)
    × (s.frees ≡ 0)
    × (s.finals ≡ 0)
    × (s.active ≡ false)
    × ((j : ℕ) → j < i → is_held (inv_at s j) ≡ false)

drop-Leaving :
    (s : Toolbox) (i : ℕ) (f : Invocation → Invocation)
    → (inv_at s i).completed ≡ false
    → (f (inv_at s i)).completed ≡ true
    → is_stray (f (inv_at s i)) ≡ false
    → Leaving i s
    → Leaving (i + 1) (dropped s i f)
unfolding Leaving
drop-Leaving s i f o done k (d, c, strays, fr, z, a, free) =
    let l = s.batch.inv in
    let lt = open-lt l i o in
    let opens = count-modify is_open f l i lt in
    let was : bit (is_open (inv_at s i)) ≡ 1 = rw o refl in
    let now : bit (is_open (f (inv_at s i))) ≡ 0 = rw done refl in
    let moved = count-modify is_stray f l i lt in
    (
      d,
      omega (arith, c, opens, was, now),
      omega (arith, moved, strays, ap bit k),
      fr,
      z,
      a,
      (λ j p. each-modify is_held f l i j lt (rw done refl) (λ n. free j (below i j p n))),
    )

stays-Leaving :
    (s : Toolbox) (i : ℕ)
    → (inv_at s i).completed ≡ false
    → is_parked (inv_at s i) ≡ false
    → Leaving i s
    → Leaving (i + 1) (update s i no_timer)
unfolding Leaving
stays-Leaving s i o u (d, c, strays, fr, z, a, free) =
    let l = s.batch.inv in
    let x = inv_at s i in
    let lt = open-lt l i o in
    let opens = count-modify_same is_open no_timer l i lt refl in
    let moved = count-modify is_stray no_timer l i lt in
    (
      d,
      omega (arith, c, opens),
      omega (arith, moved, strays, ap bit (is_stray_idle (no_timer x) u)),
      fr,
      z,
      a,
      (λ j p. each-modify is_held no_timer l i j lt (rw (o, u) refl) (λ n. free j (below i j p n))),
    )

parked-stray :
    (v : Invocation) → is_stray v ≡ false → v.rl_timer ≡ true → is_stray (unlimited v) ≡ false
parked-stray v k r = ground arith

gated-stray : (v : Invocation) → is_stray v ≡ false → v.gate ≡ true → is_stray (unasked v) ≡ false
gated-stray v k r = ground arith

asking-stray :
    (v : Invocation) → is_stray v ≡ false → v.awaiting_perm ≡ true → is_stray (unanswered v) ≡ false
asking-stray v k r = ground arith

none-parked :
    (v : Invocation)
    → v.rl_timer ≡ false
    → v.gate ≡ false
    → v.awaiting_perm ≡ false
    → is_parked v ≡ false
none-parked v a b c = rw (c, b, a) refl

skip-Leaving :
    (s : Toolbox) (i : ℕ) → (inv_at s i).completed ≡ true → Leaving i s → Leaving (i + 1) s
unfolding Leaving
skip-Leaving s i o (d, c, strays, fr, z, a, free) = (
  d,
  c,
  strays,
  fr,
  z,
  a,
  (λ j p. elim (nat-cases i j) [
    | inl e ↦ subst (λ k. is_held (inv_at s k) ≡ false) e (rw o refl)
    | inr n ↦ free j (below i j p n)
  ]),
)

stray-of :
    (s : Toolbox) (i : ℕ)
    → Leaving i s
    → (inv_at s i).completed ≡ false
    → is_stray (inv_at s i) ≡ false
unfolding Leaving
stray-of s i g o =
    let one = count-at is_stray s.batch.inv i (open-lt s.batch.inv i o) in
    let none : bit (is_stray (inv_at s i)) ≡ 0 = omega (arith, one, g.2) in ground arith

module _ (e : Ext) (quiet : (v : Invocation) → e.cancels v ≡ none) where
  detach_at-Leaving : (s : Toolbox) (i : ℕ) → Leaving i s → Leaving (i + 1) (detach_at e s i)
  unfolding detach_at report_if
  detach_at-Leaving s i g =
      let v = inv_at s i in
      let P = Leaving (i + 1) in
      if-cases P v.completed (λ c. skip-Leaving s i c g)
        (λ c.
          let k = stray-of s i g c in
          if-cases P v.rl_timer (λ r. drop-Leaving s i unlimited c refl (parked-stray v k r) g)
            (λ r.
              if-cases P v.gate (λ t. drop-Leaving s i unasked c refl (gated-stray v k t) g)
                (λ t.
                  if-cases P v.awaiting_perm
                    (λ p. drop-Leaving s i unanswered c refl (asking-stray v k p) g)
                    (λ p.
                      let still = update s i no_timer in
                      let q = stays-Leaving s i c (none-parked v r t p) g in
                      if-cases P (inv_at still i).cancel (λ x. rw (quiet (inv_at still i)) q)
                        (λ x. q)))))

  pub detach_loop-Leaving :
      (n i : ℕ) (s : Toolbox) → Leaving i s → Leaving (i + n) (detach_loop e n i s)
  unfolding detach_loop
  detach_loop-Leaving zero i s g = subst (λ k. Leaving k s) (omega arith) g
  detach_loop-Leaving (suc n) i s g =
      subst (λ k. Leaving k (detach_loop e n (i + 1) (detach_at e s i))) (omega arith)
        (detach_loop-Leaving n (i + 1) (detach_at e s i) (detach_at-Leaving s i g))

  length-detach_at : (s : Toolbox) (i : ℕ) → length (detach_at e s i).batch.inv ≡ length s.batch.inv
  unfolding detach_at report_if
  length-detach_at s i =
      let v = inv_at s i in
      let l = s.batch.inv in
      let P : Toolbox → Type 0 = λ t. length t.batch.inv ≡ length l in
      if-cases P v.completed (λ c. refl)
        (λ c.
          if-cases P v.rl_timer (λ r. length-modify unlimited l i)
            (λ r.
              if-cases P v.gate (λ t. length-modify unasked l i)
                (λ t.
                  if-cases P v.awaiting_perm (λ p. length-modify unanswered l i)
                    (λ p.
                      let still = update s i no_timer in
                      if-cases P (inv_at still i).cancel
                        (λ x. rw (quiet (inv_at still i)) (length-modify no_timer l i))
                        (λ x. length-modify no_timer l i)))))

  pub length-detach_loop :
      (n i : ℕ) (s : Toolbox) → length (detach_loop e n i s).batch.inv ≡ length s.batch.inv
  unfolding detach_loop
  length-detach_loop zero i s = refl
  length-detach_loop (suc n) i s =
      length-detach_loop n (i + 1) (detach_at e s i) ∙ length-detach_at s i
