-- ===== src/Tools/Detach/Left.antt =====
-- What `clm_tools_detach` leaves.
use clm.Base.{
  ℕ, zero, suc, ◌+◌, ◌≤◌, ◌≡◌, refl, ap, ◌∙◌, inl, inr, true, false, not, Option, none, some, List,
  [], ◌∷◌, length, ltb, ◌==◌, arith, if-cases, Bool-cases,
}
use clm.Tools.{Tool, Invocation, Toolbox, Ext, inv_at}
use clm.Tools.Counts.{at}
use clm.Tools.Teardown.{detach_loop, freed_if_done, severed, tools_detach}
use clm.Tools.Registry.{detach_node, detach_nodes}
use clm.Tools.Sound.{ended}
use clm.Tools.Detach.{is_held, Gone, ended-some}
use clm.Tools.Sound.{Watch, Counted, Sound}
use clm.Tools.Sound.Batches.{active-pending}
use clm.Tools.Detach.Leaves.{Leaving, detach_loop-Leaving, length-detach_loop}

at-outside : (l : List Invocation) (j : ℕ) → length l ≤ j → is_held (at l j) ≡ false
at-outside [] j p = refl
at-outside (v ∷ l) zero p = absurd (omega arith)
at-outside (v ∷ l) (suc j) p = at-outside l j (omega arith)

freed-Gone : (s : Toolbox) (n : ℕ) → Leaving n s → length s.batch.inv ≡ n → Gone (freed_if_done s)
unfolding Leaving Gone
freed-Gone s n (d, c, strays, fr, z, a, free) m =
    let all : (j : ℕ) → is_held (inv_at s j) ≡ false = λ j. elim (Bool-cases (ltb j n)) [
      | inl p ↦ free j (ground arith)
      | inr p ↦ at-outside s.batch.inv j (ground arith)
    ] in
    if-cases Gone (s.batch.pending == 0)
      (λ q.
        let none_left : s.batch.pending ≡ 0 = ground arith in
        (d, c, strays, omega (arith, fr, ap ended none_left), z, a, all))
      (λ q.
        let some_left : 1 ≤ s.batch.pending = ground arith in
        (d, c, strays, omega (arith, fr, ended-some s.batch.pending some_left), z, a, all))

node-Leaving :
    (s : Toolbox) (k : ℕ) (o : Option Tool)
    → Leaving 0 (severed s)
    → Leaving 0 (severed (detach_node s k o))
unfolding Leaving detach_node
node-Leaving s k none g = g
node-Leaving s k (some t) g = if-cases (λ x. Leaving 0 (severed x)) t.detach (λ d. g) (λ d. g)

nodes-Leaving :
    (s : Toolbox) (l : List ℕ) → Leaving 0 (severed s) → Leaving 0 (severed (detach_nodes s l))
unfolding detach_nodes
nodes-Leaving s [] g = g
nodes-Leaving s (k ∷ l) g =
    nodes-Leaving (detach_node s k (s.store k)) l (node-Leaving s k (s.store k) g)

length-node :
    (s : Toolbox) (k : ℕ) (o : Option Tool)
    → length (detach_node s k o).batch.inv ≡ length s.batch.inv
unfolding detach_node
length-node s k none = refl
length-node s k (some t) =
    if-cases (λ (x : Toolbox). length x.batch.inv ≡ length s.batch.inv) t.detach (λ d. refl)
      (λ d. refl)

length-nodes : (s : Toolbox) (l : List ℕ) → length (detach_nodes s l).batch.inv ≡ length s.batch.inv
unfolding detach_nodes
length-nodes s [] = refl
length-nodes s (k ∷ l) = length-nodes (detach_node s k (s.store k)) l ∙ length-node s k (s.store k)

severed-Leaving :
    (w : Watch) (s : Toolbox) → Sound w 0 s → 1 ≤ s.batch.pending → Leaving 0 (severed s)
unfolding Leaving Sound Counted
severed-Leaving w s (c, r, v) p =
    let open_end = ended-some s.batch.pending p in
    (
      refl,
      omega (arith, c.1),
      c.2,
      c.3 ∙ open_end,
      c.4 ∙ open_end,
      refl,
      (λ j q. absurd (omega (arith, q))),
    )

-- Where no tool reports inside of its cancel, a detach leaves just what is to be left of an open batch.
pub tools_detach-Gone :
    (w : Watch) (e : Ext) (s : Toolbox)
    → ((v : Invocation) → e.cancels v ≡ none)
    → Sound w 0 s
    → s.active ≡ true
    → Gone (tools_detach e s)
unfolding tools_detach
tools_detach-Gone w e s quiet q a =
    let t = severed (detach_nodes s s.tools) in
    let n = length s.batch.inv in
    let g = nodes-Leaving s s.tools (severed-Leaving w s q (active-pending w 0 s q a)) in
    let r = detach_loop-Leaving e quiet n 0 t g in
    let same = length-nodes s s.tools in
    if-cases Gone (not s.active) (λ x. absurd (cc (a, x)))
      (λ x.
        freed-Gone (detach_loop e n 0 t) (0 + n) r
          (omega (arith, length-detach_loop e quiet n 0 t, same)))
