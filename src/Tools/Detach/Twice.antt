-- ===== src/Tools/Detach/Twice.antt =====
-- Where `clm_tools_detach` frees a batch twice.
use clm.Agent.Waiting.{bit}
use clm.Base.{
  true-false, ℕ, zero, suc, ◌+◌, ◌-◌, ◌≤◌, ◌<◌, ◌≡◌, ◌≢◌, inl, inr, refl, sym, ap, ◌∙◌, subst, true,
  false, not, Option, none, some, List, [], ◌∷◌, length, get_or, ◌==◌, arith, if-cases,
}
use clm.Tools.{Tool, Invocation, Toolbox, Ext, Report, no_inv, inv_at, update, modify_at}
use clm.Tools.Counts.{
  at, count, count-modify, count-modify_same, count-none, at-modify_other, open-lt,
}
use clm.Tools.Detach.{nat-cases}
use clm.Tools.Teardown.{no_timer, detach_at, detach_loop, freed_if_done, severed, tools_detach}
use clm.Tools.Finalize.{completed, retire, inv_finalize, report, report_if}
use clm.Tools.Registry.{detach_node, detach_nodes}
use clm.Tools.Sound.{is_open, is_parked, ended}
use clm.Tools.Sound.{Watch, Counted, Sound}
use clm.Tools.Sound.Gates.{at_update}

-- The call at `i` is the only one of the batch that is not over; it runs, and its tool has a cancel.
pub record LastCall (s : Toolbox) (i : ℕ) (v : Invocation) : Type 0 where
  pub here : inv_at s i ≡ v
  pub others : count is_open s.batch.inv ≡ 1
  pub active : s.active ≡ true
  pub runs : v.completed ≡ false
  pub idle : is_parked v ≡ false
  pub cancel : v.cancel ≡ true

-- The batch is freed, and no call of it is open.
Freed : Toolbox → Type 0
Freed s = (s.frees ≡ 1) × (s.batch.pending ≡ 0) × (count is_open s.batch.inv ≡ 0)

-- One call is open, the one at `i`, and the batch is there.
record Last (s : Toolbox) (i : ℕ) : Type 0 where
  runs : (inv_at s i).completed ≡ false
  others : count is_open s.batch.inv ≡ 1
  detached : s.batch.detached ≡ true
  pending : s.batch.pending ≡ 1
  kept : s.frees ≡ 0

retire-Freed : (s : Toolbox) (i : ℕ) → Last s i → Freed (retire (update s i completed))
unfolding Freed retire
retire-Freed s i q =
    let l = s.batch.inv in
    let open_one : bit (is_open (inv_at s i)) ≡ 1 = rw (q.runs) refl in
    let none_left : count is_open (modify_at i completed l) ≡ 0 =
      omega (arith, count-modify is_open completed l i (open-lt l i q.runs), open_one, q.others) in
    if-cases Freed (s.batch.pending - 1 == 0)
      (λ z. (omega (arith, q.kept), omega (arith, q.pending), none_left))
      (λ z. absurd (ground (arith, q.pending)))

report-Freed : (e : Ext) (s : Toolbox) (i : ℕ) (r : Report) → Last s i → Freed (report e s i r)
unfolding report inv_finalize
report-Freed e s i r q =
    if-cases Freed (inv_at s i).completed (λ c. absurd (cc (q.runs, c)))
      (λ c.
        if-cases Freed s.batch.detached (λ x. retire-Freed s i q)
          (λ x. absurd (cc (q.detached, x))))

report_if-Freed :
    (e : Ext) (s : Toolbox) (i : ℕ) (o : Option Report) (r : Report)
    → o ≡ some r
    → Freed (report e s i r)
    → Freed (report_if e s i o)
unfolding report_if
report_if-Freed e s i o r x q = subst (λ y. Freed (report_if e s i y)) (sym x) q

detach_at-Freed :
    (e : Ext) (s : Toolbox) (i : ℕ) (r : Report)
    → Last s i
    → is_parked (inv_at s i) ≡ false
    → (inv_at s i).cancel ≡ true
    → e.cancels (no_timer (inv_at s i)) ≡ some r
    → Freed (detach_at e s i)
unfolding detach_at
detach_at-Freed e s i r q u c x =
    let v = inv_at s i in
    let still = update s i no_timer in
    let at = at_update s i no_timer q.runs in
    let same =
      count-modify_same is_open no_timer s.batch.inv i (open-lt s.batch.inv i q.runs) refl in
    let last : Last still i = record {
      runs = ap (λ y. y.completed) at ∙ q.runs;
      others = same ∙ q.others;
      detached = q.detached;
      pending = q.pending;
      kept = q.kept;
    } in
    if-cases Freed v.completed (λ y. absurd (cc (q.runs, y)))
      (λ y.
        if-cases Freed v.rl_timer (λ z. absurd (ground arith))
          (λ z.
            if-cases Freed v.gate (λ g. absurd (ground arith))
              (λ g.
                if-cases Freed v.awaiting_perm (λ h. absurd (ground arith))
                  (λ h.
                    if-cases Freed (inv_at still i).cancel
                      (λ k.
                        report_if-Freed e still i (e.cancels (inv_at still i)) r
                          (ap e.cancels at ∙ x) (report-Freed e still i r last))
                      (λ k. absurd (true-false (sym (ap (λ y. y.cancel) at ∙ c) ∙ k)))))))

-- A call that is over is passed by.
passed : (e : Ext) (s : Toolbox) (j : ℕ) → (inv_at s j).completed ≡ true → detach_at e s j ≡ s
unfolding detach_at
passed e s j c = rw c refl

-- With one open call every other one is over, and with none all are.
others-completed :
    (s : Toolbox) (i j : ℕ)
    → (inv_at s i).completed ≡ false
    → count is_open s.batch.inv ≡ 1
    → i ≢ j
    → (inv_at s j).completed ≡ true
others-completed s i j o n d =
    let l = s.batch.inv in
    let open_one : bit (is_open (at l i)) ≡ 1 = rw o refl in
    let none_left : count is_open (modify_at i completed l) ≡ 0 =
      omega (arith, count-modify is_open completed l i (open-lt l i o), open_one, n) in
    let closed = count-none is_open (modify_at i completed l) j none_left refl in
    let same : is_open (at l j) ≡ false =
      ap is_open (sym (at-modify_other completed l i j d)) ∙ closed in
    ground (arith, same)

all-completed :
    (s : Toolbox) (j : ℕ) → count is_open s.batch.inv ≡ 0 → (inv_at s j).completed ≡ true
all-completed s j n =
    let closed : is_open (inv_at s j) ≡ false = count-none is_open s.batch.inv j n refl in
    ground (arith, closed)

detach_loop-over : (e : Ext) (n j : ℕ) (s : Toolbox) → Freed s → Freed (detach_loop e n j s)
unfolding detach_loop Freed
detach_loop-over e zero j s f = f
detach_loop-over e (suc n) j s f =
    detach_loop-over e n (j + 1) (detach_at e s j)
      (subst Freed (sym (passed e s j (all-completed s j f.2))) f)

detach_loop-Freed :
    (e : Ext) (s : Toolbox) (i j n : ℕ)
    → Last s i
    → Freed (detach_at e s i)
    → j ≤ i
    → i < j + n
    → Freed (detach_loop e n j s)
unfolding detach_loop
detach_loop-Freed e s i j zero q f l h = absurd (omega arith)
detach_loop-Freed e s i j (suc n) q f l h = elim (nat-cases i j) [
  | inl same ↦
      detach_loop-over e n (j + 1) (detach_at e s j) (subst (λ k. Freed (detach_at e s k)) same f)
  | inr other ↦
      subst (λ t. Freed (detach_loop e n (j + 1) t))
        (sym (passed e s j (others-completed s i j q.runs q.others other)))
        (detach_loop-Freed e s i (j + 1) n q f (ground arith) (omega arith))
]

freed_if_done-Freed : (s : Toolbox) → Freed s → (freed_if_done s).frees ≡ 2
unfolding Freed
freed_if_done-Freed s (f, p, n) =
    if-cases (λ (x : Toolbox). x.frees ≡ 2) (s.batch.pending == 0) (λ z. omega (arith, f))
      (λ z. absurd (ground arith))

detach_node_same :
    (s : Toolbox) (k : ℕ) (o : Option Tool)
    → ((detach_node s k o).batch ≡ s.batch) × ((detach_node s k o).frees ≡ s.frees)
unfolding detach_node
detach_node_same s k none = (refl, refl)
detach_node_same s k (some t) =
    if-cases (λ (x : Toolbox). (x.batch ≡ s.batch) × (x.frees ≡ s.frees)) t.detach
      (λ d. (refl, refl)) (λ d. (refl, refl))

not_active : (s : Toolbox) (i : ℕ) (v : Invocation) → LastCall s i v → not s.active ≡ true → ⊥
not_active s i v c a = ground (arith, c.active)

last-counts :
    (w : Watch) (s : Toolbox)
    → Sound w 0 s
    → count is_open s.batch.inv ≡ 1
    → (s.batch.pending ≡ 1) × (s.frees ≡ 0)
unfolding Sound Counted
last-counts w s (k, r, o) one =
    let pending : s.batch.pending ≡ 1 = omega (arith, k.1, one) in (pending, k.3 ∙ ap ended pending)

-- What the detach of the nodes leaves alone.
detach_nodes_same :
    (s : Toolbox) (l : List ℕ)
    → ((detach_nodes s l).batch ≡ s.batch) × ((detach_nodes s l).frees ≡ s.frees)
unfolding detach_nodes
detach_nodes_same s [] = (refl, refl)
detach_nodes_same s (k ∷ l) =
    let one = detach_node_same s k (s.store k) in
    let rest = detach_nodes_same (detach_node s k (s.store k)) l in (rest.0 ∙ one.0, rest.1 ∙ one.1)

-- Where one call of the batch is not over, it runs, and its tool reports inside of its cancel, the detach
-- frees the batch twice: the report has freed it, and the loop and the test behind it read it again.
-- The batch is any that the calls before can have left.
pub tools_detach-freed_twice :
    (w : Watch) (e : Ext) (s : Toolbox) (i : ℕ) (v : Invocation) (r : Report)
    → Sound w 0 s
    → LastCall s i v
    → e.cancels (no_timer v) ≡ some r
    → (tools_detach e s).frees ≡ 2
unfolding tools_detach
tools_detach-freed_twice w e s i v r q c x =
    let t = severed (detach_nodes s s.tools) in
    let same = detach_nodes_same s s.tools in
    let here : inv_at t i ≡ v = ap (λ b. get_or b.inv i no_inv) same.0 ∙ c.here in
    let counts = last-counts w s q c.others in
    let last : Last t i = record {
      runs = ap (λ y. y.completed) here ∙ c.runs;
      others = ap (λ b. count is_open b.inv) same.0 ∙ c.others;
      detached = refl;
      pending = ap (λ b. b.pending) same.0 ∙ counts.0;
      kept = same.1 ∙ counts.1;
    } in
    let freed =
      detach_at-Freed e t i r last (ap is_parked here ∙ c.idle) (ap (λ y. y.cancel) here ∙ c.cancel)
        (ap (λ y. e.cancels (no_timer y)) here ∙ x) in
    let below = open-lt s.batch.inv i (ap (λ y. y.completed) c.here ∙ c.runs) in
    if-cases (λ (y : Toolbox). y.frees ≡ 2) (not s.active) (λ a. absurd (not_active s i v c a))
      (λ a. freed_if_done-Freed (detach_loop e (length s.batch.inv) 0 t) (
        detach_loop-Freed e t i 0 (length s.batch.inv) last freed (omega arith)
          (omega (arith, below))))
