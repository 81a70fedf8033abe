-- ===== src/Tools/Sound/Start.antt =====
-- `clm_tools_dispatch`: the batch that it builds, and what holds once its calls are on their way.
use clm.Agent.Waiting.{bit}
use clm.Base.{
  true-false, subst, ℕ, ◌+◌, ◌≡◌, refl, ap, ◌∙◌, inl, inr, Bytes, Bool, true, false, ◌&&◌, Option,
  none, some, List, [], ◌∷◌, length, names, bytes_eq, length-append, ◌==◌, arith, if-cases,
  Bool-cases, Option-cases, sym,
}
use clm.Tools.{Tool, Toolbox, Ext, with_inv}
use clm.Tools.Counts.{count, count-append}
use clm.Tools.Dispatch.{Call, copied, args_str, new_inv, pinned, joined, build_all}
use clm.Tools.Registry.{find_tool, find_in, is_named, pin}
use clm.Tools.Results.{inv_compute_limits}
use clm.Tools.Sound.{is_open, is_stray, is_ready, is_owed, is_node, is_pinning, inflight_of, Watch}

-- Whether a call has the id, and whether its members can be copied.
abbrev pub has_id : Bytes → Call → Bool
has_id id c = names (copied c.id) id

abbrev is_copied : Option Bytes → Bool
is_copied none = false
is_copied (some s) = true

abbrev pub can_copy : List Call → Bool
can_copy [] = true
can_copy (c ∷ l) = (is_copied (copied c.id) && is_copied (copied c.name)) && can_copy l

-- The node that a lookup finds is there.
find_in-there :
    (l : List ℕ) (store : ℕ → Option Tool) (name : Bytes) (k : ℕ)
    → find_in l store name ≡ some k
    → (t : Tool) × (store k ≡ some t)
unfolding find_in
find_in-there [] store name k h = cc
find_in-there (j ∷ l) store name k h =
    if-cases (λ (o : Option ℕ). o ≡ some k → (t : Tool) × (store k ≡ some t))
      (is_named name (store j)) (λ q e. named_there (store j) refl q (some_inj e))
      (λ q e. find_in-there l store name k e) h
  where
    some_inj : {i : ℕ} → Path (Option ℕ) (some i) (some k) → i ≡ k
    some_inj e = ap (λ o. elim o [ none ↦ 0 | some x ↦ x ]) e

    named_there :
        (o : Option Tool)
        → store j ≡ o
        → is_named name o ≡ true
        → j ≡ k
        → (t : Tool) × (store k ≡ some t)
    named_there none e q i = cc
    named_there (some t) e q i = (t, sym (ap store i) ∙ e)

inflight-pin-some :
    (store : ℕ → Option Tool) (j k : ℕ) (t : Tool)
    → store j ≡ some t
    → inflight_of (pin store (some j) k) ≡ inflight_of (store k) + bit (is_node k (some j))
unfolding pin
inflight-pin-some store j k t e = elim (Bool-cases (k == j)) [
  | inl q ↦ let there : k ≡ j = ground arith in rw (e, q, there, e) refl
  | inr q ↦ rw (e, q) (omega arith)
]

inflight-pin-none :
    (store : ℕ → Option Tool) (k : ℕ)
    → inflight_of (pin store none k) ≡ inflight_of (store k) + bit (is_node k none)
unfolding pin
inflight-pin-none store k = omega arith

inflight-pin :
    (l : List ℕ) (store : ℕ → Option Tool) (name : Bytes) (k : ℕ)
    → inflight_of (pin store (find_in l store name) k)
      ≡ inflight_of (store k) + bit (is_node k (find_in l store name))
inflight-pin l store name k = elim (Option-cases (find_in l store name)) [
  | inl e ↦ rw e (inflight-pin-none store k)
  | inr (j, e) ↦
      let (t, there) = find_in-there l store name j e in rw e (inflight-pin-some store j k t there)
]

-- What `n` more calls make of a batch, `m` of them with the id.
pub record Grown (w : Watch) (n m : ℕ) (s t : Toolbox) : Type 0 where
  pub rest : t ≡ record (with_inv s t.batch.inv) { store = t.store }
  pub open_calls : count is_open t.batch.inv ≡ count is_open s.batch.inv + n
  pub strays : count is_stray t.batch.inv ≡ count is_stray s.batch.inv
  pub ready : count is_ready t.batch.inv ≡ count is_ready s.batch.inv + n
  pub calls : length t.batch.inv ≡ length s.batch.inv + n
  pub owed : count (is_owed w.id) t.batch.inv ≡ count (is_owed w.id) s.batch.inv + m
  pub pins :
      count (is_pinning w.node) t.batch.inv + inflight_of (s.store w.node)
      ≡ count (is_pinning w.node) s.batch.inv + inflight_of (t.store w.node)

bit-has_id :
    (x : Bytes) (c : Call) (id : Bytes)
    → copied c.id ≡ some id
    → bit (has_id x c) ≡ bit (bytes_eq id x)
unfolding names
bit-has_id x c id i = rw i refl

rest_copied :
    (c : Call) (l : List Call) (id name : Bytes)
    → copied c.id ≡ some id
    → copied c.name ≡ some name
    → can_copy (c ∷ l) ≡ true
    → can_copy l ≡ true
rest_copied c l id name i n h = sym (rw (i, n) refl) ∙ h

build_step :
    (e : Ext) (c : Call) (l : List Call) (s t : Toolbox) (id name : Bytes)
    → copied c.id ≡ some id
    → copied c.name ≡ some name
    → build_all e l (joined (pinned s name) (new_inv e s id name (args_str c.arguments))) ≡ some t
    → build_all e (c ∷ l) s ≡ some t
unfolding build_all
build_step e c l s t id name i n eq = rw (i, n) eq

module _ (w : Watch) where
  Grown-refl : (s : Toolbox) → Grown w 0 0 s s
  Grown-refl s = record {
    rest = refl;
    open_calls = omega arith;
    strays = refl;
    ready = omega arith;
    calls = omega arith;
    owed = omega arith;
    pins = refl;
  }

  Grown-trans :
      (n m n' m' : ℕ) (s t u : Toolbox)
      → Grown w n m s t
      → Grown w n' m' t u
      → Grown w (n + n') (m + m') s u
  Grown-trans n m n' m' s t u a b = record {
    rest = b.rest ∙ ap (λ x. record (with_inv x u.batch.inv) { store = u.store }) a.rest;
    open_calls = omega (arith, a.open_calls, b.open_calls);
    strays = b.strays ∙ a.strays;
    ready = omega (arith, a.ready, b.ready);
    calls = omega (arith, a.calls, b.calls);
    owed = omega (arith, a.owed, b.owed);
    pins = omega (arith, a.pins, b.pins);
  }

  one-Grown :
      (e : Ext) (s : Toolbox) (id name args : Bytes)
      → Grown w 1 (bit (bytes_eq id w.id)) s (joined (pinned s name) (new_inv e s id name args))
  unfolding inv_compute_limits find_tool
  one-Grown e s id name args =
      let v = new_inv e s id name args in
      let l = s.batch.inv in
      record {
        rest = refl;
        open_calls = count-append is_open l (v ∷ []);
        strays = count-append is_stray l (v ∷ []) ∙ omega arith;
        ready = count-append is_ready l (v ∷ []);
        calls = length-append l (v ∷ []);
        owed = omega (arith, count-append (is_owed w.id) l (v ∷ []));
        pins = omega (
          arith,
          count-append (is_pinning w.node) l (v ∷ []),
          inflight-pin s.tools s.store name w.node,
        );
      }

  Grown-as : {n n' m m' : ℕ} {s t : Toolbox} → Grown w n m s t → n ≡ n' → m ≡ m' → Grown w n' m' s t
  Grown-as {n} {n'} {m} {m'} {s} {t} g a b =
      subst (λ k. Grown w k m' s t) a (subst (λ k. Grown w n k s t) b g)

  -- The loop takes each call that can be copied into the batch.
  pub build_all-Grown :
      (e : Ext) (calls : List Call) (s : Toolbox)
      → can_copy calls ≡ true
      → (t : Toolbox) × (build_all e calls s ≡ some t)
        × Grown w (length calls) (count (has_id w.id) calls) s t
  unfolding build_all
  build_all-Grown e [] s h = (s, refl, Grown-refl s)
  build_all-Grown e (c ∷ l) s h = elim (Option-cases (copied c.id)) [
    | inl i ↦ absurd (true-false (sym h ∙ rw i refl))
    | inr (id, i) ↦ elim (Option-cases (copied c.name)) [
      | inl n ↦ absurd (true-false (sym h ∙ rw (i, n) refl))
      | inr (name, n) ↦
          let s' = joined (pinned s name) (new_inv e s id name (args_str c.arguments)) in
          let r = build_all-Grown e l s' (rest_copied c l id name i n h) in
          let one = one-Grown e s id name (args_str c.arguments) in
          let both =
            Grown-trans 1 (bit (bytes_eq id w.id)) (length l) (count (has_id w.id) l) s s' r.0 one
              r.2 in
          (
            r.0,
            build_step e c l s r.0 id name i n r.1,
            Grown-as both (omega arith) (omega (arith, bit-has_id w.id c id i)),
          )
    ]
  ]
