-- ===== src/Tools/Registry/Refined.antt =====
-- clm_tool_add and clm_tool_remove are the insertion and the deletion of a map.
use clm.Base.{
  ℕ, ◌≡◌, refl, sym, ap, subst, ◌∙◌, inl, inr, Bytes, true, false, not, ◌&&◌, Option, none, some,
  List, [], ◌∷◌, bytes_eq, eq_of_bytes_eq, ◌==◌, arith, true-false, if-cases, Bool-cases,
}
use clm.Agent.{Status, done}
use clm.Tools.{Tool, Toolbox}
use clm.Tools.Registry.Kept.{IsApart-without, IsRegistry-added, IsRegistry-removed}
use clm.Tools.Registry.{
  eexist, enoent, is_named, find_in, find_tool, fresh, add_at, tool_add, detach_node, without,
  unlinked, remove_at, tool_remove,
}
use clm.Tools.Registry.Map.{
  look, IsApart, IsRegistry, node_of, look-find_in, look-write, look-new, find_in-named, nat_refl,
  inserted, deleted, view,
}

without_apart : (l : List ℕ) (k : ℕ) → IsApart k l → without l k ≡ l
without_apart [] k a = refl
without_apart (j ∷ l) k a = rw (a.0, without_apart l k a.1) refl

name_of : (t : Tool) (name : Bytes) → is_named name (some t) ≡ true → t.name ≡ name
name_of t name q = eq_of_bytes_eq t.name name (ground arith)

-- A node of another name is not found under this one.
other_name :
    (o : Option Tool) (name n : Bytes)
    → is_named name o ≡ true
    → bytes_eq name n ≡ false
    → is_named n o ≡ false
other_name none name n q d = refl
other_name (some t) name n q d =
    let same : t.name ≡ name = name_of t name q in
    ap (λ b. not t.removed && bytes_eq b n) same ∙ ground (arith, d)

apart_of :
    (store : ℕ → Option Tool) (name : Bytes) (j k : ℕ)
    → is_named name (store j) ≡ false
    → is_named name (store k) ≡ true
    → (j == k) ≡ false
apart_of store name j k q h = elim (Bool-cases (j == k)) [
  | inl e ↦
      let same : j ≡ k = ground arith in
      absurd (true-false (sym h ∙ ap (λ i. is_named name (store i)) (sym same) ∙ q))
  | inr e ↦ e
]

module _ (l : List ℕ) (store : ℕ → Option Tool) (name : Bytes) (j : ℕ) (n : Bytes) (t : Tool)
    (there : store j ≡ some t) where
  look-head_gone :
      IsApart j l
      → look l store t.name ≡ none
      → is_named name (store j) ≡ true
      → look (without (j ∷ l) j) store n ≡ deleted (look (j ∷ l) store) name n
  look-head_gone apart once q =
      let gone : look (without (j ∷ l) j) store n ≡ look l store n =
        rw (nat_refl j, without_apart l j apart) refl in
      let same = name_of t name (ap (is_named name) (sym there) ∙ q) in
      gone ∙ elim (Bool-cases (bytes_eq name n)) [
        | inl d ↦ ap (look l store) (sym (same ∙ eq_of_bytes_eq name n d)) ∙ once ∙ sym (rw d refl)
        | inr d ↦ sym (rw (d, other_name (store j) name n q d) refl)
      ]

  look-tail_gone :
      (k : ℕ)
      → (j == k) ≡ false
      → is_named name (store j) ≡ false
      → look (without l k) store n ≡ deleted (look l store) name n
      → look (without (j ∷ l) k) store n ≡ deleted (look (j ∷ l) store) name n
  look-tail_gone k jk q ih = elim (Bool-cases (bytes_eq name n)) [
    | inl d ↦
        let no : is_named n (store j) ≡ false =
          ap (λ b. is_named b (store j)) (sym (eq_of_bytes_eq name n d)) ∙ q in
        rw (jk, no, d) (ih ∙ rw d refl)
    | inr d ↦ elim (Bool-cases (is_named n (store j))) [
      | inl y ↦ rw (jk, y, d) refl
      | inr y ↦ rw (jk, y, d) (ih ∙ rw d refl)
    ]
  ]

look-without :
    (l : List ℕ) (store : ℕ → Option Tool) (name : Bytes) (k : ℕ) (n : Bytes)
    → IsRegistry l store
    → find_in l store name ≡ some k
    → look (without l k) store n ≡ deleted (look l store) name n
unfolding find_in
look-without [] store name k n r e = cc
look-without (j ∷ l) store name k n (t, there, here, apart, once, r) e =
    if-cases
      (λ (o : Option ℕ).
        o ≡ some k → look (without (j ∷ l) k) store n ≡ deleted (look (j ∷ l) store) name n)
      (is_named name (store j))
      (λ q h.
        subst (λ i. look (without (j ∷ l) i) store n ≡ deleted (look (j ∷ l) store) name n)
          (ap (λ o. elim o [ none ↦ j | some i ↦ i ]) h)
          (look-head_gone l store name j n t there apart once q))
      (λ q h.
        look-tail_gone l store name j n t there k
          (apart_of store name j k q (find_in-named l store name k h)) q
          (look-without l store name k n r h))
      e

-- What `tool_detach` of the node leaves of the rest of the list.
detach_node-rest :
    (s : Toolbox) (k : ℕ) (o : Option Tool) (n : Bytes)
    → look (without (detach_node s k o).tools k) (detach_node s k o).store n
      ≡ look (without s.tools k) s.store n
unfolding detach_node
detach_node-rest s k none n = refl
detach_node-rest s k (some t) n =
    if-cases
      (λ (x : Toolbox). look (without x.tools k) x.store n ≡ look (without s.tools k) s.store n)
      t.detach
      (λ d.
        look-write (without s.tools k) s.store k (some (record t { detach = false })) n
          (IsApart-without s.tools k))
      (λ d. refl)

remove-deleted :
    (s : Toolbox) (name n : Bytes) (k : ℕ)
    → IsRegistry s.tools s.store
    → find_in s.tools s.store name ≡ some k
    → view (remove_at s (some k)).0 n ≡ deleted (view s) name n
unfolding remove_at
remove-deleted s name n k r e =
    let off = detach_node s k (s.store k) in
    look-write (without off.tools k) off.store k (unlinked (off.store k)) n
      (IsApart-without off.tools k)
    ∙ detach_node-rest s k (s.store k) n
    ∙ look-without s.tools s.store name k n r e

there-of : (o : Option Tool) (name : Bytes) → is_named name o ≡ true → (t : Tool) × (o ≡ some t)
there-of none name q = absurd (true-false (sym q))
there-of (some t) name q = (t, refl)

-- What clm_tool_add leaves and returns: the name is new and the tool is inserted, with no answer
-- remembered and -EEXIST not returned; or the name is taken and nothing changes.
pub data Added (s : Toolbox) (def : Tool) (r : Toolbox × Status) : Type 0 where
  is_new :
      view s def.name ≡ none
      → r.1 ≡ done
      → ((n : Bytes) → view r.0 n ≡ inserted (view s) (fresh def) n)
      → IsRegistry r.0.tools r.0.store
      → Added s def r
  is_taken : (t : Tool) → view s def.name ≡ some t → r ≡ (s, eexist) → Added s def r

-- The same of clm_tool_remove.
pub data Removed (s : Toolbox) (name : Bytes) (r : Toolbox × Status) : Type 0 where
  is_gone :
      (t : Tool)
      → view s name ≡ some t
      → r.1 ≡ done
      → ((n : Bytes) → view r.0 n ≡ deleted (view s) name n)
      → IsRegistry r.0.tools r.0.store
      → Removed s name r
  is_unknown : view s name ≡ none → r ≡ (s, enoent) → Removed s name r

-- What the search finds is what the map has.
found-none : (s : Toolbox) (name : Bytes) → find_in s.tools s.store name ≡ none → view s name ≡ none
unfolding node_of
found-none s name e = sym (look-find_in s.tools s.store name) ∙ ap (node_of s.store) e

found-some :
    (s : Toolbox) (name : Bytes) (k : ℕ)
    → find_in s.tools s.store name ≡ some k
    → (t : Tool) × (view s name ≡ some t)
unfolding node_of
found-some s name k e =
    let (t, there) = there-of (s.store k) name (find_in-named s.tools s.store name k e) in
    (t, sym (look-find_in s.tools s.store name) ∙ ap (node_of s.store) e ∙ there)

add_at-Added :
    (s : Toolbox) (k : ℕ) (def : Tool) (o : Option ℕ)
    → IsRegistry s.tools s.store
    → IsApart k s.tools
    → find_in s.tools s.store def.name ≡ o
    → Added s def (add_at s k def o)
unfolding add_at
add_at-Added s k def none r a e =
    let gone = found-none s def.name e in
    is_new gone refl (λ n. look-new s.tools s.store k (fresh def) n a refl)
      (IsRegistry-added s.tools s.store k def r a gone)
add_at-Added s k def (some old) r a e =
    let (t, there) = found-some s def.name old e in is_taken t there refl

remove_at-Removed :
    (s : Toolbox) (name : Bytes) (o : Option ℕ)
    → IsRegistry s.tools s.store
    → find_in s.tools s.store name ≡ o
    → Removed s name (remove_at s o)
unfolding remove_at
remove_at-Removed s name none r e = is_unknown (found-none s name e) refl
remove_at-Removed s name (some k) r e =
    let (t, there) = found-some s name k e in
    is_gone t there refl (λ n. remove-deleted s name n k r e) (IsRegistry-removed s k r)

-- The registry is a map from names to tools, of which the list has each node and each name once.
-- clm_tool_add of a new node inserts the tool under a name that is not taken, with no answer remembered, and
-- else changes nothing and returns -EEXIST; clm_tool_remove deletes a name that is there, and else
-- changes nothing and returns -ENOENT; and the list stays as said.
pub registry-IsMap :
    (s : Toolbox) (k : ℕ) (def : Tool) (name : Bytes)
    → IsRegistry s.tools s.store
    → IsApart k s.tools
    → Added s def (tool_add s k def) × Removed s name (tool_remove s name)
unfolding tool_add tool_remove find_tool
registry-IsMap s k def name r a = (
  add_at-Added s k def (find_in s.tools s.store def.name) r a refl,
  remove_at-Removed s name (find_in s.tools s.store name) r refl,
)
