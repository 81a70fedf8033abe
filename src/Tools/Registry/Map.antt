-- ===== src/Tools/Registry/Map.antt =====
-- The registry of tools as a map from names: clm_tool_add, clm_tool_remove and find_tool.
use clm.Base.{
  ℕ, ◌≡◌, refl, sym, ap, ◌∙◌, inl, inr, Bytes, true, false, Option, none, some, List, [], ◌∷◌, ◌++◌,
  bytes_eq, if◌then◌else◌, ◌==◌, arith, true-false, if-cases, Bool-cases,
}
use clm.Tools.{Tool, Toolbox}
use clm.Tools.Registry.{write, is_named, find_in}

-- The node that the list has under a name.
abbrev pub look : List ℕ → (ℕ → Option Tool) → Bytes → Option Tool
look [] store name = none
look (k ∷ l) store name =
    let further = look l store name in if is_named name (store k) then store k else further

abbrev pub IsApart : ℕ → List ℕ → Type 0
IsApart k [] = Unit
IsApart k (j ∷ l) = ((j == k) ≡ false) × IsApart k l

-- The list has each node once, which is there and not removed, and each name once.
abbrev pub IsRegistry : List ℕ → (ℕ → Option Tool) → Type 0
IsRegistry [] store = Unit
IsRegistry (k ∷ l) store =
    (t : Tool) × (store k ≡ some t)
    × (t.removed ≡ false)
    × IsApart k l
    × (look l store t.name ≡ none)
    × IsRegistry l store

unfoldable pub node_of : (ℕ → Option Tool) → Option ℕ → Option Tool
node_of store none = none
node_of store (some k) = store k

pub look-find_in :
    (l : List ℕ) (store : ℕ → Option Tool) (name : Bytes)
    → node_of store (find_in l store name) ≡ look l store name
unfolding find_in node_of
look-find_in [] store name = refl
look-find_in (k ∷ l) store name = elim (Bool-cases (is_named name (store k))) [
  | inl q ↦ rw q refl
  | inr q ↦ rw q (look-find_in l store name)
]

-- Another node does not matter.
pub look-write :
    (l : List ℕ) (store : ℕ → Option Tool) (k : ℕ) (t : Option Tool) (name : Bytes)
    → IsApart k l
    → look l (write store k t) name ≡ look l store name
look-write [] store k t name a = refl
look-write (j ∷ l) store k t name a = rw (a.0, look-write l store k t name a.1) refl

pub look-append :
    (l : List ℕ) (store : ℕ → Option Tool) (k : ℕ) (name : Bytes)
    → look (l ++ k ∷ []) store name
      ≡ (elim (look l store name) [ none ↦ look (k ∷ []) store name | some t ↦ some t ])
look-append [] store k name = refl
look-append (j ∷ l) store k name = elim (Bool-cases (is_named name (store j))) [
  | inl q ↦ named (store j) refl q
  | inr q ↦ rw q (look-append l store k name)
]
  where
    named :
        (o : Option Tool)
        → store j ≡ o
        → is_named name o ≡ true
        → look ((j ∷ l) ++ k ∷ []) store name
          ≡ (elim (look (j ∷ l) store name) [ none ↦ look (k ∷ []) store name | some t ↦ some t ])
    named none e q = absurd (true-false (sym q))
    named (some t) e q = rw (e, q) refl

-- The map with one more name, unless it is there, and without a name.
abbrev or_new : Option Tool → Tool → Bytes → Option Tool
or_new none t n = if bytes_eq t.name n then some t else none
or_new (some o) t n = some o

abbrev pub inserted : (Bytes → Option Tool) → Tool → Bytes → Option Tool
inserted m t n = or_new (m n) t n

abbrev pub deleted : (Bytes → Option Tool) → Bytes → Bytes → Option Tool
deleted m name n = if bytes_eq name n then none else m n

abbrev pub view : Toolbox → Bytes → Option Tool
view s n = look s.tools s.store n

pub nat_refl : (k : ℕ) → (k == k) ≡ true
nat_refl k = ground arith

pub look-new :
    (l : List ℕ) (store : ℕ → Option Tool) (k : ℕ) (t : Tool) (n : Bytes)
    → IsApart k l
    → t.removed ≡ false
    → look (l ++ k ∷ []) (write store k (some t)) n ≡ inserted (look l store) t n
look-new l store k t n a r =
    look-append l (write store k (some t)) k n
    ∙ ap (λ o. elim o [ none ↦ look (k ∷ []) (write store k (some t)) n | some x ↦ some x ])
        (look-write l store k (some t) n a)
    ∙ new_or (look l store n)
  where
    new_or :
        (o : Option Tool)
        → (elim o [ none ↦ look (k ∷ []) (write store k (some t)) n | some x ↦ some x ])
          ≡ or_new o t n
    new_or none = rw (nat_refl k, r) refl
    new_or (some x) = refl

pub find_in-named :
    (l : List ℕ) (store : ℕ → Option Tool) (name : Bytes) (k : ℕ)
    → find_in l store name ≡ some k
    → is_named name (store k) ≡ true
unfolding find_in
find_in-named [] store name k e = cc
find_in-named (j ∷ l) store name k e =
    if-cases (λ (o : Option ℕ). o ≡ some k → is_named name (store k) ≡ true)
      (is_named name (store j))
      (λ q h.
        ap (λ i. is_named name (store i)) (sym (ap (λ o. elim o [ none ↦ j | some i ↦ i ]) h)) ∙ q)
      (λ q h. find_in-named l store name k h) e
