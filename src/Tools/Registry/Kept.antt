-- ===== src/Tools/Registry/Kept.antt =====
-- The list of the registry keeps each node and each name once: clm_tool_add and clm_tool_remove.
use clm.Base.{
  ℕ, ◌≡◌, refl, sym, ap, ◌∙◌, inl, inr, Bytes, true, false, Option, none, some, List, [], ◌∷◌, ◌++◌,
  bytes_eq, eq_of_bytes_eq, bytes_eq_refl, ◌==◌, arith, true-false, if-cases, Bool-cases,
}
use clm.Tools.{Tool, Toolbox}
use clm.Tools.Registry.{write, is_named, fresh, detach_node, without, unlinked}
use clm.Tools.Registry.Map.{look, look-append, look-write, IsApart, IsRegistry, nat_refl}

pub IsApart-without : (l : List ℕ) (k : ℕ) → IsApart k (without l k)
IsApart-without [] k = tt
IsApart-without (j ∷ l) k =
    if-cases (IsApart k) (j == k) (λ q. IsApart-without l k) (λ q. (q, IsApart-without l k))

IsApart-without_other : (l : List ℕ) (j k : ℕ) → IsApart j l → IsApart j (without l k)
IsApart-without_other [] j k a = tt
IsApart-without_other (i ∷ l) j k a =
    if-cases (IsApart j) (i == k) (λ q. IsApart-without_other l j k a.1)
      (λ q. (a.0, IsApart-without_other l j k a.1))

IsApart-append : (l : List ℕ) (j k : ℕ) → (k == j) ≡ false → IsApart j l → IsApart j (l ++ k ∷ [])
IsApart-append [] j k q a = (q, tt)
IsApart-append (i ∷ l) j k q a = (a.0, IsApart-append l j k q a.1)

-- A name that the list does not have is none of its nodes'.
look-none :
    (j : ℕ) (l : List ℕ) (store : ℕ → Option Tool) (n : Bytes)
    → look (j ∷ l) store n ≡ none
    → (is_named n (store j) ≡ false) × (look l store n ≡ none)
look-none j l store n e = elim (Bool-cases (is_named n (store j))) [
  | inl q ↦
      let gone : store j ≡ none = sym (rw q refl) ∙ e in
      absurd (true-false (sym q ∙ ap (is_named n) gone))
  | inr q ↦ (q, sym (rw q refl) ∙ e)
]

look-without-none :
    (l : List ℕ) (store : ℕ → Option Tool) (k : ℕ) (n : Bytes)
    → look l store n ≡ none
    → look (without l k) store n ≡ none
look-without-none [] store k n e = refl
look-without-none (j ∷ l) store k n e =
    let (q, gone) = look-none j l store n e in
    let rest = look-without-none l store k n gone in
    if-cases (λ (m : List ℕ). look m store n ≡ none) (j == k) (λ z. rest) (λ z. rw (q, rest) refl)

IsRegistry-write :
    (l : List ℕ) (store : ℕ → Option Tool) (k : ℕ) (o : Option Tool)
    → IsApart k l
    → IsRegistry l store
    → IsRegistry l (write store k o)
IsRegistry-write [] store k o a r = tt
IsRegistry-write (j ∷ l) store k o a (t, there, here, apart, once, r) = (
  t,
  rw (a.0) there,
  here,
  apart,
  look-write l store k o t.name a.1 ∙ once,
  IsRegistry-write l store k o a.1 r,
)

IsRegistry-without :
    (l : List ℕ) (store : ℕ → Option Tool) (k : ℕ)
    → IsRegistry l store
    → IsRegistry (without l k) store
IsRegistry-without [] store k r = tt
IsRegistry-without (j ∷ l) store k (t, there, here, apart, once, r) =
    let rest = IsRegistry-without l store k r in
    if-cases (λ (m : List ℕ). IsRegistry m store) (j == k) (λ q. rest)
      (λ q. (
        t,
        there,
        here,
        IsApart-without_other l j k apart,
        look-without-none l store k t.name once,
        rest,
      ))

-- Two nodes, of which one does not have the other's name.
other_way :
    (x t : Tool)
    → x.removed ≡ false
    → is_named t.name (some x) ≡ false
    → is_named x.name (some t) ≡ false
other_way x t h q = elim (Bool-cases (bytes_eq t.name x.name)) [
  | inl e ↦
      let same : is_named t.name (some x) ≡ true =
        rw (h, eq_of_bytes_eq t.name x.name e) (bytes_eq_refl x.name) in
      absurd (true-false (sym same ∙ q))
  | inr e ↦ ground (arith, e)
]

IsRegistry-append :
    (l : List ℕ) (store : ℕ → Option Tool) (k : ℕ) (t : Tool)
    → IsRegistry l store
    → store k ≡ some t
    → t.removed ≡ false
    → IsApart k l
    → look l store t.name ≡ none
    → IsRegistry (l ++ k ∷ []) store
IsRegistry-append [] store k t r e h a n = (t, e, h, tt, refl, tt)
IsRegistry-append (j ∷ l) store k t (x, there, here, apart, once, r) e h a n =
    let (q, gone) = look-none j l store t.name n in
    let q' : is_named x.name (store k) ≡ false =
      ap (is_named x.name) e ∙ other_way x t here (ap (is_named t.name) (sym there) ∙ q) in
    (
      x,
      there,
      here,
      IsApart-append l j k (ground (arith, a.0)) apart,
      look-append l store k x.name ∙ rw (once, q') refl,
      IsRegistry-append l store k t r e h a.1 gone,
    )

-- With a new node behind those that are there, under a name that is not taken.
pub IsRegistry-added :
    (l : List ℕ) (store : ℕ → Option Tool) (k : ℕ) (def : Tool)
    → IsRegistry l store
    → IsApart k l
    → look l store def.name ≡ none
    → IsRegistry (l ++ k ∷ []) (write store k (some (fresh def)))
IsRegistry-added l store k def r a n =
    IsRegistry-append l (write store k (some (fresh def))) k (fresh def)
      (IsRegistry-write l store k (some (fresh def)) a r) (rw (nat_refl k) refl) refl a
      (look-write l store k (some (fresh def)) def.name a ∙ n)

detach_node-IsRegistry :
    (s : Toolbox) (k : ℕ) (o : Option Tool)
    → IsRegistry s.tools s.store
    → IsRegistry (without (detach_node s k o).tools k) (detach_node s k o).store
unfolding detach_node
detach_node-IsRegistry s k none r = IsRegistry-without s.tools s.store k r
detach_node-IsRegistry s k (some t) r =
    let rest = IsRegistry-without s.tools s.store k r in
    if-cases (λ (x : Toolbox). IsRegistry (without x.tools k) x.store) t.detach
      (λ d.
        IsRegistry-write (without s.tools k) s.store k (some (record t { detach = false }))
          (IsApart-without s.tools k) rest)
      (λ d. rest)

-- Without a node, whatever becomes of the node.
pub IsRegistry-removed :
    (s : Toolbox) (k : ℕ)
    → IsRegistry s.tools s.store
    → IsRegistry (without (detach_node s k (s.store k)).tools k) (
        write
          (detach_node s k (s.store k)).store
          k
          (unlinked ((detach_node s k (s.store k)).store k)))
IsRegistry-removed s k r =
    let off = detach_node s k (s.store k) in
    IsRegistry-write (without off.tools k) off.store k (unlinked (off.store k))
      (IsApart-without off.tools k) (detach_node-IsRegistry s k (s.store k) r)
