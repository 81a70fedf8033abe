-- ===== src/History/Compact/Walk.antt =====
-- Where the walks of compaction stop.
use mathlib.Core.List.{reverse, reverse-append, reverse-reverse}
use clm.Base.{
  length-reverse, ℕ, ◌+◌, ◌≡◌, refl, sym, ap, ◌∙◌, inl, inr, Bool, true, false, some, [], ◌∷◌, ◌++◌,
  append_assoc, length, arith, if◌then◌else◌, ◌==◌, ==_iff, Bool-cases, Option-cases,
}
use clm.History.{Role, system, user, assistant, tool, Message, History}
use clm.History.Wire.{is_role, is_user, has_break-user, IsClosed, user_not_head}
use clm.History.Compact.{split_prologue, find_back, mission_end}

-- How many messages `p` holds of.
abbrev pub count : (Message → Bool) → History → ℕ
count p [] = 0
count p (m ∷ h) = (if p m then 1 else 0) + count p h

pub count-append :
    (p : Message → Bool) (xs ys : History) → count p (xs ++ ys) ≡ count p xs + count p ys
count-append p [] ys = omega arith
count-append p (x ∷ xs) ys = omega (arith, count-append p xs ys)

pub count-reverse : (p : Message → Bool) (xs : History) → count p (reverse xs) ≡ count p xs
count-reverse p [] = refl
count-reverse p (x ∷ xs) =
    ap (count p) (reverse-append (x ∷ []) xs)
    ∙ omega (arith, count-append p (reverse xs) (x ∷ []), count-reverse p xs)

-- The walk on the reversed list.
record Found (p : Message → Bool) (keep seen : ℕ) (back : History) (c : ℕ) : Type 0 where
  newer : History
  here : Message
  older : History
  splits : back ≡ newer ++ here ∷ older
  holds : p here ≡ true
  size : length older ≡ c
  kept : seen + count p newer + 1 ≡ keep

Found-cons :
    (p : Message → Bool) (keep seen seen' : ℕ) (m : Message) (back : History) (c : ℕ)
    → seen' ≡ seen + (if p m then 1 else 0)
    → Found p keep seen' back c
    → Found p keep seen (m ∷ back) c
Found-cons p keep seen seen' m back c e f = record {
  newer = m ∷ f.newer;
  here = f.here;
  older = f.older;
  splits = ap (◌∷◌ m) f.splits;
  holds = f.holds;
  size = f.size;
  kept = omega (arith, f.kept);
}

find_back-Found :
    (p : Message → Bool) (keep : ℕ) (back : History) (seen c : ℕ)
    → find_back p keep seen back ≡ some c
    → Found p keep seen back c
unfolding find_back
find_back-Found p keep [] seen c h = absurd (cc h)
find_back-Found p keep (m ∷ back) seen c h = elim (Bool-cases (p m)) [
  | inl it ↦ elim (Bool-cases (seen + 1 == keep)) [
    | inl last ↦
        let e : some (length back) ≡ some c = rw (it, last) at h in
        record {
          newer = [];
          here = m;
          older = back;
          splits = refl;
          holds = it;
          size = ground arith;
          kept = omega (arith, (==_iff (seen + 1) keep).0 last);
        }
    | inr more ↦
        Found-cons p keep seen (seen + 1) m back c (rw it refl)
          (find_back-Found p keep back (seen + 1) c (rw (it, more) at h))
  ]
  | inr other ↦
      Found-cons p keep seen seen m back c (rw other (omega arith))
        (find_back-Found p keep back seen c (rw other at h))
]

-- A cut: the messages before it, the one that it stands at, and those behind.
pub record IsCut (p : Message → Bool) (keep : ℕ) (rest : History) (c : ℕ) : Type 0 where
  pub before : History
  pub here : Message
  pub behind : History
  pub splits : rest ≡ before ++ here ∷ behind
  pub holds : p here ≡ true
  pub size : length before ≡ c
  pub kept : count p (here ∷ behind) ≡ keep

pub find_back-IsCut :
    (p : Message → Bool) (keep : ℕ) (rest : History) (c : ℕ)
    → find_back p keep 0 (reverse rest) ≡ some c
    → IsCut p keep rest c
find_back-IsCut p keep rest c h =
    let f = find_back-Found p keep (reverse rest) 0 c h in
    let turned : reverse (f.newer ++ f.here ∷ f.older)
        ≡ reverse f.older ++ f.here ∷ reverse f.newer =
      reverse-append f.newer (f.here ∷ f.older)
      ∙ ap (λ l. l ++ reverse f.newer) (reverse-append (f.here ∷ []) f.older)
      ∙ append_assoc (reverse f.older) (f.here ∷ []) (reverse f.newer) in
    record {
      before = reverse f.older;
      here = f.here;
      behind = reverse f.newer;
      splits = sym (reverse-reverse rest) ∙ ap reverse f.splits ∙ turned;
      holds = f.holds;
      size = length-reverse f.older ∙ f.size;
      kept = rw f.holds (omega (arith, count-reverse p f.newer, f.kept));
    }

-- The prologue holds system messages, and the history is the prologue and the rest.
abbrev pub AllSystem : History → Type 0
AllSystem [] = Unit
AllSystem (m ∷ h) = (is_role m.role system ≡ true) × AllSystem h

pub record IsPrologue (h : History) (sys rest : History) : Type 0 where
  pub splits : h ≡ sys ++ rest
  pub systems : AllSystem sys

pub split_prologue_lem : (h : History) → IsPrologue h (split_prologue h).0 (split_prologue h).1
unfolding split_prologue
split_prologue_lem [] = record { splits = refl; systems = tt }
split_prologue_lem (m ∷ h) = elim (Bool-cases (is_role m.role system)) [
  | inl s ↦
      let ih = split_prologue_lem h in
      rw s (record { splits = ap (◌∷◌ m) ih.splits; systems = (s, ih.systems) })
  | inr o ↦ rw o (record { splits = refl; systems = tt })
]

not_head_of_system : (r : Role) → is_role r system ≡ true → is_role r assistant ≡ false
not_head_of_system system h = refl
not_head_of_system user h = refl
not_head_of_system assistant h = cc
not_head_of_system tool h = refl

pub AllSystem-IsClosed :
    (sys : History) (h : History) → AllSystem sys → IsClosed h → IsClosed (sys ++ h)
AllSystem-IsClosed [] h s c = c
AllSystem-IsClosed (m ∷ sys) h s c =
    (λ e. absurd (cc (rw (not_head_of_system m.role s.0) at e)), AllSystem-IsClosed sys h s.1 c)

-- What ends with a user message is closed.
pub IsClosed-user : (xs : History) (u : Message) → is_user u ≡ true → IsClosed (xs ++ u ∷ [])
IsClosed-user [] u h = (λ e. absurd (cc (e, user_not_head u h)), tt)
IsClosed-user (x ∷ xs) u h = (λ e. has_break-user xs u h, IsClosed-user xs u h)

pub record IsMission (rest : History) (n : ℕ) : Type 0 where
  pub before : History
  pub mission : Message
  pub behind : History
  pub splits : rest ≡ before ++ mission ∷ behind
  pub is_mission : is_user mission ≡ true
  pub size : length before + 1 ≡ n

pub mission_end-IsMission : (rest : History) (n : ℕ) → mission_end rest ≡ some n → IsMission rest n
unfolding mission_end
mission_end-IsMission [] n h = absurd (cc h)
mission_end-IsMission (m ∷ rest) n h = elim (Bool-cases (is_user m)) [
  | inl u ↦
      let e : some 1 ≡ some n = rw u at h in
      record {
        before = [];
        mission = m;
        behind = rest;
        splits = refl;
        is_mission = u;
        size = ground arith;
      }
  | inr o ↦ elim (Option-cases (mission_end rest)) [
    | inl z ↦ absurd (cc (rw (o, z) at h))
    | inr (k, e) ↦
        let e' : some (k + 1) ≡ some n = rw (o, e) at h in
        let ih = mission_end-IsMission rest k e in
        record {
          before = m ∷ ih.before;
          mission = ih.mission;
          behind = ih.behind;
          splits = ap (◌∷◌ m) ih.splits;
          is_mission = ih.is_mission;
          size = ground (arith, ih.size);
        }
  ]
]
