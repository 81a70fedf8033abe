-- ===== src/History/Compact/Shape.antt =====
-- What `clm_history_compact` of libclm/history.c folds, and the shape of what is left.
use mathlib.Core.List.{reverse}
use clm.Base.{
  ℕ, zero, suc, ◌+◌, ◌-◌, ◌<◌, ◌≡◌, refl, sym, ap, subst, ◌∙◌, ◌⊎◌, inl, inr, Bytes, true, false,
  Option, none, some, [], ◌∷◌, ◌++◌, append_assoc, append-nil, length, length-append, take, drop,
  take-length_append, drop-length_append, arith, ◌==◌, Bool-cases,
}
use clm.History.{user, Message, History, Compressor, create}
use clm.History.Content.{set_content-SameFrame}
use clm.History.Wire.{
  is_head, is_tool, is_user, IsClosed, IsWire, IsWire-fold, user_not_tool, head_not_tool,
}
use clm.History.Compact.{
  ok, result_or, find_back, split_prologue, mission_end, start_of, past_start, exchange_cut,
  user_cut, choose_cut, summary_message, fold_range, fold_at, compact_split, compact,
}
use clm.History.Compact.Walk.{
  count, IsCut, find_back-IsCut, AllSystem, IsPrologue, split_prologue_lem, AllSystem-IsClosed,
  IsClosed-user, mission_end-IsMission,
}

-- What a fold did: `before` and all from `here` on stand as they did, and `old` has given way to the
-- summary. Either `here` is the `keep`-th user message from the end, and only system messages stand
-- before the fold, or it is the `keep`-th exchange head from the end.
pub record Folded (h : History) (summ : Message) (keep n : ℕ) (h' : History) : Type 0 where
  pub before : History
  pub old : History
  pub here : Message
  pub behind : History
  pub was : h ≡ before ++ (old ++ here ∷ behind)
  pub is_now : h' ≡ before ++ (summ ∷ here ∷ behind)
  pub size : length old ≡ n
  pub some_old : 0 < n
  pub closed : IsClosed before
  pub boundary :
      (AllSystem before × (is_user here ≡ true) × (count is_user (here ∷ behind) ≡ keep))
      ⊎ ((is_head here ≡ true) × (count is_head (here ∷ behind) ≡ keep))

pub fold_range_lem :
    (sys rest pre old behind : History) (here : Message) (start cut : ℕ) (summary : Bytes)
    (cz : Option Compressor)
    → rest ≡ pre ++ (old ++ here ∷ behind)
    → length pre ≡ start
    → start + length old ≡ cut
    → fold_range sys rest start cut summary cz
      ≡ (length old, sys ++ pre ++ summary_message summary cz ∷ here ∷ behind)
unfolding fold_range
fold_range_lem sys rest pre old behind here start cut summary cz e k l =
    let front : take start rest ≡ pre =
      rw (e, ← k) (take-length_append pre (old ++ here ∷ behind)) in
    let whole : rest ≡ (pre ++ old) ++ here ∷ behind =
      e ∙ sym (append_assoc pre old (here ∷ behind)) in
    let far : length (pre ++ old) ≡ cut = length-append pre old ∙ omega arith in
    let back : drop cut rest ≡ here ∷ behind =
      rw (whole, ← far) (drop-length_append (pre ++ old) (here ∷ behind)) in
    let size : cut - start ≡ length old = omega arith in rw (front, back, size)

abbrev pub Outcome : History → Message → ℕ → ℕ × History → Type 0
Outcome h summ keep r = ((r.0 ≡ 0) × (r.1 ≡ h)) ⊎ Folded h summ keep r.0 r.1

-- What stays in front of an exchange cut: all up to the mission.
record Front (rest : History) (start : ℕ) : Type 0 where
  pre : History
  tail : History
  splits : rest ≡ pre ++ tail
  size : length pre ≡ start
  closed : IsClosed pre

mission-Front : (rest : History) (o : Option ℕ) → mission_end rest ≡ o → Front rest (start_of o)
mission-Front rest none e = record {
  pre = [];
  tail = rest;
  splits = refl;
  size = refl;
  closed = tt;
}
mission-Front rest (some n) e =
    let m = mission_end-IsMission rest n e in
    record {
      pre = m.before ++ m.mission ∷ [];
      tail = m.behind;
      splits = m.splits ∙ sym (append_assoc m.before (m.mission ∷ []) m.behind);
      size = length-append m.before (m.mission ∷ []) ∙ m.size;
      closed = IsClosed-user m.before m.mission m.is_mission;
    }

module _ (h sys rest : History) (summary : Bytes) (cz : Option Compressor) (keep : ℕ)
    (pro : IsPrologue h sys rest) where
  abbrev summ : Message
  summ = summary_message summary cz

  abbrev at_cut : Option (ℕ × ℕ) → ℕ × History
  at_cut o = fold_at h sys rest o summary cz

  sys-IsClosed : IsClosed sys
  sys-IsClosed = rw (← append-nil sys) (AllSystem-IsClosed sys [] pro.systems tt)

  user-Folded :
      (c : ℕ) → IsCut is_user keep rest (suc c) → Outcome h summ keep (at_cut (some (0, suc c)))
  user-Folded c cut =
      let fold =
        fold_range_lem sys rest [] cut.before cut.behind cut.here 0 (suc c) summary cz cut.splits
          refl (omega (arith, cut.size)) in
      rw fold (
        inr (record {
          before = sys;
          old = cut.before;
          here = cut.here;
          behind = cut.behind;
          was = pro.splits ∙ ap (◌++◌ sys) cut.splits;
          is_now = ap (λ l. l ++ summ ∷ cut.here ∷ cut.behind) (append-nil sys);
          size = refl;
          some_old = omega (arith, cut.size);
          closed = sys-IsClosed;
          boundary = inl (pro.systems, cut.holds, cut.kept);
        }))

  head-Folded :
      (start c : ℕ)
      → Front rest start
      → IsCut is_head keep (drop start rest) (suc c)
      → Outcome h summ keep (at_cut (some (start, start + suc c)))
  head-Folded start c f cut =
      let tail_is : drop start rest ≡ f.tail =
        rw (f.splits, ← f.size) (drop-length_append f.pre f.tail) in
      let splits : rest ≡ f.pre ++ (cut.before ++ cut.here ∷ cut.behind) =
        f.splits ∙ ap (◌++◌ f.pre) (sym tail_is ∙ cut.splits) in
      let fold =
        fold_range_lem sys rest f.pre cut.before cut.behind cut.here start (start + suc c) summary
          cz splits f.size (omega (arith, cut.size)) in
      rw fold (
        inr (record {
          before = sys ++ f.pre;
          old = cut.before;
          here = cut.here;
          behind = cut.behind;
          was = pro.splits ∙ ap (◌++◌ sys) splits ∙ sym (append_assoc sys f.pre _);
          is_now = refl;
          size = refl;
          some_old = omega (arith, cut.size);
          closed = AllSystem-IsClosed sys f.pre pro.systems f.closed;
          boundary = inr (cut.holds, cut.kept);
        }))

  past-Outcome :
      (start : ℕ) (o : Option ℕ)
      → Front rest start
      → find_back is_head keep 0 (reverse (drop start rest)) ≡ o
      → Outcome h summ keep (at_cut (past_start start o))
  past-Outcome start none f e = inl (refl, refl)
  past-Outcome start (some zero) f e = inl (refl, refl)
  past-Outcome start (some (suc c)) f e =
      head-Folded start c f (find_back-IsCut is_head keep (drop start rest) (suc c) e)

  exchange-Outcome : Outcome h summ keep (at_cut (exchange_cut rest keep))
  unfolding exchange_cut
  exchange-Outcome =
      let start = start_of (mission_end rest) in
      elim (Bool-cases (start == length rest)) [
        | inl full ↦ rw full (inl (refl, refl))
        | inr more ↦ rw more (
            past-Outcome start (find_back is_head keep 0 (reverse (drop start rest)))
              (mission-Front rest (mission_end rest) refl) refl)
      ]

  user-Outcome :
      (o : Option ℕ)
      → find_back is_user keep 0 (reverse rest) ≡ o
      → Outcome h summ keep (at_cut (user_cut rest keep o))
  user-Outcome none e = exchange-Outcome
  user-Outcome (some zero) e = exchange-Outcome
  user-Outcome (some (suc c)) e = user-Folded c (find_back-IsCut is_user keep rest (suc c) e)

compact_split-Outcome :
    (h sys rest : History) (summary : Bytes) (cz : Option Compressor) (keep : ℕ)
    → IsPrologue h sys rest
    → Outcome h (summary_message summary cz) keep (compact_split h sys rest keep summary cz)
unfolding choose_cut
compact_split-Outcome h sys [] summary cz keep pro = inl (refl, refl)
compact_split-Outcome h sys (m ∷ rest) summary cz keep pro =
    user-Outcome h sys (m ∷ rest) summary cz keep pro
      (find_back is_user keep 0 (reverse (m ∷ rest))) refl

-- A compaction that does not fail folds nothing and leaves the history as it is, or it puts the
-- summary in the place of the messages that it counts and keeps all others, where the cut is the
-- `keep`-th user message or else the `keep`-th exchange head from the end.
pub compact-Outcome :
    (h : History) (summary : Bytes) (keep n : ℕ) (cz : Option Compressor) (h' : History)
    → compact h (some summary) keep cz ≡ ok (n, h')
    → Outcome h (summary_message summary cz) keep (n, h')
unfolding compact
compact-Outcome h summary keep n cz h' e = elim (Bool-cases (keep == 0)) [
  | inl z ↦ absurd (cc (rw z at e))
  | inr nz ↦
      let pro = split_prologue_lem h in
      let (sys, rest) = split_prologue h in
      let r : compact_split h sys rest keep summary cz ≡ (n, h') =
        ap (result_or (n, h')) (rw nz at e) in
      subst (Outcome h (summary_message summary cz) keep) r
        (compact_split-Outcome h sys rest summary cz keep pro)
]

boundary_not_tool :
    {A B C : Type 0} (m : Message)
    → (A × (is_user m ≡ true) × B) ⊎ ((is_head m ≡ true) × C)
    → is_tool m ≡ false
boundary_not_tool m (inl (s, u, k)) = user_not_tool m u
boundary_not_tool m (inr (e, k)) = head_not_tool m e

pub summary-is_user :
    (summary : Bytes) (cz : Option Compressor) → is_user (summary_message summary cz) ≡ true
summary-is_user summary cz = rw (set_content-SameFrame (create user) (some summary) cz).role refl

Folded-IsWire :
    (h : History) (summary : Bytes) (cz : Option Compressor) (keep n : ℕ) (h' : History)
    → Folded h (summary_message summary cz) keep n h'
    → IsWire h
    → IsWire h'
Folded-IsWire h summary cz keep n h' f w =
    let here_not_tool : is_tool f.here ≡ false = boundary_not_tool f.here f.boundary in
    rw f.is_now (
      IsWire-fold f.before f.old f.behind (summary_message summary cz) f.here
        (summary-is_user summary cz) here_not_tool f.closed (rw (← f.was) w))

-- Compaction keeps the shape that providers accept: no tool result loses its call, and no call its
-- result.
pub compact-IsWire :
    (h : History) (summary : Bytes) (keep n : ℕ) (cz : Option Compressor) (h' : History)
    → compact h (some summary) keep cz ≡ ok (n, h')
    → IsWire h
    → IsWire h'
compact-IsWire h summary keep n cz h' e w = elim (compact-Outcome h summary keep n cz h' e) [
  | inl (z, same) ↦ rw same w
  | inr f ↦ Folded-IsWire h summary cz keep n h' f w
]
