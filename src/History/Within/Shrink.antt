-- ===== src/History/Within/Shrink.antt =====
-- What `clm_history_compact_within` of libclm/history.c folds, and the size of what is left.
use mathlib.Core.List.{reverse, reverse-reverse, append-nil}
use clm.Base.{
  ℕ, zero, suc, ◌+◌, ◌/◌, ◌≤◌, ◌<◌, ◌≡◌, refl, sym, ap, subst, ◌∙◌, ◌⊎◌, inl, inr, Bytes, true,
  false, Option, none, some, [], ◌∷◌, ◌++◌, length, take, take-length_append, arith, leb,
  Bool-cases,
}
use clm.Utf8.Chars.{AreBytes}
use clm.Utf8.Repair.{IsText}
use clm.History.{user, Message, History, Compressor, create}
use clm.History.Content.{set_content-SameFrame, set_content_len-le}
use clm.History.Compact.{ok, result_or, split_prologue, fold_at, summary_message}
use clm.History.Compact.Walk.{AllSystem, IsPrologue, split_prologue_lem, AllSystem-IsClosed}
use clm.History.Compact.Shape.{fold_range_lem, summary-is_user}
use clm.History.Wire.{is_user, is_tool, IsWire, IsWire-fold, user_not_tool, head_not_tool}
use clm.History.Within.{
  calls_bytes, total_bytes, message_bytes, is_cut_point, walk_back, step_forward, or_newest,
  worth_folding, capped, choose_within, within_split, compact_within,
}
use clm.History.Within.Kept.{IsPlace, kept_bytes, count_points, Fits, IsNewest, walk_back-FoundBoth}

-- What is kept fits the budget and half of what there was, or starts at the last place of all.
abbrev pub IsKept : History → ℕ → History → Type 0
IsKept rest keep [] = ⊥
IsKept rest keep (here ∷ behind) =
    (total_bytes (here ∷ behind) ≤ capped keep (total_bytes rest)) ⊎ (count_points behind ≡ 0)

-- What a sized fold did: the system messages and all from `here` on stand as they did.
pub record Sized (h : History) (summary : Bytes) (keep : ℕ) (summ : Message) (n : ℕ) (h' : History)
    : Type 0 where
  pub sys : History
  pub old : History
  pub here : Message
  pub behind : History
  pub was : h ≡ sys ++ (old ++ here ∷ behind)
  pub is_now : h' ≡ sys ++ (summ ∷ here ∷ behind)
  pub systems : AllSystem sys
  pub size : length old ≡ n
  pub some_old : 0 < n
  pub is_point : is_cut_point here ≡ true
  pub kept : IsKept (old ++ here ∷ behind) keep (here ∷ behind)
  pub worth_it : length summary + 32 < total_bytes old

abbrev pub SizedOutcome : History → Bytes → ℕ → Message → ℕ × History → Type 0
SizedOutcome h summary keep summ r = ((r.0 ≡ 0) × (r.1 ≡ h)) ⊎ Sized h summary keep summ r.0 r.1

-- A place that may be chosen.
abbrev Choice : History → ℕ → Option ℕ → Type 0
Choice rest keep none = Unit
Choice rest keep (some c) =
    (p : IsPlace rest c) × ((kept_bytes p ≤ capped keep (total_bytes rest))
      ⊎ (count_points p.behind ≡ 0))

message_bytes_pos : (m : Message) → 0 < message_bytes m
unfolding message_bytes
message_bytes_pos m = omega arith

capped-le-half : (keep total : ℕ) → capped keep total ≤ total / 2
capped-le-half keep total = ground arith

-- All of the rest never fits half of it, so the step forward is never taken.
no_step :
    (m : Message) (rest : History) (keep : ℕ) (o : Option ℕ)
    → Fits (m ∷ rest) (capped keep (total_bytes (m ∷ rest))) o
    → step_forward (m ∷ rest) o ≡ o
unfolding total_bytes
no_step m rest keep none f = refl
no_step m rest keep (some (suc c)) f = refl
no_step m rest keep (some zero) (p, k) = absurd (whole p.before p.splits p.size)
  where
    whole : (before : History) → m ∷ rest ≡ before ++ p.here ∷ p.behind → length before ≡ 0 → ⊥
    whole [] e z =
        let same : total_bytes (m ∷ rest) ≡ kept_bytes p = ap total_bytes e in
        omega (arith, same, capped-le-half keep (total_bytes (m ∷ rest)), message_bytes_pos m)
    whole (b ∷ before) e z = omega arith

Choice-of :
    (rest : History) (keep : ℕ) (cut newest : Option ℕ)
    → Fits rest (capped keep (total_bytes rest)) cut
    → IsNewest rest rest newest
    → Choice rest keep (or_newest cut newest)
Choice-of rest keep none none f n = tt
Choice-of rest keep none (some c) f (p, z) = (p, inr z)
Choice-of rest keep (some c) newest (p, k) n = (p, inl k)

module _ (h sys rest : History) (summary : Bytes) (cz : Option Compressor) (keep : ℕ)
    (pro : IsPrologue h sys rest) where
  abbrev summ : Message
  summ = summary_message summary cz

  fold-Sized :
      (c : ℕ)
      → Choice rest keep (some (suc c))
      → length summary + 32 < total_bytes (take (suc c) rest)
      → SizedOutcome h summary keep summ (fold_at h sys rest (some (0, suc c)) summary cz)
  fold-Sized c (p, k) w =
      let fold =
        fold_range_lem sys rest [] p.before p.behind p.here 0 (suc c) summary cz p.splits refl
          (omega (arith, p.size)) in
      let old_is : take (suc c) rest ≡ p.before =
        rw (p.splits, ← p.size) (take-length_append p.before (p.here ∷ p.behind)) in
      rw fold (
        inr (record {
          sys = sys;
          old = p.before;
          here = p.here;
          behind = p.behind;
          was = pro.splits ∙ ap (◌++◌ sys) p.splits;
          is_now = ap (λ l. l ++ summ ∷ p.here ∷ p.behind) (append-nil sys);
          systems = pro.systems;
          size = refl;
          some_old = omega (arith, p.size);
          is_point = p.is_point;
          kept = rw (← p.splits) k;
          worth_it = rw (← old_is) w;
        }))

  worth-Outcome :
      (o : Option ℕ)
      → Choice rest keep o
      → SizedOutcome h summary keep summ
          (fold_at h sys rest (worth_folding rest summary o) summary cz)
  worth-Outcome none k = inl (refl, refl)
  worth-Outcome (some zero) k = inl (refl, refl)
  worth-Outcome (some (suc c)) k =
      elim (Bool-cases (leb (total_bytes (take (suc c) rest)) (length summary + 32))) [
        | inl small ↦ rw small (inl (refl, refl))
        | inr large ↦ rw large (fold-Sized c k (ground arith))
      ]

within_split-Outcome :
    (h sys rest : History) (summary : Bytes) (cz : Option Compressor) (keep min_turns : ℕ)
    → IsPrologue h sys rest
    → SizedOutcome h summary keep
        (summary_message summary cz)
        (within_split h sys rest summary keep min_turns cz)
unfolding choose_within total_bytes
within_split-Outcome h sys [] summary cz keep min_turns pro = inl (refl, refl)
within_split-Outcome h sys (m ∷ rest) summary cz keep min_turns pro =
    let all = m ∷ rest in
    let budget = capped keep (total_bytes all) in
    let w = walk_back budget min_turns (reverse all) 0 0 none none in
    let found =
      walk_back-FoundBoth budget min_turns all (reverse all) [] 0 0 none none
        (sym (append-nil _ ∙ reverse-reverse all)) (omega arith) tt refl in
    rw (no_step m rest keep w.cut found.fits) (
      worth-Outcome h sys all summary cz keep pro (or_newest w.cut w.newest_cut)
        (Choice-of all keep w.cut w.newest_cut found.fits found.newest))

-- The sized compaction folds nothing and leaves the history as it is, or it folds at a boundary and
-- keeps what fits the budget and half of what there was, or else the newest exchange.
pub compact_within-Outcome :
    (h : History) (summary : Bytes) (keep min_turns n : ℕ) (cz : Option Compressor) (h' : History)
    → compact_within h (some summary) keep min_turns cz ≡ ok (n, h')
    → SizedOutcome h summary keep (summary_message summary cz) (n, h')
unfolding compact_within
compact_within-Outcome h summary keep min_turns n cz h' e =
    let (sys, rest) = split_prologue h in
    subst (SizedOutcome h summary keep (summary_message summary cz)) (ap (result_or (n, h')) e)
      (within_split-Outcome h sys rest summary cz keep min_turns (split_prologue_lem h))

point_not_tool : (m : Message) → is_cut_point m ≡ true → is_tool m ≡ false
point_not_tool m h = elim (Bool-cases (is_user m)) [
  | inl u ↦ user_not_tool m u
  | inr o ↦ head_not_tool m (rw o at h)
]

-- The sized compaction keeps the shape that providers accept.
pub compact_within-IsWire :
    (h : History) (summary : Bytes) (keep min_turns n : ℕ) (cz : Option Compressor) (h' : History)
    → compact_within h (some summary) keep min_turns cz ≡ ok (n, h')
    → IsWire h
    → IsWire h'
compact_within-IsWire h summary keep min_turns n cz h' e w =
    elim (compact_within-Outcome h summary keep min_turns n cz h' e) [
      | inl (z, same) ↦ rw same w
      | inr f ↦ rw f.is_now (
          IsWire-fold f.sys f.old f.behind (summary_message summary cz) f.here
            (summary-is_user summary cz) (point_not_tool f.here f.is_point)
            (rw (← append-nil f.sys) (AllSystem-IsClosed f.sys [] f.systems tt)) (rw (← f.was) w))
    ]

total-append : (xs ys : History) → total_bytes (xs ++ ys) ≡ total_bytes xs + total_bytes ys
unfolding total_bytes
total-append [] ys = omega arith
total-append (x ∷ xs) ys = omega (arith, total-append xs ys)

summary_bytes-le :
    (s : Bytes) (cz : Option Compressor)
    → AreBytes s
    → IsText s
    → message_bytes (summary_message s cz) ≤ length s + 32
unfolding message_bytes calls_bytes
summary_bytes-le s cz w t =
    let calls : calls_bytes (summary_message s cz).tool_calls ≡ 0 =
      ap calls_bytes (set_content-SameFrame (create user) (some s) cz).tool_calls in
    omega (arith, calls, set_content_len-le (create user) s cz w t)

-- A fold makes the history smaller: where messages were folded into a summary that is valid UTF-8,
-- the estimated size of the history has gone down. So a caller that folds while it is too large
-- stops.
pub compact_within-shrinks :
    (h : History) (summary : Bytes) (keep min_turns n : ℕ) (cz : Option Compressor) (h' : History)
    → AreBytes summary
    → IsText summary
    → compact_within h (some summary) keep min_turns cz ≡ ok (n, h')
    → 0 < n
    → total_bytes h' < total_bytes h
unfolding total_bytes
compact_within-shrinks h summary keep min_turns n cz h' w t e pos =
    elim (compact_within-Outcome h summary keep min_turns n cz h' e) [
      | inl (z, same) ↦ absurd (omega arith)
      | inr f ↦
          let kept = f.here ∷ f.behind in
          let before = ap total_bytes f.was ∙ total-append f.sys (f.old ++ kept) in
          let after =
            ap total_bytes f.is_now ∙ total-append f.sys (summary_message summary cz ∷ kept) in
          omega (
            arith,
            before,
            after,
            total-append f.old kept,
            f.worth_it,
            summary_bytes-le summary cz w t,
          )
    ]
