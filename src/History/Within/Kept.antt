-- ===== src/History/Within/Kept.antt =====
-- What the sized compaction keeps.
use mathlib.Core.List.{reverse, reverse-append}
use clm.Base.{
  length-reverse, ℕ, ◌+◌, ◌≤◌, ◌≡◌, refl, sym, ap, subst, ◌∙◌, inl, inr, Bytes, Bool, true, false,
  ◌&&◌, Option, none, some, [], ◌∷◌, ◌++◌, append_assoc, length, arith, if◌then◌else◌, ltb, leb,
  Bool-cases,
}
use clm.History.{Message, History, Compressor}
use clm.History.Compact.{ok, split_prologue, fold_at}
use clm.History.Wire.{is_user}
use clm.History.Within.{
  total_bytes, message_bytes, is_cut_point, Walked, first_set, walk_back, step_forward, or_newest,
  worth_folding, within_split, capped, choose_within, compact_within,
}

-- A place where the history can be cut.
pub record IsPlace (rest : History) (c : ℕ) : Type 0 where
  pub before : History
  pub here : Message
  pub behind : History
  pub splits : rest ≡ before ++ here ∷ behind
  pub size : length before ≡ c
  pub is_point : is_cut_point here ≡ true

abbrev pub kept_bytes : {rest : History} {c : ℕ} → IsPlace rest c → ℕ
kept_bytes p = total_bytes (p.here ∷ p.behind)

never : (u l : Bool) → (u && (l && false)) ≡ false
never true true = refl
never true false = refl
never false l = refl

-- The turns counted so far, with this message.
abbrev turns_with : Message → ℕ → ℕ
turns_with m turns = if is_user m then turns + 1 else turns

-- A turn of the walk: the guard on the number of turns never holds behind the one on the size.
walk_back_step :
    (keep min_turns : ℕ) (m : Message) (before : History) (bytes turns : ℕ) (cut newest : Option ℕ)
    → walk_back keep min_turns (m ∷ before) bytes turns cut newest ≡ (
        if is_cut_point m
        then (if ltb keep (bytes + message_bytes m)
            then record { cut = cut; newest_cut = first_set newest (length before) }
            else walk_back keep min_turns before
                (bytes + message_bytes m)
                (turns_with m turns)
                (some (length before))
                (first_set newest (length before)))
        else walk_back keep min_turns before (bytes + message_bytes m) turns cut newest)
unfolding walk_back
walk_back_step keep min_turns m before bytes turns cut newest = elim (Bool-cases (is_cut_point m)) [
  | inr not_point ↦ rw not_point refl
  | inl point ↦ elim (Bool-cases (ltb keep (bytes + message_bytes m))) [
    | inl past ↦ rw (point, past) refl
    | inr fits ↦ rw (point, fits, never (is_user m) (leb min_turns (turns_with m turns))) refl
  ]
]

walk_back_turns :
    (keep a b : ℕ) (back : History) (bytes ta tb : ℕ) (cut newest : Option ℕ)
    → walk_back keep a back bytes ta cut newest ≡ walk_back keep b back bytes tb cut newest
walk_back_turns keep a b [] bytes ta tb cut newest = unfold walk_back in refl
walk_back_turns keep a b (m ∷ before) bytes ta tb cut newest =
    let skip = walk_back_turns keep a b before (bytes + message_bytes m) ta tb cut newest in
    let further =
      walk_back_turns keep a b before (bytes + message_bytes m) (turns_with m ta) (turns_with m tb)
        (some (length before)) (first_set newest (length before)) in
    walk_back_step keep a m before bytes ta cut newest
    ∙ cc (skip, further)
    ∙ sym (walk_back_step keep b m before bytes tb cut newest)

within_split_turns :
    (h sys rest : History) (summary : Bytes) (keep_bytes a b : ℕ) (cz : Option Compressor)
    → within_split h sys rest summary keep_bytes a cz
      ≡ within_split h sys rest summary keep_bytes b cz
unfolding choose_within
within_split_turns h sys [] summary keep_bytes a b cz = refl
within_split_turns h sys (m ∷ rest) summary keep_bytes a b cz =
    ap
      (λ w.
        fold_at h sys (m ∷ rest)
          (worth_folding (m ∷ rest) summary
            (or_newest (step_forward (m ∷ rest) w.cut) w.newest_cut))
          summary cz)
      (walk_back_turns (capped keep_bytes (total_bytes (m ∷ rest))) a b (reverse (m ∷ rest)) 0 0 0
        none none)

-- The parameter `keep_min_turns` changes nothing: the history and the count that come back are the
-- same for every value of it.
pub compact_within_turns :
    (h : History) (summary : Option Bytes) (keep_bytes a b : ℕ) (cz : Option Compressor)
    → compact_within h summary keep_bytes a cz ≡ compact_within h summary keep_bytes b cz
unfolding compact_within
compact_within_turns h none keep_bytes a b cz = refl
compact_within_turns h (some summary) keep_bytes a b cz =
    let (sys, rest) = split_prologue h in
    ap ok (within_split_turns h sys rest summary keep_bytes a b cz)

abbrev pub count_points : History → ℕ
count_points [] = 0
count_points (m ∷ h) = (if is_cut_point m then 1 else 0) + count_points h

-- What the walk has found: a place behind which `keep` is not passed, and the last place of all.
abbrev pub Fits : History → ℕ → Option ℕ → Type 0
Fits rest keep none = Unit
Fits rest keep (some c) = (p : IsPlace rest c) × (kept_bytes p ≤ keep)

abbrev pub IsNewest : History → History → Option ℕ → Type 0
IsNewest rest behind none = count_points behind ≡ 0
IsNewest rest behind (some c) = (p : IsPlace rest c) × (count_points p.behind ≡ 0)

-- The message that the walk is at, as a place.
place :
    (rest before behind : History) (m : Message)
    → rest ≡ reverse before ++ m ∷ behind
    → is_cut_point m ≡ true
    → IsPlace rest (length before)
place rest before behind m e point = record {
  before = reverse before;
  here = m;
  behind = behind;
  splits = e;
  size = length-reverse before;
  is_point = point;
}

IsNewest-at :
    (rest before behind : History) (m : Message) (newest : Option ℕ)
    → rest ≡ reverse before ++ m ∷ behind
    → is_cut_point m ≡ true
    → IsNewest rest behind newest
    → IsNewest rest (m ∷ behind) (first_set newest (length before))
unfolding place
IsNewest-at rest before behind m none e point z = (place rest before behind m e point, z)
IsNewest-at rest before behind m (some c) e point p = p

IsNewest-skip :
    (rest behind : History) (m : Message) (newest : Option ℕ)
    → is_cut_point m ≡ false
    → IsNewest rest behind newest
    → IsNewest rest (m ∷ behind) newest
IsNewest-skip rest behind m none o z = rw o (omega arith)
IsNewest-skip rest behind m (some c) o p = p

IsNewest-any :
    (rest a b : History) (o : Option ℕ) (k : ℕ)
    → IsNewest rest a (first_set o k)
    → IsNewest rest b (first_set o k)
IsNewest-any rest a b none k n = n
IsNewest-any rest a b (some c) k n = n

pub record FoundBoth (rest : History) (keep : ℕ) (w : Walked) : Type 0 where
  pub fits : Fits rest keep w.cut
  pub newest : IsNewest rest rest w.newest_cut

pub walk_back-FoundBoth :
    (keep min_turns : ℕ) (rest back behind : History) (bytes turns : ℕ) (cut newest : Option ℕ)
    → rest ≡ reverse back ++ behind
    → bytes ≡ total_bytes behind
    → Fits rest keep cut
    → IsNewest rest behind newest
    → FoundBoth rest keep (walk_back keep min_turns back bytes turns cut newest)
unfolding walk_back total_bytes place
walk_back-FoundBoth keep min_turns rest [] behind bytes turns cut newest e b f n = record {
  fits = f;
  newest = subst (λ b. IsNewest rest b newest) (sym e) n;
}
walk_back-FoundBoth keep min_turns rest (m ∷ before) behind bytes turns cut newest e b f n =
    let e' : rest ≡ reverse before ++ m ∷ behind =
      e
      ∙ ap (λ l. l ++ behind) (reverse-append (m ∷ []) before)
      ∙ append_assoc (reverse before) (m ∷ []) behind in
    let b' : bytes + message_bytes m ≡ total_bytes (m ∷ behind) = omega arith in
    rw (walk_back_step keep min_turns m before bytes turns cut newest)
      (elim (Bool-cases (is_cut_point m)) [
        | inr not_point ↦ rw not_point (
            walk_back-FoundBoth keep min_turns rest before (m ∷ behind) (bytes + message_bytes m)
              turns cut newest e' b' f (IsNewest-skip rest behind m newest not_point n))
        | inl point ↦
            let n' = IsNewest-at rest before behind m newest e' point n in
            elim (Bool-cases (ltb keep (bytes + message_bytes m))) [
              | inl past ↦
                  rw (point, past)
                    (record {
                      fits = f;
                      newest = IsNewest-any rest (m ∷ behind) rest newest (length before) n';
                    })
              | inr fits ↦
                  let here = place rest before behind m e' point in
                  rw (point, fits)
                    (walk_back-FoundBoth keep min_turns rest before (m ∷ behind)
                      (bytes + message_bytes m) (turns_with m turns) (some (length before))
                      (first_set newest (length before)) e' b' (here, ground (arith, fits)) n')
            ]
      ])
