-- ===== src/History/Dangling/Fixed.antt =====
-- The repair of libclm/history.c on a history whose calls are answered.
use clm.Base.{
  ℕ, zero, suc, ◌≤◌, ◌≡◌, ◌≢◌, refl, sym, ap, subst, ◌∙◌, inl, inr, Bytes, true, Option, none, some,
  List, [], ◌∷◌, ◌++◌, append-nil, length, length-append, arith, Bool-cases,
}
use clm.History.{ToolCall, History}
use clm.History.Wire.{
  is_head, is_tool, tool_result_present, HasResult, AllHaveResult, Answered, Answered-drop,
}
use clm.History.Dangling.{
  split_run, Batch, seen, repair_call, repair_calls, repair_head, repair_loop, repair_dangling,
}
use clm.History.Dangling.Answers.{split_run_lem}

abbrev pub AllIds : List ToolCall → Type 0
AllIds [] = Unit
AllIds (tc ∷ tcs) = (tc.id ≢ none) × AllIds tcs

-- Every call of every exchange head has an id.
abbrev pub HasIds : History → Type 0
HasIds [] = Unit
HasIds (m ∷ rest) = (is_head m ≡ true → AllIds m.tool_calls) × HasIds rest

HasIds-drop : (xs ys : History) → HasIds (xs ++ ys) → HasIds ys
HasIds-drop [] ys h = h
HasIds-drop (x ∷ xs) ys h = HasIds-drop xs ys h.1

present-run :
    (h : History) (id : Option Bytes)
    → tool_result_present h id ≡ tool_result_present (split_run h).0 id
unfolding tool_result_present split_run
present-run h none = refl
present-run [] (some id) = refl
present-run (m ∷ h) (some id) = elim (Bool-cases (is_tool m)) [
  | inl t ↦ rw (t, present-run h (some id)) (rw t refl)
  | inr o ↦ rw o refl
]

seen_of_present :
    (run : History) (id : Option Bytes)
    → tool_result_present run id ≡ true
    → tool_result_present (seen run []) id ≡ true
seen_of_present [] id h = h
seen_of_present (m ∷ run) id h = rw (append-nil (m ∷ run)) h

empty_batch : History → Batch
empty_batch after = record { inserted = []; after = after; repaired = 0 }

result_present :
    (rest : History) (id : Option Bytes)
    → id ≢ none
    → HasResult rest id
    → tool_result_present rest id ≡ true
result_present rest none n h = absurd (n refl)
result_present rest (some id) n h = h

repair_calls-idle :
    (rest : History) (tcs : List ToolCall)
    → AllIds tcs
    → AllHaveResult rest tcs
    → repair_calls (split_run rest).0 tcs (empty_batch (split_run rest).1)
      ≡ empty_batch (split_run rest).1
unfolding repair_calls repair_call empty_batch
repair_calls-idle rest [] ids h = refl
repair_calls-idle rest (tc ∷ tcs) ids h =
    let there : tool_result_present (seen (split_run rest).0 []) tc.id ≡ true =
      seen_of_present (split_run rest).0 tc.id
        (sym (present-run rest tc.id) ∙ result_present rest tc.id ids.0 h.0) in
    rw there (repair_calls-idle rest tcs ids.1 h.1)

repair_loop-fixed :
    (fuel : ℕ) (h : History) → length h ≤ fuel → HasIds h → Answered h → repair_loop fuel h ≡ (0, h)
unfolding repair_loop empty_batch
repair_loop-fixed zero h l ids a = refl
repair_loop-fixed (suc fuel) [] l ids a = refl
repair_loop-fixed (suc fuel) (m ∷ rest) l ids a = elim (Bool-cases (is_head m)) [
  | inl head ↦
      let (run, after) = split_run rest in
      let whole = (split_run_lem rest).1 in
      let short : length after ≤ fuel = omega (arith, ap length whole ∙ length-append run after) in
      let b : repair_head m rest ≡ empty_batch after =
        repair_calls-idle rest m.tool_calls (ids.0 head) (a.0 head) in
      let ih =
        repair_loop-fixed fuel after short (HasIds-drop run after (subst HasIds whole ids.1))
          (Answered-drop run after (subst Answered whole a.1)) in
      rw (head, b, ih) (ap (λ r. (0, m ∷ r)) (sym whole))
  | inr other ↦ rw (other, repair_loop-fixed fuel rest (omega arith) ids.1 a.1) refl
]

-- Where every call has an id and is answered right behind its message, the repair inserts nothing,
-- returns 0 and leaves the history as it is.
pub repair_dangling-fixed : (h : History) → HasIds h → Answered h → repair_dangling h ≡ (0, h)
unfolding repair_dangling
repair_dangling-fixed h ids a = repair_loop-fixed (length h) h (omega arith) ids a
