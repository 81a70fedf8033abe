-- ===== src/History/Dangling/Loop.antt =====
-- The repair of libclm/history.c as a whole.
use clm.Base.{
  ℕ, zero, suc, ◌≤◌, ◌≡◌, refl, sym, ap, subst, ◌∙◌, inl, inr, Bytes, Option, none, some, List, [],
  ◌∷◌, ◌++◌, append_assoc, append-nil, length, length-append, arith, if◌then◌else◌, Bool-cases,
}
use clm.History.{Message, ToolCall, History}
use clm.History.Wire.{is_head, is_tool, HasResult, AllHaveResult, Answered, head_not_tool}
use clm.History.Dangling.{
  split_run, Batch, repair_call, repair_calls, repair_head, repair_loop, repair_dangling,
}
use clm.History.Dangling.Answers.{
  AllTool, split_run_lem, others, BatchOk, Grown, present_append, repair_call-Answers,
}

record AllAnswered (run after : History) (tcs : List ToolCall) (b b' : Batch) : Type 0 where
  kept : BatchOk after b'
  grown : Grown b b'
  answered : AllHaveResult (run ++ b'.inserted) tcs

HasResult-append : (xs ys : History) (id : Option Bytes) → HasResult xs id → HasResult (xs ++ ys) id
HasResult-append xs ys none h = tt
HasResult-append xs ys (some id) h = present_append xs ys (some id) h

AllHaveResult-append :
    (xs ys : History) (tcs : List ToolCall) → AllHaveResult xs tcs → AllHaveResult (xs ++ ys) tcs
AllHaveResult-append xs ys [] h = tt
AllHaveResult-append xs ys (tc ∷ tcs) h =
    (HasResult-append xs ys tc.id h.0, AllHaveResult-append xs ys tcs h.1)

repair_calls-AllAnswered :
    (run after : History) (tcs : List ToolCall) (b : Batch)
    → AllTool run
    → BatchOk after b
    → AllAnswered run after tcs b (repair_calls run tcs b)
unfolding repair_calls
repair_calls-AllAnswered run after [] b all k = record {
  kept = k;
  grown = record { more = []; grows = sym (append-nil b.inserted) };
  answered = tt;
}
repair_calls-AllAnswered run after (tc ∷ tcs) b all k =
    let one = repair_call-Answers run after all tc b k in
    let b1 = repair_call run tc b in
    let rest = repair_calls-AllAnswered run after tcs b1 all one.kept in
    let all_grown =
      rest.grown.grows
      ∙ ap (λ l. l ++ rest.grown.more) one.grown.grows
      ∙ append_assoc b.inserted one.grown.more rest.grown.more in
    let first : HasResult (run ++ (b1.inserted ++ rest.grown.more)) tc.id =
      rw (← append_assoc run b1.inserted rest.grown.more)
        (HasResult-append (run ++ b1.inserted) rest.grown.more tc.id one.answered) in
    record {
      kept = rest.kept;
      grown = record { more = one.grown.more ++ rest.grown.more; grows = all_grown };
      answered =
          (subst (λ l. HasResult (run ++ l) tc.id) (sym rest.grown.grows) first, rest.answered);
    }

-- At a head: what is put behind its run answers its calls.
head-AllAnswered :
    (m : Message) (rest : History)
    → AllAnswered
        (split_run rest).0
        (split_run rest).1
        m.tool_calls
        (record { inserted = []; after = (split_run rest).1; repaired = 0 })
        (repair_head m rest)
head-AllAnswered m rest =
    repair_calls-AllAnswered (split_run rest).0 (split_run rest).1 m.tool_calls
      (record { inserted = []; after = (split_run rest).1; repaired = 0 }) (split_run_lem rest).0
      (record { tools = tt; shorter = omega arith; same_others = refl })

Answered-tools : (xs ys : History) → AllTool xs → Answered ys → Answered (xs ++ ys)
Answered-tools [] ys t h = h
Answered-tools (x ∷ xs) ys t h =
    (λ e. absurd (cc (head_not_tool x e, t.0)), Answered-tools xs ys t.1 h)

after-le : (m : Message) (rest : History) → length (repair_head m rest).after ≤ length rest
after-le m rest =
    let run = (split_run rest).0 in
    let whole = ap length (split_run_lem rest).1 ∙ length-append run (split_run rest).1 in
    omega (arith, whole, (head-AllAnswered m rest).kept.shorter)

repair_loop-Answered : (fuel : ℕ) (h : History) → length h ≤ fuel → Answered (repair_loop fuel h).1
unfolding repair_loop
repair_loop-Answered zero [] l = tt
repair_loop-Answered zero (m ∷ h) l = absurd (omega arith)
repair_loop-Answered (suc fuel) [] l = tt
repair_loop-Answered (suc fuel) (m ∷ rest) l = elim (Bool-cases (is_head m)) [
  | inl head ↦
      let b = repair_head m rest in
      let a = head-AllAnswered m rest in
      let run = (split_run rest).0 in
      let out = (repair_loop fuel b.after).1 in
      let ih : Answered out = repair_loop-Answered fuel b.after (omega (arith, after-le m rest)) in
      let here : AllHaveResult (run ++ (b.inserted ++ out)) m.tool_calls =
        rw (← append_assoc run b.inserted out)
          (AllHaveResult-append (run ++ b.inserted) out m.tool_calls a.answered) in
      rw head (
        λ e. here,
        Answered-tools run (b.inserted ++ out) (split_run_lem rest).0
            (Answered-tools b.inserted out a.kept.tools ih),
      )
  | inr other ↦ rw other (λ e. absurd (cc (e, other)), repair_loop-Answered fuel rest (omega arith))
]

-- After the repair every call that has an id has its result in the run of tool messages right
-- behind the message that makes it.
pub repair_dangling-Answered : (h : History) → Answered (repair_dangling h).1
unfolding repair_dangling
repair_dangling-Answered h = repair_loop-Answered (length h) h (omega arith)

others-append : (xs ys : History) → others (xs ++ ys) ≡ others xs ++ others ys
others-append [] ys = refl
others-append (x ∷ xs) ys = elim (Bool-cases (is_tool x)) [
  | inl t ↦ rw t (others-append xs ys)
  | inr o ↦ rw o (ap (◌∷◌ x) (others-append xs ys))
]

others-tools : (xs ys : History) → AllTool xs → others (xs ++ ys) ≡ others ys
others-tools [] ys t = refl
others-tools (x ∷ xs) ys t = rw t.0 (others-tools xs ys t.1)

repair_loop-others :
    (fuel : ℕ) (h : History) → length h ≤ fuel → others (repair_loop fuel h).1 ≡ others h
unfolding repair_loop
repair_loop-others zero h l = refl
repair_loop-others (suc fuel) [] l = refl
repair_loop-others (suc fuel) (m ∷ rest) l = elim (Bool-cases (is_head m)) [
  | inl head ↦
      let b = repair_head m rest in
      let a = head-AllAnswered m rest in
      let (run, after) = split_run rest in
      let out = (repair_loop fuel b.after).1 in
      let ih = repair_loop-others fuel b.after (omega (arith, after-le m rest)) in
      let (tools, whole) = split_run_lem rest in
      let left =
        others-tools run (b.inserted ++ out) tools ∙ others-tools b.inserted out a.kept.tools in
      let right : others rest ≡ others after = ap others whole ∙ others-tools run after tools in
      let same = left ∙ ih ∙ a.kept.same_others ∙ sym right in
      rw (head, head_not_tool m head) (ap (◌∷◌ m) same)
  | inr other ↦
      let ih = repair_loop-others fuel rest (omega arith) in
      rw other (ap (λ o. if is_tool m then o else m ∷ o) ih)
]

-- The repair neither loses nor reorders a message that is no tool result.
pub repair_dangling-others : (h : History) → others (repair_dangling h).1 ≡ others h
unfolding repair_dangling
repair_dangling-others h = repair_loop-others (length h) h (omega arith)
