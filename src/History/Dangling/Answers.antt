-- ===== src/History/Dangling/Answers.antt =====
-- The step of the repair of libclm/history.c at one head: the run, what is put behind it, and what is left.
use clm.Base.{
  suc, ◌≤◌, ◌≡◌, refl, sym, ap, ◌∙◌, inl, inr, Bytes, true, ◌&&◌, Option, none, some, [], ◌∷◌, ◌++◌,
  append_assoc, append-nil, length, names, bytes_eq_refl, arith, if◌then◌else◌, Bool-cases,
  Option-cases,
}
use clm.History.{tool, Message, ToolCall, History, create}
use clm.History.Content.{set_content-SameFrame}
use clm.History.Wire.{is_tool, tool_result_present, HasResult}
use clm.History.Dangling.{
  split_run, synth, take_late, behind_first, Batch, seen, put, repair_call, missing_text,
}

abbrev pub AllTool : History → Type 0
AllTool [] = Unit
AllTool (m ∷ h) = (is_tool m ≡ true) × AllTool h

AllTool-append : (xs ys : History) → AllTool xs → AllTool ys → AllTool (xs ++ ys)
AllTool-append [] ys h k = k
AllTool-append (x ∷ xs) ys h k = (h.0, AllTool-append xs ys h.1 k)

-- Behind a run of tool messages comes something else, and the two are the list.
pub split_run_lem :
    (h : History) → AllTool (split_run h).0 × (h ≡ (split_run h).0 ++ (split_run h).1)
unfolding split_run
split_run_lem [] = (tt, refl)
split_run_lem (m ∷ h) = elim (Bool-cases (is_tool m)) [
  | inl t ↦ let (all, e) = split_run_lem h in rw t ((t, all), ap (◌∷◌ m) e)
  | inr o ↦ rw o (tt, refl)
]

-- A message that answers `id`.
abbrev Answering : Message → Bytes → Type 0
Answering m id = (is_tool m ≡ true) × (names m.tool_call_id id ≡ true)

synth-Answering : (tc : ToolCall) (id : Bytes) → tc.id ≡ some id → Answering (synth tc) id
unfolding synth names
synth-Answering tc id e =
    let base = record (create tool) { tool_call_id = tc.id; tool_name = tc.name } in
    let same = set_content-SameFrame base (some missing_text) none in
    (rw same.role refl, rw (same.tool_call_id, e) (bytes_eq_refl id))

synth-is_tool : (tc : ToolCall) → is_tool (synth tc) ≡ true
unfolding synth
synth-is_tool tc =
    let base = record (create tool) { tool_call_id = tc.id; tool_name = tc.name } in
    rw (set_content-SameFrame base (some missing_text) none).role refl

-- The messages that are no tool results, in order.
abbrev pub others : History → History
others [] = []
others (m ∷ h) = if is_tool m then others h else m ∷ others h

-- A late result answers the call; without it the list is shorter by one, its others the same.
abbrev pub LateOk : History → Bytes → Option (Message × History) → Type 0
LateOk h id none = Unit
LateOk h id (some (late, h')) =
    Answering late id × (suc (length h') ≡ length h) × (others h' ≡ others h)

behind_first-LateOk :
    (m : Message) (h : History) (id : Bytes) (o : Option (Message × History))
    → LateOk h id o
    → LateOk (m ∷ h) id (behind_first m o)
behind_first-LateOk m h id none k = tt
behind_first-LateOk m h id (some (late, h')) (a, l, e) =
    (a, ap suc l, ap (λ o. if is_tool m then o else m ∷ o) e)

pub take_late-LateOk : (h : History) (id : Bytes) → LateOk h id (take_late h (some id))
unfolding take_late
take_late-LateOk [] id = tt
take_late-LateOk (m ∷ h) id = elim (Bool-cases (is_tool m && names m.tool_call_id id)) [
  | inl here ↦
      let a : Answering m id = ground (arith, here) in
      let t : is_tool m ≡ true = a.0 in rw here (a, refl, rw t refl)
  | inr other ↦
      rw other (behind_first-LateOk m h id (take_late h (some id)) (take_late-LateOk h id))
]

pub present_append :
    (xs ys : History) (id : Option Bytes)
    → tool_result_present xs id ≡ true
    → tool_result_present (xs ++ ys) id ≡ true
unfolding tool_result_present
present_append xs ys none h = cc
present_append [] ys (some id) h = cc
present_append (x ∷ xs) ys (some id) h = ground (arith, present_append xs ys (some id))

present_last :
    (xs : History) (m : Message) (id : Bytes)
    → AllTool xs
    → Answering m id
    → tool_result_present (xs ++ m ∷ []) (some id) ≡ true
unfolding tool_result_present
present_last [] m id h a = rw (a.0, a.1) refl
present_last (x ∷ xs) m id h a = ground (arith, present_last xs m id h.1 a)

seen_present :
    (run ins : History) (id : Option Bytes)
    → tool_result_present (seen run ins) id ≡ true
    → tool_result_present (run ++ ins) id ≡ true
unfolding tool_result_present
seen_present run ins none h = cc
seen_present [] ins (some id) h = absurd (cc h)
seen_present (m ∷ run) ins (some id) h = h

-- What the loop over the calls keeps: `after` is what stood behind the run at first.
pub record BatchOk (after : History) (b : Batch) : Type 0 where
  pub tools : AllTool b.inserted
  pub shorter : length b.after ≤ length after
  pub same_others : others b.after ≡ others after

-- What is put behind the run only grows.
pub record Grown (b b' : Batch) : Type 0 where
  pub more : History
  pub grows : b'.inserted ≡ b.inserted ++ more

pub record Answers (run after : History) (id : Option Bytes) (b b' : Batch) : Type 0 where
  pub kept : BatchOk after b'
  pub grown : Grown b b'
  pub answered : HasResult (run ++ b'.inserted) id

HasResult-of :
    (xs : History) (id : Option Bytes)
    → ((i : Bytes) → id ≡ some i → tool_result_present xs (some i) ≡ true)
    → HasResult xs id
HasResult-of xs none h = tt
HasResult-of xs (some i) h = h i refl

module _ (run after : History) (all : AllTool run) (tc : ToolCall) (b : Batch)
    (k : BatchOk after b) where
  last_answers :
      (m : Message) (i : Bytes)
      → Answering m i
      → tool_result_present (run ++ (b.inserted ++ m ∷ [])) (some i) ≡ true
  last_answers m i a =
      rw (← append_assoc run b.inserted (m ∷ []))
        (present_last (run ++ b.inserted) m i (AllTool-append run b.inserted all k.tools) a)

  put-Answers :
      (o : Option (Message × History))
      → ((i : Bytes) → tc.id ≡ some i → LateOk b.after i o)
      → (tc.id ≡ none → o ≡ none)
      → Answers run after tc.id b (put b tc o)
  put-Answers none late no_id = record {
    kept = record {
      tools = AllTool-append b.inserted (synth tc ∷ []) k.tools (synth-is_tool tc, tt);
      shorter = k.shorter;
      same_others = k.same_others;
    };
    grown = record { more = synth tc ∷ []; grows = refl };
    answered = HasResult-of _ tc.id (λ i e. last_answers (synth tc) i (synth-Answering tc i e));
  }
  put-Answers (some (m, rest)) late no_id = elim (Option-cases tc.id) [
    | inl z ↦ absurd (cc (no_id z))
    | inr (i, e) ↦
        let (a, l, same) = late i e in
        record {
          kept = record {
            tools = AllTool-append b.inserted (m ∷ []) k.tools (a.0, tt);
            shorter = omega (arith, l, k.shorter);
            same_others = same ∙ k.same_others;
          };
          grown = record { more = m ∷ []; grows = refl };
          answered = rw e (last_answers m i a);
        }
  ]

  take_late-none : tc.id ≡ none → take_late b.after tc.id ≡ none
  unfolding take_late
  take_late-none e = rw e refl

  pub repair_call-Answers : Answers run after tc.id b (repair_call run tc b)
  unfolding repair_call
  repair_call-Answers = elim (Bool-cases (tool_result_present (seen run b.inserted) tc.id)) [
    | inl there ↦ rw there (record {
      kept = k;
      grown = record { more = []; grows = sym (append-nil b.inserted) };
      answered = HasResult-of _ tc.id (λ i e. rw e at (seen_present run b.inserted tc.id there));
    })
    | inr missing ↦ rw missing (
        put-Answers (take_late b.after tc.id) (λ i e. rw e (take_late-LateOk b.after i))
          take_late-none)
  ]
