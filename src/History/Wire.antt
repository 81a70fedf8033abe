-- ===== src/History/Wire.antt =====
-- The shape of a history that every provider accepts: a tool result stands in the run of tool
-- messages right behind the assistant message that called the tool.
use clm.Base.{
  Bytes, names, ◌||◌, Bool-cases, append_assoc, ◌≡◌, refl, sym, ◌∙◌, inl, inr, Bool, true, false,
  not, ◌&&◌, Option, none, some, List, [], ◌∷◌, ◌++◌, arith,
}
use clm.History.{Role, system, user, assistant, tool, Message, ToolCall, History}

abbrev pub is_role : Role → Role → Bool
is_role system system = true
is_role user user = true
is_role assistant assistant = true
is_role tool tool = true
is_role _ _ = false

-- `!TAILQ_EMPTY(&m->tool_calls)`.
abbrev pub has_calls : List ToolCall → Bool
has_calls [] = false
has_calls (tc ∷ tcs) = true

-- The assistant message that opens a tool exchange.
abbrev pub is_head : Message → Bool
is_head m = is_role m.role assistant && has_calls m.tool_calls

abbrev pub is_tool : Message → Bool
is_tool m = is_role m.role tool

abbrev pub is_user : Message → Bool
is_user m = is_role m.role user

-- `tool_result_present`: whether the run of tool messages at the front has a result for `id`.
unfoldable pub tool_result_present : History → Option Bytes → Bool
tool_result_present h none = false
tool_result_present [] (some id) = false
tool_result_present (m ∷ h) (some id) =
    is_tool m && (names m.tool_call_id id || tool_result_present h (some id))

-- Every call that has an id has its result in the run at the front of `rest`.
abbrev pub HasResult : History → Option Bytes → Type 0
HasResult rest none = Unit
HasResult rest (some id) = tool_result_present rest (some id) ≡ true

abbrev pub AllHaveResult : History → List ToolCall → Type 0
AllHaveResult rest [] = Unit
AllHaveResult rest (tc ∷ tcs) = HasResult rest tc.id × AllHaveResult rest tcs

-- Every tool call is answered right behind the message that makes it.
abbrev pub Answered : History → Type 0
Answered [] = Unit
Answered (m ∷ rest) = (is_head m ≡ true → AllHaveResult rest m.tool_calls) × Answered rest

-- `id` is that of one of the calls.
unfoldable pub is_called : List ToolCall → Option Bytes → Bool
is_called calls none = false
is_called [] (some id) = false
is_called (tc ∷ calls) (some id) = names tc.id id || is_called calls (some id)

-- The calls that a tool message behind `m` may answer, where `calls` are those open before it.
abbrev pub open_calls : Bool → List ToolCall → Message → List ToolCall
open_calls true calls m = calls
open_calls false calls m = m.tool_calls

-- Every tool message answers a call of the exchange that it stands in.
abbrev pub OrphanFree : List ToolCall → History → Type 0
OrphanFree calls [] = Unit
OrphanFree calls (m ∷ rest) =
    (is_tool m ≡ true → is_called calls m.tool_call_id ≡ true)
    × OrphanFree (open_calls (is_tool m) calls m) rest

-- What a provider accepts.
pub record IsWire (h : History) : Type 0 where
  pub answered : Answered h
  pub orphan_free : OrphanFree [] h

role_not_tool : (r : Role) → is_role r user ≡ true → is_role r tool ≡ false
role_not_tool user h = refl
role_not_tool system h = refl
role_not_tool assistant h = refl
role_not_tool tool h = cc

role_not_assistant : (r : Role) → is_role r user ≡ true → is_role r assistant ≡ false
role_not_assistant user h = refl
role_not_assistant system h = refl
role_not_assistant assistant h = cc
role_not_assistant tool h = refl

pub user_not_tool : (m : Message) → is_user m ≡ true → is_tool m ≡ false
user_not_tool m h = role_not_tool m.role h

pub user_not_head : (m : Message) → is_user m ≡ true → is_head m ≡ false
user_not_head m h = rw (role_not_assistant m.role h)

assistant_not_tool : (r : Role) → is_role r assistant ≡ true → is_role r tool ≡ false
assistant_not_tool assistant h = refl
assistant_not_tool user h = refl
assistant_not_tool system h = refl
assistant_not_tool tool h = cc

pub head_not_tool : (m : Message) → is_head m ≡ true → is_tool m ≡ false
head_not_tool m h = assistant_not_tool m.role (ground arith)

-- What stands before a message that is no tool's does not matter for what stands behind it.
OrphanFree-drop :
    (xs ys : History) (calls : List ToolCall) (m : Message)
    → is_tool m ≡ false
    → OrphanFree calls (xs ++ m ∷ ys)
    → OrphanFree [] (m ∷ ys)
OrphanFree-drop [] ys calls m t h = (λ e. absurd (cc (e, t)), rw t (rw t at h.1))
OrphanFree-drop (x ∷ xs) ys calls m t h =
    OrphanFree-drop xs ys (open_calls (is_tool x) calls x) m t h.1

OrphanFree-take :
    (xs ys : History) (calls : List ToolCall) → OrphanFree calls (xs ++ ys) → OrphanFree calls xs
OrphanFree-take [] ys calls h = tt
OrphanFree-take (x ∷ xs) ys calls h =
    (h.0, OrphanFree-take xs ys (open_calls (is_tool x) calls x) h.1)

OrphanFree-join :
    (xs ys : History) (calls : List ToolCall) (m : Message)
    → is_tool m ≡ false
    → OrphanFree calls xs
    → OrphanFree [] (m ∷ ys)
    → OrphanFree calls (xs ++ m ∷ ys)
OrphanFree-join [] ys calls m t h k = (λ e. absurd (cc (e, t)), rw t (rw t at k.1))
OrphanFree-join (x ∷ xs) ys calls m t h k =
    (h.0, OrphanFree-join xs ys (open_calls (is_tool x) calls x) m t h.1 k)

pub Answered-drop : (xs ys : History) → Answered (xs ++ ys) → Answered ys
Answered-drop [] ys h = h
Answered-drop (x ∷ xs) ys h = Answered-drop xs ys h.1

-- A message in the list is no tool's, so no run goes through it.
pub has_break : History → Bool
has_break [] = false
has_break (m ∷ h) = not (is_tool m) || has_break h

pub has_break-user :
    (xs : History) (u : Message) → is_user u ≡ true → has_break (xs ++ u ∷ []) ≡ true
unfolding has_break
has_break-user [] u h = rw (user_not_tool u h)
has_break-user (x ∷ xs) u h = ground (arith, has_break-user xs u h)

-- The run behind each head ends inside the list.
abbrev pub IsClosed : History → Type 0
IsClosed [] = Unit
IsClosed (m ∷ h) = (is_head m ≡ true → has_break h ≡ true) × IsClosed h

present_break :
    (xs ys zs : History) (id : Option Bytes)
    → has_break xs ≡ true
    → tool_result_present (xs ++ ys) id ≡ tool_result_present (xs ++ zs) id
unfolding tool_result_present has_break
present_break xs ys zs none h = refl
present_break [] ys zs (some id) h = absurd (cc h)
present_break (x ∷ xs) ys zs (some id) h = elim (Bool-cases (is_tool x)) [
  | inl t ↦ ground (arith, present_break xs ys zs (some id))
  | inr o ↦ rw o refl
]

AllHaveResult-break :
    (xs ys zs : History) (tcs : List ToolCall)
    → has_break xs ≡ true
    → AllHaveResult (xs ++ ys) tcs
    → AllHaveResult (xs ++ zs) tcs
AllHaveResult-break xs ys zs [] h r = tt
AllHaveResult-break xs ys zs (tc ∷ tcs) h r =
    (one tc.id r.0, AllHaveResult-break xs ys zs tcs h r.1)
  where
    one : (id : Option Bytes) → HasResult (xs ++ ys) id → HasResult (xs ++ zs) id
    one none e = tt
    one (some id) e = sym (present_break xs ys zs (some id) h) ∙ e

Answered-swap :
    (xs ys zs : History) → IsClosed xs → Answered (xs ++ ys) → Answered zs → Answered (xs ++ zs)
Answered-swap [] ys zs c h k = k
Answered-swap (x ∷ xs) ys zs c h k = (
  λ e. AllHaveResult-break xs ys zs x.tool_calls (c.0 e) (h.0 e),
  Answered-swap xs ys zs c.1 h.1 k,
)

-- To put a user message in the place of old messages keeps the shape, where the part before them is
-- closed and the part behind them does not start with a tool message.
pub IsWire-fold :
    (pre old suf : History) (summ m : Message)
    → is_user summ ≡ true
    → is_tool m ≡ false
    → IsClosed pre
    → IsWire (pre ++ (old ++ m ∷ suf))
    → IsWire (pre ++ summ ∷ m ∷ suf)
IsWire-fold pre old suf summ m u t c w =
    let behind : Answered (m ∷ suf) =
      Answered-drop old (m ∷ suf) (Answered-drop pre _ w.answered) in
    let free : OrphanFree [] (m ∷ suf) =
      OrphanFree-drop (pre ++ old) suf [] m t (rw (append_assoc pre old (m ∷ suf)) w.orphan_free) in
    let head : is_head summ ≡ true → ⊥ = λ e. cc (e, user_not_head summ u) in
    record {
      answered =
          Answered-swap pre (old ++ m ∷ suf) (summ ∷ m ∷ suf) c w.answered
            ((λ e. absurd (head e)), behind);
      orphan_free =
          OrphanFree-join pre (m ∷ suf) [] summ (user_not_tool summ u)
            (OrphanFree-take pre _ [] w.orphan_free)
            (OrphanFree-join (summ ∷ []) suf [] m t (λ e. absurd (cc (e, user_not_tool summ u)), tt)
              free);
    }
