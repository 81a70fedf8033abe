-- ===== src/History/Json.antt =====
-- Saved sessions: `clm_message_to_json_full` and `clm_message_from_json` of libclm/history.c.
-- The JSON library is a parameter: `Cjson` says which of its functions the code calls and what it
-- relies on. A tree that the code builds with several calls is built with one. Allocation is taken
-- to succeed.
pub mod Stored
pub mod Parts
pub mod Loading
pub mod RoundTrip
mod Tests
use clm.Base.{
  ◌≡◌, Bytes, Bool, true, false, Option, none, some, List, [], ◌∷◌, ◌++◌, map, codes, bytes_eq,
  before_nul, if◌then◌else◌,
}
use clm.History.{
  Role, system, user, assistant, tool, Message, ToolCall, History, Compressor, create, set_content,
  add_system, add_user, add_assistant_text, add_tool_result, add_tool_call,
}
use clm.History.Compact.{Result, ok, err, Errno, einval, enomem}

-- The first member with a name, as `cJSON_GetObjectItemCaseSensitive` finds it.
unfoldable pub lookup {ℓ} : {A : Type ℓ} → List (Bytes × A) → Bytes → Option A
lookup [] key = none
lookup ((name, a) ∷ members) key =
    let further = lookup members key in if bytes_eq name key then some a else further

-- The trees of the JSON library, with strings that hold no NUL.
pub record Cjson (J : Type 0) : Type 0 where
  pub string : Bytes → J
  pub array : List J → J
  pub object : List (Bytes × J) → J
  pub is_string : J → Bool
  pub is_array : J → Bool
  pub is_object : J → Bool
  pub string_value : J → Option Bytes
  pub elements : J → List J
  pub item : J → Bytes → Option J
  pub is_string-string : (s : Bytes) → is_string (string s) ≡ true
  pub string_value-string : (s : Bytes) → string_value (string s) ≡ some s
  pub is_array-array : (js : List J) → is_array (array js) ≡ true
  pub elements-array : (js : List J) → elements (array js) ≡ js
  pub is_object-object : (members : List (Bytes × J)) → is_object (object members) ≡ true
  pub item-object : (members : List (Bytes × J)) → item (object members) ≡ lookup members

pub role_to_str : Role → Bytes
role_to_str system = codes "system"
role_to_str user = codes "user"
role_to_str assistant = codes "assistant"
role_to_str tool = codes "tool"

pub role_from_str : Option Bytes → Option Role
role_from_str none = none
role_from_str (some s) =
    if bytes_eq s (codes "system")
    then some system
    else if bytes_eq s (codes "user")
    then some user
    else if bytes_eq s (codes "assistant")
    then some assistant
    else if bytes_eq s (codes "tool")
    then some tool
    else none

module _ (J : Type 0) (lib : Cjson J) where
  -- `if (s && cJSON_AddStringToObject(...))`.
  abbrev pub opt_member : Bytes → Option Bytes → List (Bytes × J)
  opt_member key none = []
  opt_member key (some s) = (key, lib.string s) ∷ []

  abbrev pub content_member_of : Bytes → List (Bytes × J)
  content_member_of plain = (codes "content", lib.string (before_nul plain)) ∷ []

  abbrev pub unpacked : Option Bytes → Option (List (Bytes × J))
  unpacked none = none
  unpacked (some plain) = some (content_member_of plain)

  abbrev pub read_content : Bytes → Option (Bytes → Option Bytes) → Option (List (Bytes × J))
  read_content packed none = none
  read_content packed (some read) = unpacked (read packed)

  -- `none` where the content is compressed and cannot be read.
  abbrev pub content_member : Option Bytes → Bool → Option Compressor → Option (List (Bytes × J))
  content_member none compressed cz = some []
  content_member (some c) false cz = some (content_member_of c)
  content_member (some c) true none = none
  content_member (some c) true (some cz) = read_content c cz.read

  abbrev pub call_to_json : ToolCall → J
  call_to_json tc = lib.object (
      opt_member (codes "id") tc.id
      ++ (opt_member (codes "name") tc.name ++ opt_member (codes "args") tc.args))

  abbrev pub calls_member : List ToolCall → List (Bytes × J)
  calls_member [] = []
  calls_member (tc ∷ tcs) = (codes "tool_calls", lib.array (map call_to_json (tc ∷ tcs))) ∷ []

  abbrev pub message_object : Message → Option (List (Bytes × J)) → Option J
  message_object m none = none
  message_object m (some content) = some (
      lib.object (
        (codes "role", lib.string (role_to_str m.role))
        ∷ (content
            ++ (opt_member (codes "tool_call_id") m.tool_call_id
                ++ (opt_member (codes "tool_name") m.tool_name ++ calls_member m.tool_calls)))))

  pub message_to_json : Message → Option Compressor → Option J
  message_to_json m cz = message_object m (content_member m.content m.content_compressed cz)

  -- `cJSON_GetStringValue`, which takes NULL.
  abbrev pub value : Option J → Option Bytes
  value none = none
  value (some j) = lib.string_value j

  pub added_call : Option Message → Result Message
  added_call none = err enomem
  added_call (some m) = ok m

  -- The loop over the tool calls.
  pub add_calls : Result Message → List J → Result Message
  add_calls (err e) js = err e
  add_calls (ok m) [] = ok m
  add_calls (ok m) (j ∷ js) =
      add_calls
        (if lib.is_object j
          then added_call (
              add_tool_call m (value (lib.item j (codes "id"))) (value (lib.item j (codes "name")))
                (value (lib.item j (codes "args"))))
          else err einval)
        js

  abbrev pub with_content : Option Bytes → Option Compressor → Message
  with_content none cz = create assistant
  with_content (some c) cz = set_content (create assistant) (some c) cz

  -- A message that fails half-way is taken out again.
  abbrev pub appended : History → Result Message → Result History
  appended h (err e) = err e
  appended h (ok m) = ok (h ++ m ∷ [])

  abbrev pub add_assistant : History → Option Bytes → Option J → Option Compressor → Result History
  add_assistant h content none cz = ok (add_assistant_text h content cz)
  add_assistant h content (some calls) cz =
      if lib.is_array calls
      then appended h (add_calls (ok (with_content content cz)) (lib.elements calls))
      else err einval

  pub add_of_role :
      History → Role → Option Bytes → (Bytes → Option J) → Option Compressor → Result History
  add_of_role h system content get cz = ok (add_system h content cz)
  add_of_role h user content get cz = ok (add_user h content cz)
  add_of_role h tool content get cz = ok (
      add_tool_result h (value (get (codes "tool_call_id"))) (value (get (codes "tool_name")))
        content cz)
  add_of_role h assistant content get cz = add_assistant h content (get (codes "tool_calls")) cz

  abbrev pub add_if_role :
      History → Option Role → Option Bytes → (Bytes → Option J) → Option Compressor → Result History
  add_if_role h none content get cz = err einval
  add_if_role h (some role) content get cz = add_of_role h role content get cz

  -- The members of the object, by their names.
  abbrev pub from_content :
      History → Option Role → Option J → (Bytes → Option J) → Option Compressor → Result History
  from_content h role none get cz = add_if_role h role none get cz
  from_content h none (some content) get cz = err einval
  from_content h (some role) (some content) get cz =
      if lib.is_string content
      then add_of_role h role (lib.string_value content) get cz
      else err einval

  pub from_members : History → (Bytes → Option J) → Option Compressor → Result History
  from_members h get cz =
      from_content h (role_from_str (value (get (codes "role")))) (get (codes "content")) get cz

  pub message_from_json : History → J → Option Compressor → Result History
  message_from_json h obj cz =
      if lib.is_object obj then from_members h (lib.item obj) cz else err einval
