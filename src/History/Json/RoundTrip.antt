-- ===== src/History/Json/RoundTrip.antt =====
-- What `clm_message_from_json` makes of what `clm_message_to_json_full` wrote.
use clm.Base.{◌≡◌, refl, sym, subst, ◌∙◌, Bytes, false, Option, none, some, List, [], ◌∷◌, ◌++◌}
use clm.History.{Role, assistant, tool, Message, ToolCall, History, Compressor, set_content}
use clm.History.Wire.{is_role}
use clm.History.Content.{set_content_fit, set_content-SameFrame}
use clm.History.Json.Stored.{IsLossless, content_member-stored}
use clm.History.Compact.{ok}
use clm.History.Json.{lookup, Cjson, message_to_json, add_of_role, message_from_json}
use clm.History.Json.Loading.{
  IsFit, said, answered, asked, stored_with, saved, from_members-saved, answered-found, said-found,
  asked-found,
}

-- The messages of a conversation without images, with plain content that fits: text of a role, a tool
-- result, and a message with tool calls.
pub data IsSavable (m : Message) : Type 0 where
  as_text :
      (r : Role) (content : Option Bytes)
      → is_role r tool ≡ false
      → IsFit content
      → m ≡ said r content
      → IsSavable m
  as_result : (content i n : Option Bytes) → IsFit content → m ≡ answered i n content → IsSavable m
  as_calls :
      (content : Option Bytes) (tc : ToolCall) (tcs : List ToolCall)
      → IsFit content
      → m ≡ asked content (tc ∷ tcs)
      → IsSavable m

module _ (J : Type 0) (lib : Cjson J) where
  -- A message with plain content is saved as its members.
  message_to_json-saved :
      (r : Role) (content i n : Option Bytes) (calls : List ToolCall) (cz : Option Compressor)
      → IsFit content
      → message_to_json J lib
          (record (said r content) { tool_call_id = i; tool_name = n; tool_calls = calls })
          cz
        ≡ some (lib.object (saved J lib r content i n calls))
  unfolding message_to_json
  message_to_json-saved r none i n calls cz w = refl
  message_to_json-saved r (some c) i n calls cz (a, t, k, z) = rw z refl

  -- And so it is once more when it was stored by a compressor that reads what it writes.
  message_to_json-stored :
      (r : Role) (content i n : Option Bytes) (calls : List ToolCall) (cl : Option Compressor)
      → IsFit content
      → IsLossless cl
      → message_to_json J lib
          (stored_with cl
            (record (said r content) { tool_call_id = i; tool_name = n; tool_calls = calls }))
          cl
        ≡ some (lib.object (saved J lib r content i n calls))
  unfolding message_to_json set_content
  message_to_json-stored r none i n calls cl w l = refl
  message_to_json-stored r (some c) i n calls cl (a, t, k, z) l =
      let m : Message = record (said r (some c)) {
        tool_call_id = i;
        tool_name = n;
        tool_calls = calls;
      } in
      let same = set_content-SameFrame m (some c) cl in
      rw
        (
          content_member-stored J lib m c cl a t k l,
          same.role,
          same.tool_call_id,
          same.tool_name,
          same.tool_calls,
          z,
        )
        refl

  -- What was saved loads as the message, once its members are found.
  loads :
      (h : History) (m : Message) (r : Role) (content i n : Option Bytes) (calls : List ToolCall)
      (cl : Option Compressor)
      → add_of_role J lib h r content (lookup (saved J lib r content i n calls)) cl
        ≡ ok (h ++ m ∷ [])
      → message_from_json J lib h (lib.object (saved J lib r content i n calls)) cl
        ≡ ok (h ++ m ∷ [])
  unfolding message_from_json
  loads h m r content i n calls cl e =
      let members = saved J lib r content i n calls in
      rw (lib.is_object-object members, lib.item-object members)
        (from_members-saved J lib h r content i n calls cl ∙ e)

  -- What is loaded is what was saved.
  abbrev IsLoaded : History → Message → Option Compressor → Option Compressor → Type 0
  IsLoaded h m cz cl =
      (j : J) × (message_to_json J lib m cz ≡ some j)
      × (message_from_json J lib h j cl ≡ ok (h ++ stored_with cl m ∷ []))
      × (message_to_json J lib (stored_with cl m) cl ≡ some j)
      × (stored_with none m ≡ m)

stored_with-none :
    (r : Role) (content i n : Option Bytes) (calls : List ToolCall)
    → IsFit content
    → stored_with none
        (record (said r content) { tool_call_id = i; tool_name = n; tool_calls = calls })
      ≡ record (said r content) { tool_call_id = i; tool_name = n; tool_calls = calls }
unfolding set_content
stored_with-none r none i n calls w = refl
stored_with-none r (some c) i n calls (a, t, k, z) =
    set_content_fit
      (record (said r (some c)) { tool_call_id = i; tool_name = n; tool_calls = calls }) c a t k

-- A message of a conversation without images, with plain content that fits, is saved, whatever the
-- compressor of the save. What was saved loads at the end of the history as the same message, its content
-- stored by the compressor of the load: without one it is equal to what was saved, and with one that
-- reads what it writes it is saved again as the same object.
pub message_from-to_json :
    (J : Type 0) (lib : Cjson J) (h : History) (m : Message) (cz cl : Option Compressor)
    → IsSavable m
    → IsLossless cl
    → (j : J) × (message_to_json J lib m cz ≡ some j)
      × (message_from_json J lib h j cl ≡ ok (h ++ stored_with cl m ∷ []))
      × (message_to_json J lib (stored_with cl m) cl ≡ some j)
      × (stored_with none m ≡ m)
message_from-to_json J lib h m cz cl (as_text r content t w e) l =
    subst (λ x. IsLoaded J lib h x cz cl) (sym e)
      (
        lib.object (saved J lib r content none none []),
        message_to_json-saved J lib r content none none [] cz w,
        loads J lib h (stored_with cl (said r content)) r content none none [] cl
            (said-found J lib h r content cl t),
        message_to_json-stored J lib r content none none [] cl w l,
        stored_with-none r content none none [] w,
      )
message_from-to_json J lib h m cz cl (as_result content i n w e) l =
    subst (λ x. IsLoaded J lib h x cz cl) (sym e)
      (
        lib.object (saved J lib tool content i n []),
        message_to_json-saved J lib tool content i n [] cz w,
        loads J lib h (stored_with cl (answered i n content)) tool content i n [] cl
            (answered-found J lib h content i n cl),
        message_to_json-stored J lib tool content i n [] cl w l,
        stored_with-none tool content i n [] w,
      )
message_from-to_json J lib h m cz cl (as_calls content tc tcs w e) l =
    let calls = tc ∷ tcs in
    subst (λ x. IsLoaded J lib h x cz cl) (sym e)
      (
        lib.object (saved J lib assistant content none none calls),
        message_to_json-saved J lib assistant content none none calls cz w,
        loads J lib h (stored_with cl (asked content calls)) assistant content none none calls cl
            (asked-found J lib h content tc tcs cl),
        message_to_json-stored J lib assistant content none none calls cl w l,
        stored_with-none assistant content none none calls w,
      )
