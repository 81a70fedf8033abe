-- ===== src/History/Json/Parts.antt =====
-- The tool calls of a saved message: what `clm_message_from_json` finds in them.
use clm.Base.{
  ◌≡◌, refl, ap, ◌∙◌, Bytes, Option, none, some, List, [], ◌∷◌, ◌++◌, append_assoc, append-nil, map,
  codes, bytes_eq, if◌then◌else◌,
}
use clm.History.{assistant, Message, ToolCall, add_tool_call}
use clm.History.Compact.{Result, ok, err, einval}
use clm.History.Json.{lookup, Cjson, value, opt_member, call_to_json, added_call, add_calls}

module _ (J : Type 0) (lib : Cjson J) where
  abbrev call_members : Option Bytes → Option Bytes → Option Bytes → List (Bytes × J)
  call_members i n a =
      opt_member J lib (codes "id") i
      ++ (opt_member J lib (codes "name") n ++ opt_member J lib (codes "args") a)

  lookup_id : (i n a : Option Bytes) → value J lib (lookup (call_members i n a) (codes "id")) ≡ i
  unfolding lookup bytes_eq
  lookup_id none none none = refl
  lookup_id none none (some z) = refl
  lookup_id none (some y) none = refl
  lookup_id none (some y) (some z) = refl
  lookup_id (some x) none none = lib.string_value-string x
  lookup_id (some x) none (some z) = lib.string_value-string x
  lookup_id (some x) (some y) none = lib.string_value-string x
  lookup_id (some x) (some y) (some z) = lib.string_value-string x

  lookup_name :
      (i n a : Option Bytes) → value J lib (lookup (call_members i n a) (codes "name")) ≡ n
  unfolding lookup bytes_eq
  lookup_name none none none = refl
  lookup_name none none (some z) = refl
  lookup_name none (some y) none = lib.string_value-string y
  lookup_name none (some y) (some z) = lib.string_value-string y
  lookup_name (some x) none none = refl
  lookup_name (some x) none (some z) = refl
  lookup_name (some x) (some y) none = lib.string_value-string y
  lookup_name (some x) (some y) (some z) = lib.string_value-string y

  lookup_args :
      (i n a : Option Bytes) → value J lib (lookup (call_members i n a) (codes "args")) ≡ a
  unfolding lookup bytes_eq
  lookup_args none none none = refl
  lookup_args none none (some z) = lib.string_value-string z
  lookup_args none (some y) none = refl
  lookup_args none (some y) (some z) = lib.string_value-string z
  lookup_args (some x) none none = refl
  lookup_args (some x) none (some z) = lib.string_value-string z
  lookup_args (some x) (some y) none = refl
  lookup_args (some x) (some y) (some z) = lib.string_value-string z

  -- One call that is saved is loaded, into a message of the assistant.
  loaded_call : Message → J → Result Message
  loaded_call m j =
      if lib.is_object j
      then added_call J lib (
          add_tool_call m (value J lib (lib.item j (codes "id")))
            (value J lib (lib.item j (codes "name"))) (value J lib (lib.item j (codes "args"))))
      else err einval

  abbrev pub calling : Message → List ToolCall → Message
  calling m calls = record m { tool_calls = calls }

  loaded_call-json :
      (m : Message) (calls : List ToolCall) (tc : ToolCall)
      → m.role ≡ assistant
      → loaded_call (calling m calls) (call_to_json J lib tc) ≡ ok (calling m (calls ++ tc ∷ []))
  unfolding loaded_call added_call add_tool_call
  loaded_call-json m calls tc e =
      let members = call_members tc.id tc.name tc.args in
      rw
        (
          lib.is_object-object members,
          lib.item-object members,
          lookup_id tc.id tc.name tc.args,
          lookup_name tc.id tc.name tc.args,
          lookup_args tc.id tc.name tc.args,
          e,
        )
        refl

  -- The calls that are saved are those that are loaded.
  pub add_calls-map :
      (m : Message) (calls tcs : List ToolCall)
      → m.role ≡ assistant
      → add_calls J lib (ok (calling m calls)) (map (call_to_json J lib) tcs)
        ≡ ok (calling m (calls ++ tcs))
  unfolding add_calls loaded_call
  add_calls-map m calls [] e = rw (append-nil calls) refl
  add_calls-map m calls (tc ∷ tcs) e =
      ap (λ r. add_calls J lib r (map (call_to_json J lib) tcs)) (loaded_call-json m calls tc e)
      ∙ add_calls-map m (calls ++ tc ∷ []) tcs e
      ∙ ap (λ all. ok (calling m all)) (append_assoc calls (tc ∷ []) tcs)
