-- ===== src/History/Json/Loading.antt =====
-- What `clm_message_from_json` makes of the members of a saved message.
use clm.Base.{
  ℕ, ◌≤◌, ◌≡◌, refl, sym, ap, ◌∙◌, Bytes, false, Option, none, some, List, [], ◌∷◌, ◌++◌, map,
  length, codes, bytes_eq, before_nul,
}
use clm.Utf8.Chars.{AreBytes}
use clm.Utf8.Repair.{IsText}
use clm.History.{
  Role, system, user, assistant, tool, Message, ToolCall, History, Compressor, create, set_content,
  add_system, add_user, u16_max, add_assistant_text, add_tool_result,
}
use clm.History.Wire.{is_role}
use clm.History.Content.{set_content-SameFrame}
use clm.History.Json.Stored.{set_content-over, set_content-calls}
use clm.History.Compact.{ok}
use clm.History.Json.{
  lookup, Cjson, role_to_str, role_from_str, opt_member, call_to_json, calls_member, with_content,
  appended, add_assistant, add_calls, add_of_role, from_members,
}
use clm.History.Json.Parts.{calling, add_calls-map}

-- Content that a message can hold, and that a C string can.
abbrev pub IsFit : Option Bytes → Type 0
IsFit none = Unit
IsFit (some c) = AreBytes c × IsText c × (length c ≤ u16_max) × (before_nul c ≡ c)

abbrev pub length_of : Option Bytes → ℕ
length_of none = 0
length_of (some c) = length c

abbrev pub said : Role → Option Bytes → Message
said r content = record (create r) { content = content; content_len = length_of content }

abbrev pub answered : Option Bytes → Option Bytes → Option Bytes → Message
answered i n content = record (said tool content) { tool_call_id = i; tool_name = n }

abbrev pub asked : Option Bytes → List ToolCall → Message
asked content calls = record (said assistant content) { tool_calls = calls }

-- What the load stores: `set_content` packs the content where the compressor makes it shorter.
abbrev pub stored_with : Option Compressor → Message → Message
stored_with cz m = set_content m m.content cz

role_from-to : (r : Role) → role_from_str (some (role_to_str r)) ≡ some r
unfolding role_from_str role_to_str bytes_eq
role_from-to system = refl
role_from-to user = refl
role_from-to assistant = refl
role_from-to tool = refl

module _ (J : Type 0) (lib : Cjson J) where
  -- The members of a saved message.
  abbrev pub saved :
      Role → Option Bytes → Option Bytes → Option Bytes → List ToolCall → List (Bytes × J)
  saved r none i n calls =
      (codes "role", lib.string (role_to_str r))
      ∷ (opt_member J lib (codes "tool_call_id") i
          ++ (opt_member J lib (codes "tool_name") n ++ calls_member J lib calls))
  saved r (some c) i n calls =
      (codes "role", lib.string (role_to_str r))
      ∷ (codes "content", lib.string c)
      ∷ (opt_member J lib (codes "tool_call_id") i
          ++ (opt_member J lib (codes "tool_name") n ++ calls_member J lib calls))

  -- Role and content of a saved message are found again.
  pub from_members-saved :
      (h : History) (r : Role) (content i n : Option Bytes) (calls : List ToolCall)
      (cl : Option Compressor)
      → from_members J lib h (lookup (saved r content i n calls)) cl
        ≡ add_of_role J lib h r content (lookup (saved r content i n calls)) cl
  unfolding from_members lookup bytes_eq
  from_members-saved h r (some c) i n calls cl =
      rw
        (
          lib.string_value-string (role_to_str r),
          role_from-to r,
          lib.is_string-string c,
          lib.string_value-string c,
        )
        refl
  from_members-saved h r none none none [] cl =
      rw (lib.string_value-string (role_to_str r), role_from-to r) refl
  from_members-saved h r none none none (tc ∷ tcs) cl =
      rw (lib.string_value-string (role_to_str r), role_from-to r) refl
  from_members-saved h r none none (some y) [] cl =
      rw (lib.string_value-string (role_to_str r), role_from-to r) refl
  from_members-saved h r none none (some y) (tc ∷ tcs) cl =
      rw (lib.string_value-string (role_to_str r), role_from-to r) refl
  from_members-saved h r none (some x) none [] cl =
      rw (lib.string_value-string (role_to_str r), role_from-to r) refl
  from_members-saved h r none (some x) none (tc ∷ tcs) cl =
      rw (lib.string_value-string (role_to_str r), role_from-to r) refl
  from_members-saved h r none (some x) (some y) [] cl =
      rw (lib.string_value-string (role_to_str r), role_from-to r) refl
  from_members-saved h r none (some x) (some y) (tc ∷ tcs) cl =
      rw (lib.string_value-string (role_to_str r), role_from-to r) refl

  stored-as :
      (h : History) (r : Role) (content i n : Option Bytes) (cl : Option Compressor)
      → ok
          (h ++ set_content (record (create r) { tool_call_id = i; tool_name = n }) content cl ∷ [])
        ≡ ok
            (h ++ stored_with cl (record (said r content) { tool_call_id = i; tool_name = n }) ∷ [])
  stored-as h r content i n cl =
      ap (λ m. ok (h ++ m ∷ []))
        (set_content-over (record (create r) { tool_call_id = i; tool_name = n }) content
          (length_of content) content cl)

  -- A tool result keeps its id and its tool.
  pub answered-found :
      (h : History) (content i n : Option Bytes) (cl : Option Compressor)
      → add_of_role J lib h tool content (lookup (saved tool content i n [])) cl
        ≡ ok (h ++ stored_with cl (answered i n content) ∷ [])
  unfolding add_of_role add_tool_result lookup bytes_eq
  answered-found h none none none cl = stored-as h tool none none none cl
  answered-found h none none (some y) cl =
      rw (lib.string_value-string y) (stored-as h tool none none (some y) cl)
  answered-found h none (some x) none cl =
      rw (lib.string_value-string x) (stored-as h tool none (some x) none cl)
  answered-found h none (some x) (some y) cl =
      rw (lib.string_value-string x, lib.string_value-string y)
        (stored-as h tool none (some x) (some y) cl)
  answered-found h (some c) none none cl = stored-as h tool (some c) none none cl
  answered-found h (some c) none (some y) cl =
      rw (lib.string_value-string y) (stored-as h tool (some c) none (some y) cl)
  answered-found h (some c) (some x) none cl =
      rw (lib.string_value-string x) (stored-as h tool (some c) (some x) none cl)
  answered-found h (some c) (some x) (some y) cl =
      rw (lib.string_value-string x, lib.string_value-string y)
        (stored-as h tool (some c) (some x) (some y) cl)

  pub said-found :
      (h : History) (r : Role) (content : Option Bytes) (cl : Option Compressor)
      → is_role r tool ≡ false
      → add_of_role J lib h r content (lookup (saved r content none none [])) cl
        ≡ ok (h ++ stored_with cl (said r content) ∷ [])
  unfolding add_of_role add_system add_user add_assistant_text lookup bytes_eq
  said-found h system content cl t = stored-as h system content none none cl
  said-found h user content cl t = stored-as h user content none none cl
  said-found h assistant none cl t = stored-as h assistant none none none cl
  said-found h assistant (some c) cl t = stored-as h assistant (some c) none none cl
  said-found h tool content cl t = absurd (cc t)

  started :
      (content : Option Bytes) (cl : Option Compressor)
      → with_content J lib content cl ≡ set_content (create assistant) content cl
  unfolding set_content
  started none cl = refl
  started (some c) cl = refl

  -- The array of calls is read from its start.
  appended-calls :
      (h : History) (content : Option Bytes) (tcs : List ToolCall) (cl : Option Compressor)
      → add_assistant J lib h content (some (lib.array (map (call_to_json J lib) tcs))) cl
        ≡ ok (h ++ stored_with cl (asked content tcs) ∷ [])
  appended-calls h content tcs cl =
      let start = set_content (create assistant) content cl in
      let same = set_content-SameFrame (create assistant) content cl in
      let all =
        set_content-calls (create assistant) tcs content cl
        ∙ set_content-over (calling J lib (create assistant) tcs) content (length_of content)
            content cl in
      let empty : start ≡ calling J lib start [] =
        sym (set_content-calls (create assistant) [] content cl) in
      rw
        (
          lib.is_array-array (map (call_to_json J lib) tcs),
          lib.elements-array (map (call_to_json J lib) tcs),
        )
        (ap (λ m. appended J lib h (add_calls J lib (ok m) (map (call_to_json J lib) tcs)))
            (started content cl ∙ empty)
          ∙ ap (appended J lib h) (add_calls-map J lib start [] tcs same.role)
          ∙ ap (λ m. ok (h ++ m ∷ [])) all)

  pub asked-found :
      (h : History) (content : Option Bytes) (tc : ToolCall) (tcs : List ToolCall)
      (cl : Option Compressor)
      → add_of_role J lib h assistant content
          (lookup (saved assistant content none none (tc ∷ tcs)))
          cl
        ≡ ok (h ++ stored_with cl (asked content (tc ∷ tcs)) ∷ [])
  unfolding add_of_role lookup bytes_eq
  asked-found h none tc tcs cl = appended-calls h none (tc ∷ tcs) cl
  asked-found h (some c) tc tcs cl = appended-calls h (some c) (tc ∷ tcs) cl
