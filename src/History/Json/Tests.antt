-- ===== src/History/Json/Tests.antt =====
-- A JSON library, and messages that it saves and loads.
use clm.Base.{
  Bytes, ◌≡◌, refl, sym, ◌∙◌, inl, inr, Bool-cases, bytes_eq, eq_of_bytes_eq, if◌then◌else◌, Bool,
  true, false, Option, none, some, List, [], ◌∷◌, ap, codes, before_nul, arith,
}
use clm.Utf8.{put_utf8}
use clm.Utf8.Repair.{done, char}
use clm.History.Json.Loading.{IsFit, stored_with}
use clm.History.Json.Stored.{IsLossless}
use clm.History.{tool, Message, Compressor, create, ToolCall, assistant}
use clm.History.Compact.{ok}
use clm.History.Json.{Cjson, lookup, message_to_json, message_from_json}
use clm.History.Json.RoundTrip.{IsSavable, as_calls, message_from-to_json}

-- Trees with their lists inside: an array is a chain of elements, an object one of members.
data Json : Type 0 where
  text : Bytes → Json
  no_element : Json
  element : Json → Json → Json
  no_member : Json
  member : Bytes → Json → Json → Json

array_of : List Json → Json
array_of [] = no_element
array_of (j ∷ js) = element j (array_of js)

object_of : List (Bytes × Json) → Json
object_of [] = no_member
object_of ((name, j) ∷ ms) = member name j (object_of ms)

elements_of : Json → List Json
elements_of (element j js) = j ∷ elements_of js
elements_of _ = []

members_of : Json → List (Bytes × Json)
members_of (member name j ms) = (name, j) ∷ members_of ms
members_of _ = []

is_text : Json → Bool
is_text (text s) = true
is_text _ = false

is_chain : Json → Bool
is_chain no_element = true
is_chain (element j js) = true
is_chain _ = false

has_members : Json → Bool
has_members no_member = true
has_members (member name j ms) = true
has_members _ = false

text_of : Json → Option Bytes
text_of (text s) = some s
text_of _ = none

is_chain-array_of : (js : List Json) → is_chain (array_of js) ≡ true
unfolding is_chain array_of
is_chain-array_of [] = refl
is_chain-array_of (j ∷ js) = refl

elements_of-array_of : (js : List Json) → elements_of (array_of js) ≡ js
unfolding elements_of array_of
elements_of-array_of [] = refl
elements_of-array_of (j ∷ js) = ap (λ l. j ∷ l) (elements_of-array_of js)

has_members-object_of : (ms : List (Bytes × Json)) → has_members (object_of ms) ≡ true
unfolding has_members object_of
has_members-object_of [] = refl
has_members-object_of ((name, j) ∷ ms) = refl

members_of-object_of : (ms : List (Bytes × Json)) → members_of (object_of ms) ≡ ms
unfolding members_of object_of
members_of-object_of [] = refl
members_of-object_of ((name, j) ∷ ms) = ap (λ l. (name, j) ∷ l) (members_of-object_of ms)

trees : Cjson Json
unfolding is_text text_of
trees = record {
  string = text;
  array = array_of;
  object = object_of;
  is_string = is_text;
  is_array = is_chain;
  is_object = has_members;
  string_value = text_of;
  elements = elements_of;
  item = λ j. lookup (members_of j);
  is_string-string = λ s. refl;
  string_value-string = λ s. refl;
  is_array-array = is_chain-array_of;
  elements-array = elements_of-array_of;
  is_object-object = has_members-object_of;
  item-object = λ ms. ap lookup (members_of-object_of ms);
}

abbrev call : ToolCall
call = record { id = some (codes "1"); name = some (codes "read"); args = none }

abbrev words : Option Bytes
words = some (b's' ∷ b's' ∷ [])

words-IsFit : IsFit words
unfolding put_utf8 before_nul
words-IsFit = (
  ground arith,
  char b's' (b's' ∷ []) (inl (omega arith)) refl (char b's' [] (inl (omega arith)) refl done),
  omega arith,
  refl,
)

abbrev asks : Message
asks = record (create assistant) { content = words; content_len = 2; tool_calls = call ∷ [] }

asks-IsSavable : IsSavable asks
asks-IsSavable = as_calls words call [] words-IsFit refl

-- A compressor that drops the last byte of words that end in `s`.
abbrev short : Bytes → Option Bytes
short s = if bytes_eq s (codes "ss") then some (codes "s") else none

abbrev long : Bytes → Option Bytes
long p = some (codes "ss")

abbrev packer : Compressor
packer = record { write = some short; read = some long; min_len = 1 }

unpacks : (s p : Bytes) → short s ≡ some p → long p ≡ some s
unpacks s p e = elim (Bool-cases (bytes_eq s (codes "ss"))) [
  | inl q ↦ ap some (sym (eq_of_bytes_eq s (codes "ss") q))
  | inr q ↦ absurd (no_pack (sym (rw q refl) ∙ e))
]
  where
    no_pack : ◌≡◌ {A = Option Bytes} none (some p) → ⊥
    no_pack x = cc x

packer-IsLossless : IsLossless (some packer)
packer-IsLossless write s p e w =
    unpacks s p (ap (λ o. elim o [ none ↦ none | some f ↦ f s ]) e ∙ w)

message_from-to_json_example :
    (j : Json) × (message_to_json Json trees asks none ≡ some j)
    × (message_from_json Json trees (create tool ∷ []) j (some packer)
        ≡ ok (create tool ∷ stored_with (some packer) asks ∷ []))
    × (message_to_json Json trees (stored_with (some packer) asks) (some packer) ≡ some j)
    × (stored_with none asks ≡ asks)
message_from-to_json_example =
    message_from-to_json Json trees (create tool ∷ []) asks none (some packer) asks-IsSavable
      packer-IsLossless
