-- ===== src/History.antt =====
-- The conversation history: include/clm/history.h and libclm/history.c.
-- The TAILQ of messages is a list, an owned string that may be NULL is an optional byte string, and
-- a pointer to a message is its place in the list. Every allocation is taken to succeed. `Message`
-- and the ways to store content are here, the operations that rewrite a history in the children.
pub mod Content
pub mod Wire
pub mod Compact
pub mod Within
pub mod Dangling
pub mod Supersede
pub mod Json
mod Tests
use clm.Base.{
  ℕ, zero, suc, ◌+◌, ◌%◌, Bytes, is_continuation, Bool, true, false, ◌&&◌, Option, none, some, List,
  [], ◌∷◌, ◌++◌, length, take, get_or, if◌then◌else◌, ltb, leb,
}
use clm.Utf8.{utf8_repair}

pub data Role : Type 0 where
  system user assistant tool : Role

pub record ToolCall : Type 0 where
  pub id : Option Bytes
  pub name : Option Bytes
  pub args : Option Bytes

pub record Attachment : Type 0 where
  pub media_type : Bytes
  pub image : Bytes

pub record Message : Type 0 where
  pub role : Role
  pub content : Option Bytes
  pub content_len : ℕ
  pub content_compressed : Bool
  pub tool_call_id : Option Bytes
  pub tool_name : Option Bytes
  pub tool_calls : List ToolCall
  pub attachments : List Attachment

abbrev pub History : Type 0
History = List Message

-- `struct clm_compressor`, which an embedder installs: `write` and `read` may be NULL and may fail.
pub record Compressor : Type 0 where
  pub write : Option (Bytes → Option Bytes)
  pub read : Option (Bytes → Option Bytes)
  pub min_len : ℕ

-- UINT16_MAX.
abbrev pub u16_max : ℕ
u16_max = 65535

abbrev pub u16 : ℕ → ℕ
u16 n = n % 65536

-- `clm_message_create`.
abbrev pub create : Role → Message
create role = record {
  role = role;
  content = none;
  content_len = 0;
  content_compressed = false;
  tool_call_id = none;
  tool_name = none;
  tool_calls = [];
  attachments = [];
}

-- Cut on a character boundary: the `while` loop from `len` down.
pub cut_at : ℕ → Bytes → ℕ
cut_at zero s = 0
cut_at (suc len) s =
    let shorter = cut_at len s in
    if is_continuation (get_or s (suc len) 0) then shorter else suc len

-- `utf8_repair` returns NULL where the content is valid as it is.
abbrev pub repaired : Bytes → Option Bytes → Bytes
repaired s none = s
repaired s (some t) = t

-- The content that is stored, repaired and cut to what `content_len` can hold.
pub storable : Bytes → Bytes
storable s =
    let text = repaired s (utf8_repair s) in
    if ltb u16_max (length text) then take (cut_at u16_max text) text else text

abbrev pub store_plain : Message → Bytes → Message
store_plain m text = record m {
  content = some text;
  content_len = u16 (length text);
  content_compressed = false;
}

-- The result of `cz->write`: kept if it is shorter and fits.
pub store_packed : Message → Bytes → Option Bytes → Message
store_packed m text none = store_plain m text
store_packed m text (some packed) =
    if ltb (length packed) (length text) && leb (length packed) u16_max
    then record m {
      content = some packed;
      content_len = u16 (length packed);
      content_compressed = true;
    }
    else store_plain m text

pub store_written : Message → Bytes → Option (Bytes → Option Bytes) → Message
unfolding store_packed
store_written m text none = store_plain m text
store_written m text (some write) = store_packed m text (write text)

pub store : Message → Bytes → Option Compressor → Message
unfolding store_written
store m text none = store_plain m text
store m text (some cz) =
    if leb cz.min_len (length text) then store_written m text cz.write else store_plain m text

-- `message_set_content_len`; the text wrapper `message_set_content` passes the bytes before the NUL.
unfoldable pub set_content : Message → Option Bytes → Option Compressor → Message
set_content m none cz = record m { content = none; content_len = 0; content_compressed = false }
set_content m (some s) cz = store m (storable s) cz

unfoldable pub add_system : History → Option Bytes → Option Compressor → History
add_system h content cz = h ++ set_content (create system) content cz ∷ []

unfoldable pub add_user : History → Option Bytes → Option Compressor → History
add_user h content cz = h ++ set_content (create user) content cz ∷ []

unfoldable pub add_assistant_text : History → Option Bytes → Option Compressor → History
add_assistant_text h content cz = h ++ set_content (create assistant) content cz ∷ []

pub add_assistant_tool_calls : History → History
add_assistant_tool_calls h = h ++ create assistant ∷ []

unfoldable pub add_tool_result :
    History → Option Bytes → Option Bytes → Option Bytes → Option Compressor → History
add_tool_result h tool_call_id tool_name content cz =
    h
    ++ set_content (record (create tool) { tool_call_id = tool_call_id; tool_name = tool_name })
        content cz
      ∷ []

unfoldable pub add_call_at : Role → Message → ToolCall → Option Message
add_call_at assistant m tc = some (record m { tool_calls = m.tool_calls ++ tc ∷ [] })
add_call_at _ m tc = none

-- `clm_message_add_tool_call`: NULL where the message is not the assistant's.
unfoldable pub add_tool_call : Message → Option Bytes → Option Bytes → Option Bytes → Option Message
unfolding add_call_at
add_tool_call m id name args = add_call_at m.role m (record { id = id; name = name; args = args })

unfoldable pub add_attachment : Message → Bytes → Bytes → Message
add_attachment m media_type image = record m {
  attachments = m.attachments ++ record { media_type = media_type; image = image } ∷ [];
}
