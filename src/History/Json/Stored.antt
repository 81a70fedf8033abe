-- ===== src/History/Json/Stored.antt =====
-- What `message_set_content` stores, apart from the message that it stores it in.
use clm.Base.{
  ℕ, ◌≤◌, ◌≡◌, refl, sym, ap, ◌∙◌, inl, inr, Bytes, true, ◌&&◌, Option, none, some, List, length,
  ltb, leb, Bool-cases,
}
use clm.Utf8.Chars.{AreBytes}
use clm.Utf8.Repair.{IsText}
use clm.History.{
  Message, ToolCall, Compressor, u16_max, storable, store, store_packed, store_written, set_content,
}
use clm.History.Content.{storable_text}
use clm.History.Json.{Cjson, content_member, content_member_of}

-- A message with the content of another one.
abbrev with_content_of : Message → Message → Message
with_content_of m p = record m {
  content = p.content;
  content_len = p.content_len;
  content_compressed = p.content_compressed;
}

set_content-shape :
    (m p : Message) (content : Option Bytes) (cz : Option Compressor)
    → set_content m content cz ≡ with_content_of m (set_content p content cz)
unfolding set_content store store_written store_packed
set_content-shape m p none cz = refl
set_content-shape m p (some s) none = refl
set_content-shape m p (some s) (some cz) =
    elim (Bool-cases (leb cz.min_len (length (storable s)))) [
      | inl l ↦ rw l (written cz.write)
      | inr g ↦ rw g refl
    ]
  where
    written :
        (w : Option (Bytes → Option Bytes))
        → store_written m (storable s) w ≡ with_content_of m (store_written p (storable s) w)
    written none = refl
    written (some write) = tried (write (storable s))
      where
        tried :
            (o : Option Bytes)
            → store_packed m (storable s) o ≡ with_content_of m (store_packed p (storable s) o)
        tried none = refl
        tried (some packed) =
            elim (Bool-cases
              (ltb (length packed) (length (storable s)) && leb (length packed) u16_max)) [
                | inl f ↦ rw f refl
                | inr f ↦ rw f refl
              ]

-- What the message had as content before does not matter.
pub set_content-over :
    (m : Message) (x : Option Bytes) (l : ℕ) (content : Option Bytes) (cz : Option Compressor)
    → set_content m content cz ≡ set_content (record m { content = x; content_len = l }) content cz
set_content-over m x l content cz =
    set_content-shape m m content cz
    ∙ sym (set_content-shape (record m { content = x; content_len = l }) m content cz)

-- Nor do its calls.
pub set_content-calls :
    (m : Message) (calls : List ToolCall) (content : Option Bytes) (cz : Option Compressor)
    → record (set_content m content cz) { tool_calls = calls }
      ≡ set_content (record m { tool_calls = calls }) content cz
set_content-calls m calls content cz =
    ap (λ (x : Message). record x { tool_calls = calls }) (set_content-shape m m content cz)
    ∙ sym (set_content-shape (record m { tool_calls = calls }) m content cz)

-- A compressor that reads what it has written.
abbrev IsRead : Option (Bytes → Option Bytes) → Bytes → Bytes → Type 0
IsRead none packed s = ⊥
IsRead (some read) packed s = read packed ≡ some s

abbrev pub IsLossless : Option Compressor → Type 0
IsLossless none = Unit
IsLossless (some cz) =
    (write : Bytes → Option Bytes) (s packed : Bytes)
    → cz.write ≡ some write
    → write s ≡ some packed
    → IsRead cz.read packed s

module _ (J : Type 0) (lib : Cjson J) where
  read-back :
      (cz : Compressor) (read : Option (Bytes → Option Bytes)) (packed s : Bytes)
      → cz.read ≡ read
      → IsRead read packed s
      → content_member J lib (some packed) true (some cz) ≡ some (content_member_of J lib s)
  read-back cz none packed s e r = absurd r
  read-back cz (some read) packed s e r = rw (e, r) refl

  -- Content that is stored, packed or not, is written as it was.
  pub content_member-stored :
      (m : Message) (s : Bytes) (cz : Option Compressor)
      → AreBytes s
      → IsText s
      → length s ≤ u16_max
      → IsLossless cz
      → content_member J lib
          (set_content m (some s) cz).content
          (set_content m (some s) cz).content_compressed
          cz
        ≡ some (content_member_of J lib s)
  unfolding set_content store store_written store_packed
  content_member-stored m s none w h k r = rw (storable_text s w h k) refl
  content_member-stored m s (some cz) w h k r =
      rw (storable_text s w h k) (elim (Bool-cases (leb cz.min_len (length s))) [
        | inl l ↦ rw l (written cz.write refl)
        | inr g ↦ rw g refl
      ])
    where
      written :
          (o : Option (Bytes → Option Bytes))
          → cz.write ≡ o
          → content_member J lib
              (store_written m s o).content
              (store_written m s o).content_compressed
              (some cz)
            ≡ some (content_member_of J lib s)
      written none e = refl
      written (some write) e = tried (write s) refl
        where
          tried :
              (o : Option Bytes)
              → write s ≡ o
              → content_member J lib
                  (store_packed m s o).content
                  (store_packed m s o).content_compressed
                  (some cz)
                ≡ some (content_member_of J lib s)
          tried none d = refl
          tried (some packed) d =
              elim (Bool-cases (ltb (length packed) (length s) && leb (length packed) u16_max)) [
                | inl f ↦ rw f (read-back cz cz.read packed s refl (r write s packed e d))
                | inr f ↦ rw f refl
              ]
