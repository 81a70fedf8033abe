-- ===== src/History/Content.antt =====
-- What a message holds once its content is set.
use clm.Base.{
  ◌∙◌, ℕ, zero, suc, ◌≤◌, ◌≡◌, refl, ap, subst, inl, inr, Bytes, is_continuation, true, false, ◌&&◌,
  Option, none, some, [], length, length-take, take, get_or, arith, if◌then◌else◌, ltb, leb,
  Bool-cases,
}
use clm.Utf8.{utf8_repair}
use clm.Utf8.Chars.{AreBytes}
use clm.Utf8.Cut.{IsBoundary, take-IsText}
use clm.Utf8.Repair.{IsText, utf8_repair-none, utf8_repair-some}
use clm.History.{
  Message, Compressor, u16, u16_max, cut_at, repaired, storable, store_plain, store_packed,
  store_written, store, set_content,
}

cut_at-le : (l : ℕ) (s : Bytes) → cut_at l s ≤ l
unfolding cut_at
cut_at-le zero s = omega arith
cut_at-le (suc l) s = ground (arith, cut_at-le l s)

-- The loop stops at the start, or before a byte that is no continuation.
cut_at-IsBoundary : (l : ℕ) (s : Bytes) → IsBoundary (cut_at l s) s
unfolding cut_at
cut_at-IsBoundary zero s = inl refl
cut_at-IsBoundary (suc l) s = elim (Bool-cases (is_continuation (get_or s (suc l) 0))) [
  | inl more ↦ rw more (cut_at-IsBoundary l s)
  | inr here ↦ rw here (inr here)
]

-- The content that is stored is well-formed and no longer than `content_len` can say.
storable_lem : (s : Bytes) → AreBytes s → IsText (storable s) × (length (storable s) ≤ u16_max)
unfolding storable
storable_lem s w = cut (repaired s (utf8_repair s)) (repaired-IsText (utf8_repair s) refl)
  where
    repaired-IsText : (o : Option Bytes) → utf8_repair s ≡ o → IsText (repaired s o)
    repaired-IsText none e = (utf8_repair-none s w).0 e
    repaired-IsText (some t) e = (utf8_repair-some s t w e).0

    cut :
        (t : Bytes)
        → IsText t
        → IsText (if ltb u16_max (length t) then take (cut_at u16_max t) t else t)
          × (length (if ltb u16_max (length t) then take (cut_at u16_max t) t else t) ≤ u16_max)
    cut t h = elim (Bool-cases (ltb u16_max (length t))) [
      | inl long ↦ rw long (
        take-IsText t (cut_at u16_max t) h (cut_at-IsBoundary u16_max t),
        omega (arith, length-take (cut_at u16_max t) t, cut_at-le u16_max t),
      )
      | inr short ↦ rw short (h, ground arith)
    ]

-- The bytes that a caller passes.
abbrev pub given : Option Bytes → Bytes
given none = []
given (some s) = s

-- What is stored as plain text is well-formed, and `content_len` is the length of what is stored.
pub record IsStored (m : Message) : Type 0 where
  pub text : (c : Bytes) → m.content ≡ some c → m.content_compressed ≡ false → IsText c
  pub sized : (c : Bytes) → m.content ≡ some c → m.content_len ≡ length c
  pub empty : m.content ≡ none → m.content_len ≡ 0

store_plain-IsStored :
    (m : Message) (t : Bytes) → IsText t → length t ≤ u16_max → IsStored (store_plain m t)
store_plain-IsStored m t h k = record {
  text = λ c e z. subst IsText (ground arith) h;
  sized = λ c e. ground arith;
  empty = λ e. cc;
}

pack : Message → Bytes → Message
pack m packed = record m {
  content = some packed;
  content_len = u16 (length packed);
  content_compressed = true;
}

pack-IsStored : (m : Message) (packed : Bytes) → length packed ≤ u16_max → IsStored (pack m packed)
unfolding pack
pack-IsStored m packed k = record {
  text = λ c e z. absurd (cc z);
  sized = λ c e. ground arith;
  empty = λ e. cc;
}

store_packed-IsStored :
    (m : Message) (t : Bytes) (o : Option Bytes)
    → IsText t
    → length t ≤ u16_max
    → IsStored (store_packed m t o)
unfolding store_packed pack
store_packed-IsStored m t none h k = store_plain-IsStored m t h k
store_packed-IsStored m t (some packed) h k =
    elim (Bool-cases (ltb (length packed) (length t) && leb (length packed) u16_max)) [
      | inl better ↦ rw better (pack-IsStored m packed (ground arith))
      | inr worse ↦ rw worse (store_plain-IsStored m t h k)
    ]

store_written-IsStored :
    (m : Message) (t : Bytes) (w : Option (Bytes → Option Bytes))
    → IsText t
    → length t ≤ u16_max
    → IsStored (store_written m t w)
unfolding store_written
store_written-IsStored m t none h k = store_plain-IsStored m t h k
store_written-IsStored m t (some write) h k = store_packed-IsStored m t (write t) h k

store-IsStored :
    (m : Message) (t : Bytes) (cz : Option Compressor)
    → IsText t
    → length t ≤ u16_max
    → IsStored (store m t cz)
unfolding store
store-IsStored m t none h k = store_plain-IsStored m t h k
store-IsStored m t (some cz) h k = elim (Bool-cases (leb cz.min_len (length t))) [
  | inl long ↦ rw long (store_written-IsStored m t cz.write h k)
  | inr short ↦ rw short (store_plain-IsStored m t h k)
]

-- Whatever bytes a message is given, and whatever the compressor does, what is stored as plain text
-- is well-formed UTF-8, and `content_len` is the number of bytes stored.
pub set_content-IsStored :
    (m : Message) (content : Option Bytes) (cz : Option Compressor)
    → AreBytes (given content)
    → IsStored (set_content m content cz)
unfolding set_content
set_content-IsStored m none cz w = record {
  text = λ c e z. absurd (cc e);
  sized = λ c e. absurd (cc e);
  empty = λ e. refl;
}
set_content-IsStored m (some s) cz w =
    let (h, k) = storable_lem s w in store-IsStored m (storable s) cz h k

pub storable_text : (s : Bytes) → AreBytes s → IsText s → length s ≤ u16_max → storable s ≡ s
unfolding storable
storable_text s w h k = rw ((utf8_repair-none s w).1 h) (ground arith)

-- Well-formed content of at most 65535 bytes is stored as it is when there is no compressor.
pub set_content_text :
    (m : Message) (s : Bytes)
    → AreBytes s
    → IsText s
    → length s ≤ u16_max
    → (set_content m (some s) none).content ≡ some s
unfolding set_content store
set_content_text m s w h k = ap some (storable_text s w h k)

storable-le : (s : Bytes) → AreBytes s → IsText s → length (storable s) ≤ length s
unfolding storable
storable-le s w h =
    rw ((utf8_repair-none s w).1 h) (ground (arith, length-take (cut_at u16_max s) s))

store-le :
    (m : Message) (t : Bytes) (cz : Option Compressor) → (store m t cz).content_len ≤ length t
unfolding store store_written
store-le m t none = omega arith
store-le m t (some cz) = written cz.write
  where
    packed_le : (o : Option Bytes) → (store_packed m t o).content_len ≤ length t
    packed_le none = unfold store_packed in omega arith
    packed_le (some packed) = unfold store_packed in ground arith

    written :
        (w : Option (Bytes → Option Bytes))
        → (if leb cz.min_len (length t) then store_written m t w else store_plain m t).content_len
          ≤ length t
    written none = ground arith
    written (some write) = ground (arith, packed_le (write t))

-- Well-formed content never takes more room than it has bytes.
pub set_content_len-le :
    (m : Message) (s : Bytes) (cz : Option Compressor)
    → AreBytes s
    → IsText s
    → (set_content m (some s) cz).content_len ≤ length s
unfolding set_content
set_content_len-le m s cz w h = omega (arith, store-le m (storable s) cz, storable-le s w h)

-- Storing content changes nothing else of the message.
pub record SameFrame (a b : Message) : Type 0 where
  pub role : a.role ≡ b.role
  pub tool_call_id : a.tool_call_id ≡ b.tool_call_id
  pub tool_name : a.tool_name ≡ b.tool_name
  pub tool_calls : a.tool_calls ≡ b.tool_calls
  pub attachments : a.attachments ≡ b.attachments

pub set_content-SameFrame :
    (m : Message) (content : Option Bytes) (cz : Option Compressor)
    → SameFrame (set_content m content cz) m
unfolding set_content store store_written store_packed
set_content-SameFrame m none cz = ground arith
set_content-SameFrame m (some s) none = ground arith
set_content-SameFrame m (some s) (some cz) = written cz.write
  where
    written :
        (w : Option (Bytes → Option Bytes))
        → SameFrame
            (if leb cz.min_len (length (storable s))
              then store_written m (storable s) w
              else store_plain m (storable s))
            m
    written none = ground arith
    written (some write) = tried (write (storable s))
      where
        tried :
            (o : Option Bytes)
            → SameFrame
                (if leb cz.min_len (length (storable s))
                  then store_packed m (storable s) o
                  else store_plain m (storable s))
                m
        tried none = ground arith
        tried (some packed) = ground arith

-- Without a compressor nothing is stored compressed.
pub set_content_plain :
    (m : Message) (content : Option Bytes) → (set_content m content none).content_compressed ≡ false
unfolding set_content store
set_content_plain m none = refl
set_content_plain m (some s) = refl

-- Well-formed content that fits is stored as it is, and its length with it.
pub set_content_fit :
    (m : Message) (s : Bytes)
    → AreBytes s
    → IsText s
    → length s ≤ u16_max
    → set_content m (some s) none
      ≡ record m { content = some s; content_len = length s; content_compressed = false }
unfolding set_content store
set_content_fit m s w h k =
    let small : u16 (length s) ≡ length s = omega arith in
    ap (store_plain m) (storable_text s w h k)
    ∙ ap (λ l. record m { content = some s; content_len = l; content_compressed = false }) small
