-- ===== src/Image/Sniff.antt =====
-- `clm_image_sniff` of libclm/image.c: the type and the size of an image, from its first bytes.
-- A pointer into the data is an offset. Each read says that it is out of bounds where it is, in place
-- of undefined behaviour, so that a theorem can exclude it. The loop over the JPEG markers goes on by
-- one byte at least; its fuel is the length of the data, and running out of it is a result too.
pub mod Bounds
pub mod Safe
use clm.Base.{
  ℕ, zero, suc, ◌+◌, ◌*◌, ◌/◌, ◌%◌, Bytes, Bool, true, false, not, ◌&&◌, ◌||◌, Option, none, some,
  List, [], ◌∷◌, length, take, drop, get_or, codes, bytes_eq, if◌then◌else◌, ltb, leb, ◌==◌,
}

pub data Sniffed : Type 0 where
  found : ℕ → ℕ → Sniffed
  refused out_of_bounds no_fuel : Sniffed

-- `d[i]`.
pub byte : Bytes → ℕ → (ℕ → Sniffed) → Sniffed
byte d i next = if ltb i (length d) then next (get_or d i 0) else out_of_bounds

-- `memcmp(d + i, text, strlen(text)) == 0`.
pub has_at : Bytes → ℕ → Bytes → (Bool → Sniffed) → Sniffed
has_at d i text next =
    if leb (i + length text) (length d)
    then next (bytes_eq (take (length text) (drop i d)) text)
    else out_of_bounds

pub be16 : Bytes → ℕ → (ℕ → Sniffed) → Sniffed
unfolding byte
be16 d i next = byte d i (λ a. byte d (i + 1) (λ b. next (a * 256 + b)))

pub be32 : Bytes → ℕ → (ℕ → Sniffed) → Sniffed
be32 d i next = be16 d i (λ high. be16 d (i + 2) (λ low. next (high * 65536 + low)))

pub le16 : Bytes → ℕ → (ℕ → Sniffed) → Sniffed
le16 d i next = byte d (i + 1) (λ a. byte d i (λ b. next (a * 256 + b)))

pub le24 : Bytes → ℕ → (ℕ → Sniffed) → Sniffed
le24 d i next =
    byte d (i + 2) (λ a. byte d (i + 1) (λ b. byte d i (λ c. next (a * 65536 + b * 256 + c))))

pub sniff_png : Bytes → Sniffed
sniff_png d =
    if ltb (length d) 24
    then refused
    else has_at d 12 (codes "IHDR")
        (λ same. if same then be32 d 16 (λ w. be32 d 20 (λ h. found w h)) else refused)

-- SOF0..SOF15, except DHT, JPG and DAC.
abbrev pub is_frame : ℕ → Bool
is_frame m = leb 0xC0 m && (leb m 0xCF && (not (m == 0xC4) && (not (m == 0xC8) && not (m == 0xCC))))

-- A marker with no length.
abbrev pub is_bare : ℕ → Bool
is_bare m = m == 0x01 || (leb 0xD0 m && leb m 0xD8)

-- At a start of frame, which holds the size.
pub frame_size : Bytes → ℕ → ℕ → Sniffed
frame_size d i seg =
    if ltb (length d) (i + 9) || ltb seg 7
    then refused
    else be16 d (i + 5) (λ h. be16 d (i + 7) (λ w. found w h))

-- The segment at `i`, with the marker `m`: what it is, or the walk from behind it.
pub at_segment : Bytes → ℕ → ℕ → (ℕ → Sniffed) → Sniffed
at_segment d i m walk =
    if m == 0xFF
    then walk (i + 1)
    else if is_bare m
    then walk (i + 2)
    else be16 d (i + 2) (λ seg.
      if ltb seg 2
      then refused
      else if is_frame m
      then frame_size d i seg
      else walk (i + (2 + seg)))

-- One turn of the `while` loop at the offset `i`.
pub at_marker : Bytes → ℕ → (ℕ → Sniffed) → Sniffed
at_marker d i walk =
    if leb (i + 4) (length d)
    then byte d i
        (λ first. if first == 0xFF then byte d (i + 1) (λ m. at_segment d i m walk) else refused)
    else refused

pub walk_markers : Bytes → ℕ → ℕ → Sniffed
walk_markers d zero i = no_fuel
walk_markers d (suc fuel) i = at_marker d i (λ j. walk_markers d fuel j)

pub sniff_jpeg : Bytes → Sniffed
sniff_jpeg d = walk_markers d (length d) 2

pub sniff_gif : Bytes → Sniffed
sniff_gif d = if ltb (length d) 10 then refused else le16 d 6 (λ w. le16 d 8 (λ h. found w h))

-- The three kinds of WebP, by the name of the first chunk.
pub webp_extended : Bytes → Sniffed
webp_extended d = le24 d 24 (λ w. le24 d 27 (λ h. found (w + 1) (h + 1)))

pub webp_lossless : Bytes → Sniffed
webp_lossless d = byte d 20 (λ mark.
    if mark == 0x2F
    then byte d 21 (λ a. byte d 22 (λ b. byte d 23 (λ c. byte d 24 (λ e.
      let v = a + b * 256 + c * 65536 + e * 16777216 in
      found (v % 16384 + 1) (v / 16384 % 16384 + 1)))))
    else refused)

pub webp_lossy : Bytes → Sniffed
webp_lossy d = byte d 23 (λ a. byte d 24 (λ b. byte d 25 (λ c.
    if a == 0x9D && (b == 0x01 && c == 0x2A)
    then le16 d 26 (λ w. le16 d 28 (λ h. found (w % 16384) (h % 16384)))
    else refused)))

pub sniff_webp : Bytes → Sniffed
sniff_webp d =
    if ltb (length d) 30
    then refused
    else has_at d 12 (codes "VP8X") (λ extended.
      if extended
      then webp_extended d
      else has_at d 12 (codes "VP8L") (λ lossless.
        if lossless
        then webp_lossless d
        else has_at d 12 (codes "VP8 ") (λ lossy. if lossy then webp_lossy d else refused)))

-- `len >= n && memcmp(data + i, text, strlen(text)) == 0`, where the second is only read after the first.
pub starts : Bytes → ℕ → ℕ → Bytes → (Bool → Sniffed) → Sniffed
starts d n i text next = if leb n (length d) then has_at d i text next else next false

-- No image without pixels.
abbrev pub checked : Sniffed → Sniffed
checked (found w h) = if w == 0 || h == 0 then refused else found w h
checked refused = refused
checked out_of_bounds = out_of_bounds
checked no_fuel = no_fuel

abbrev pub png_mark : Bytes
png_mark = 0x89 ∷ b'P' ∷ b'N' ∷ b'G' ∷ b'\r' ∷ b'\n' ∷ 0x1A ∷ b'\n' ∷ []

abbrev pub jpeg_mark : Bytes
jpeg_mark = 0xFF ∷ 0xD8 ∷ 0xFF ∷ []

-- The size of an image of one of the four types, by its first bytes.
pub sniff_webp_or : Bytes → Sniffed
sniff_webp_or d = starts d 12 0 (codes "RIFF") (λ riff.
    if riff
    then has_at d 8 (codes "WEBP") (λ webp. if webp then sniff_webp d else refused)
    else refused)

pub sniff_gif_or : Bytes → Sniffed
sniff_gif_or d = starts d 6 0 (codes "GIF87a") (λ old.
    if old
    then sniff_gif d
    else starts d 6 0 (codes "GIF89a") (λ new. if new then sniff_gif d else sniff_webp_or d))

pub sniff_jpeg_or : Bytes → Sniffed
sniff_jpeg_or d = starts d 3 0 jpeg_mark (λ jpeg. if jpeg then sniff_jpeg d else sniff_gif_or d)

-- `clm_image_sniff`, less the name of the type, which is `image_type`.
pub image_sniff : Option Bytes → Sniffed
image_sniff none = refused
image_sniff (some d) =
    checked (starts d 8 0 png_mark (λ png. if png then sniff_png d else sniff_jpeg_or d))

abbrev pub has_mark : Bytes → Bytes → Bool
has_mark d mark = bytes_eq (take (length mark) d) mark

-- The `media_type` that it reports where it finds an image.
unfoldable pub image_type : Bytes → Bytes
image_type d =
    if has_mark d png_mark
    then codes "image/png"
    else if has_mark d jpeg_mark
    then codes "image/jpeg"
    else if has_mark d (codes "GIF87a") || has_mark d (codes "GIF89a")
    then codes "image/gif"
    else codes "image/webp"
