-- ===== src/Image/Sniff/Safe.antt =====
-- The reads and the loop of `clm_image_sniff` of libclm/image.c.
use clm.Base.{
  ℕ, zero, suc, ◌+◌, ◌≤◌, ◌<◌, Bytes, Bool, true, false, ◌&&◌, ◌||◌, Option, none, some, length,
  codes, arith, if◌then◌else◌, ltb, leb, ◌==◌, inl, inr, Bool-cases,
}
use clm.Image.Sniff.{
  Sniffed, found, refused, out_of_bounds, no_fuel, sniff_png, is_frame, is_bare, frame_size,
  at_segment, at_marker, walk_markers, sniff_jpeg, sniff_gif, webp_extended, webp_lossless,
  webp_lossy, sniff_webp, starts, checked, png_mark, jpeg_mark, sniff_webp_or, sniff_gif_or,
  sniff_jpeg_or, image_sniff,
}
use clm.Image.Sniff.Bounds.{
  IsDefined, byte-IsDefined, has_at-IsDefined, if-IsDefined, be16-IsDefined, be32-IsDefined,
  le16-IsDefined, le24-IsDefined,
}

sniff_png-IsDefined : (d : Bytes) → IsDefined (sniff_png d)
unfolding sniff_png
sniff_png-IsDefined d = elim (Bool-cases (ltb (length d) 24)) [
  | inl short ↦ rw short tt
  | inr long ↦ rw long (
      has_at-IsDefined d 12 (codes "IHDR") _ (ground arith) (λ same.
        if-IsDefined same _ refused
          (be32-IsDefined d 16 _ (ground arith)
            (λ w. be32-IsDefined d 20 _ (ground arith) (λ h. tt)))
          tt))
]

sniff_gif-IsDefined : (d : Bytes) → IsDefined (sniff_gif d)
unfolding sniff_gif
sniff_gif-IsDefined d = elim (Bool-cases (ltb (length d) 10)) [
  | inl short ↦ rw short tt
  | inr long ↦
      rw long
        (le16-IsDefined d 6 _ (ground arith) (λ w. le16-IsDefined d 8 _ (ground arith) (λ h. tt)))
]

webp_extended-IsDefined : (d : Bytes) → 30 ≤ length d → IsDefined (webp_extended d)
unfolding webp_extended
webp_extended-IsDefined d l =
    le24-IsDefined d 24 _ (omega arith) (λ w. le24-IsDefined d 27 _ (omega arith) (λ h. tt))

webp_lossless-IsDefined : (d : Bytes) → 30 ≤ length d → IsDefined (webp_lossless d)
unfolding webp_lossless
webp_lossless-IsDefined d l = byte-IsDefined d 20 _ (omega arith) (λ mark.
    if-IsDefined (mark == 0x2F) _ refused
      (byte-IsDefined d 21 _ (omega arith) (λ a. byte-IsDefined d 22 _ (omega arith) (λ b.
        byte-IsDefined d 23 _ (omega arith) (λ c. byte-IsDefined d 24 _ (omega arith) (λ e. tt)))))
      tt)

webp_lossy-IsDefined : (d : Bytes) → 30 ≤ length d → IsDefined (webp_lossy d)
unfolding webp_lossy
webp_lossy-IsDefined d l = byte-IsDefined d 23 _ (omega arith) (λ a.
    byte-IsDefined d 24 _ (omega arith) (λ b. byte-IsDefined d 25 _ (omega arith) (λ c.
      if-IsDefined (a == 0x9D && (b == 0x01 && c == 0x2A)) _ refused
        (le16-IsDefined d 26 _ (omega arith) (λ w. le16-IsDefined d 28 _ (omega arith) (λ h. tt)))
        tt)))

sniff_webp-IsDefined : (d : Bytes) → IsDefined (sniff_webp d)
unfolding sniff_webp
sniff_webp-IsDefined d = elim (Bool-cases (ltb (length d) 30)) [
  | inl short ↦ rw short tt
  | inr long ↦
      let enough : 30 ≤ length d = ground arith in
      rw long (
        has_at-IsDefined d 12 (codes "VP8X") _ (omega arith) (λ x.
          if-IsDefined x _ _ (webp_extended-IsDefined d enough) (
            has_at-IsDefined d 12 (codes "VP8L") _ (omega arith) (λ l.
              if-IsDefined l _ _ (webp_lossless-IsDefined d enough) (
                has_at-IsDefined d 12 (codes "VP8 ") _ (omega arith)
                  (λ v. if-IsDefined v _ refused (webp_lossy-IsDefined d enough) tt))))))
]

frame_size-IsDefined : (d : Bytes) (i seg : ℕ) → IsDefined (frame_size d i seg)
unfolding frame_size
frame_size-IsDefined d i seg = elim (Bool-cases (ltb (length d) (i + 9) || ltb seg 7)) [
  | inl short ↦ rw short tt
  | inr long ↦
      let inside : i + 9 ≤ length d = ground arith in
      rw long (
        be16-IsDefined d (i + 5) _ (omega arith)
          (λ h. be16-IsDefined d (i + 7) _ (omega arith) (λ w. tt)))
]

at_segment-IsDefined :
    (d : Bytes) (i m : ℕ) (walk : ℕ → Sniffed)
    → i + 4 ≤ length d
    → ((j : ℕ) → i < j → IsDefined (walk j))
    → IsDefined (at_segment d i m walk)
unfolding at_segment
at_segment-IsDefined d i m walk l h = if-IsDefined (m == 0xFF) _ _ (h (i + 1) (omega arith)) (
    if-IsDefined (is_bare m) _ _ (h (i + 2) (omega arith)) (
      be16-IsDefined d (i + 2) _ (omega arith) (λ seg. if-IsDefined (ltb seg 2) refused _ tt (
        if-IsDefined (is_frame m) _ _ (frame_size-IsDefined d i seg)
          (h (i + (2 + seg)) (omega arith))))))

at_marker-IsDefined :
    (d : Bytes) (i : ℕ) (walk : ℕ → Sniffed)
    → ((j : ℕ) → i + 4 ≤ length d → i < j → IsDefined (walk j))
    → IsDefined (at_marker d i walk)
unfolding at_marker
at_marker-IsDefined d i walk h = elim (Bool-cases (leb (i + 4) (length d))) [
  | inr outside ↦ rw outside tt
  | inl inside ↦
      let l : i + 4 ≤ length d = ground arith in
      rw inside (
        byte-IsDefined d i _ (omega arith) (λ first.
          if-IsDefined (first == 0xFF) _ refused
            (byte-IsDefined d (i + 1) _ (omega arith)
              (λ m. at_segment-IsDefined d i m walk l (λ j k. h j l k)))
            tt))
]

-- Each turn goes on, so the fuel lasts.
walk_markers-IsDefined :
    (d : Bytes) (fuel i : ℕ) → 0 < fuel → length d < fuel + i → IsDefined (walk_markers d fuel i)
unfolding walk_markers
walk_markers-IsDefined d zero i p l = absurd (omega arith)
walk_markers-IsDefined d (suc fuel) i p l =
    at_marker-IsDefined d i (λ j. walk_markers d fuel j)
      (λ j inside on. walk_markers-IsDefined d fuel j (omega arith) (omega arith))

sniff_jpeg-IsDefined : (d : Bytes) → 0 < length d → IsDefined (sniff_jpeg d)
unfolding sniff_jpeg
sniff_jpeg-IsDefined d p = walk_markers-IsDefined d (length d) 2 p (omega arith)

starts-IsDefined :
    (d : Bytes) (n i : ℕ) (text : Bytes) (next : Bool → Sniffed)
    → i + length text ≤ n
    → (n ≤ length d → IsDefined (next true))
    → IsDefined (next false)
    → IsDefined (starts d n i text next)
unfolding starts
starts-IsDefined d n i text next l h k = elim (Bool-cases (leb n (length d))) [
  | inr short ↦ rw short k
  | inl long ↦
      let enough : n ≤ length d = ground arith in
      rw long (
        has_at-IsDefined d i text next (omega arith)
          (λ same. elim (Bool-cases same) [ inl hit ↦ rw hit (h enough) | inr miss ↦ rw miss k ]))
]

sniff_webp_or-IsDefined : (d : Bytes) → IsDefined (sniff_webp_or d)
unfolding sniff_webp_or
sniff_webp_or-IsDefined d =
    starts-IsDefined d 12 0 (codes "RIFF") _ (omega arith)
      (λ l.
        has_at-IsDefined d 8 (codes "WEBP") _ (omega arith)
          (λ webp. if-IsDefined webp _ refused (sniff_webp-IsDefined d) tt))
      tt

sniff_gif_or-IsDefined : (d : Bytes) → IsDefined (sniff_gif_or d)
unfolding sniff_gif_or
sniff_gif_or-IsDefined d =
    starts-IsDefined d 6 0 (codes "GIF87a") _ (omega arith) (λ l. sniff_gif-IsDefined d)
      (starts-IsDefined d 6 0 (codes "GIF89a") _ (omega arith) (λ l. sniff_gif-IsDefined d)
        (sniff_webp_or-IsDefined d))

sniff_jpeg_or-IsDefined : (d : Bytes) → IsDefined (sniff_jpeg_or d)
unfolding sniff_jpeg_or
sniff_jpeg_or-IsDefined d =
    starts-IsDefined d 3 0 jpeg_mark _ (omega arith) (λ l. sniff_jpeg-IsDefined d (omega arith))
      (sniff_gif_or-IsDefined d)

-- A size that is not 0, or an honest refusal.
abbrev pub IsImage : Sniffed → Type 0
IsImage (found w h) = (0 < w) × (0 < h)
IsImage refused = Unit
IsImage out_of_bounds = ⊥
IsImage no_fuel = ⊥

checked-IsImage : (s : Sniffed) → IsDefined s → IsImage (checked s)
checked-IsImage (found w h) k = elim (Bool-cases (w == 0 || h == 0)) [
  | inl empty ↦ rw empty tt
  | inr full ↦ rw full (ground arith, ground arith)
]
checked-IsImage refused k = tt
checked-IsImage out_of_bounds k = k
checked-IsImage no_fuel k = k

-- Whatever the data, the recognition of an image reads no byte outside of it, comes to an end, and
-- reports a size of which neither side is 0, or refuses.
pub image_sniff-IsImage : (o : Option Bytes) → IsImage (image_sniff o)
unfolding image_sniff
image_sniff-IsImage none = tt
image_sniff-IsImage (some d) =
    checked-IsImage (starts d 8 0 png_mark (λ png. if png then sniff_png d else sniff_jpeg_or d)) (
      starts-IsDefined d 8 0 png_mark _ (omega arith) (λ l. sniff_png-IsDefined d)
        (sniff_jpeg_or-IsDefined d))
