-- ===== src/Image/Tests.antt =====
-- Runs of libclm/image.c on short data.
use clm.Base.{Bytes, ◌≡◌, refl, some, [], ◌∷◌, codes, arith}
use clm.Image.Base64.{base64_encode, base64_decode, quantum, b64val, take_bits, decode_loop}
use clm.Image.Base64.RoundTrip.{base64_decode-encode}
use clm.Image.Base64.Unique.{encode-base64_decode}
use clm.Image.Sniff.{image_sniff}
use clm.Image.Sniff.Safe.{IsImage, image_sniff-IsImage}

base64_decode-encode_example :
    base64_decode (base64_encode (codes "any carnal")) ≡ some (codes "any carnal")
base64_decode-encode_example = base64_decode-encode (codes "any carnal") (ground arith)

decoded : base64_decode (codes "c3VyZS4=") ≡ some (codes "sure.")
unfolding base64_decode decode_loop quantum b64val take_bits
decoded = refl

encode-base64_decode_example : base64_encode (codes "sure.") ≡ codes "c3VyZS4="
encode-base64_decode_example = encode-base64_decode (codes "c3VyZS4=") (codes "sure.") decoded

abbrev gif : Bytes
gif = b'G' ∷ b'I' ∷ b'F' ∷ b'8' ∷ b'9' ∷ b'a' ∷ 3 ∷ 1 ∷ 2 ∷ 0 ∷ []

image_sniff-IsImage_example : IsImage (image_sniff (some gif))
image_sniff-IsImage_example = image_sniff-IsImage (some gif)
