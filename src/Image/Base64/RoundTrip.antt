-- ===== src/Image/Base64/RoundTrip.antt =====
-- `clm_base64_decode` on what `clm_base64_encode` wrote.
use clm.Base.{
  ℕ, ◌+◌, ◌*◌, ◌/◌, ◌%◌, ◌<◌, ◌≡◌, refl, ap, Bytes, Bool, true, none, some, [], ◌∷◌, length, get_or,
  arith, ◌==◌, ==_iff,
}
use clm.Utf8.Chars.{AreBytes}
use clm.Image.Base64.{
  tab, digit, bits, b64val, take_bits, quantum, is_last, decode_loop, base64_len, base64_encode,
  base64_decode,
}
use clm.Image.Base64.Codes.{b64val-digit}

pub digit_mod : (u v : ℕ) → u % 64 ≡ v % 64 → digit u ≡ digit v
unfolding digit
digit_mod u v h = ap (λ w. get_or tab w 0) h

pub b64val_pad : b64val b'=' ≡ none
unfolding b64val
b64val_pad = refl

-- Three bytes, two and one, coded and decoded.
quantum_three :
    (last : Bool) (p q a b c : ℕ)
    → a < 256
    → b < 256
    → c < 256
    → quantum last p q
        (b64val (digit (bits a b c / 262144)))
        (b64val (digit (bits a b c / 4096)))
        (b64val (digit (bits a b c / 64)))
        (b64val (digit (bits a b c)))
      ≡ some (a ∷ b ∷ c ∷ [])
unfolding quantum take_bits
quantum_three last p q a b c ha hb hc =
    let v = bits a b c in
    let whole : v / 262144 % 64 * 262144 + v / 4096 % 64 * 4096 + v / 64 % 64 * 64 + v % 64 ≡ v =
      omega arith in
    let x : v / 65536 % 256 ≡ a = omega arith in
    let y : v / 256 % 256 ≡ b = omega arith in
    let z : v % 256 ≡ c = omega arith in
    rw
      (
        b64val-digit (v / 262144),
        b64val-digit (v / 4096),
        b64val-digit (v / 64),
        b64val-digit v,
        whole,
        x,
        y,
        z,
      )
      refl

quantum_two :
    (p a b : ℕ)
    → a < 256
    → b < 256
    → quantum true p b'='
        (b64val (digit (bits a b 0 / 262144)))
        (b64val (digit (bits a b 0 / 4096)))
        (b64val (digit (bits a b 0 / 64)))
        (b64val b'=')
      ≡ some (a ∷ b ∷ [])
unfolding quantum take_bits
quantum_two p a b ha hb =
    let v = bits a b 0 in
    let whole : v / 262144 % 64 * 262144 + v / 4096 % 64 * 4096 + v / 64 % 64 * 64 + 0 ≡ v =
      omega arith in
    let x : v / 65536 % 256 ≡ a = omega arith in
    let y : v / 256 % 256 ≡ b = omega arith in
    let z : v % 256 ≡ 0 = omega arith in
    rw
      (
        b64val-digit (v / 262144),
        b64val-digit (v / 4096),
        b64val-digit (v / 64),
        b64val_pad,
        whole,
        x,
        y,
        z,
      )
      refl

quantum_one :
    (a : ℕ)
    → a < 256
    → quantum true b'=' b'='
        (b64val (digit (bits a 0 0 / 262144)))
        (b64val (digit (bits a 0 0 / 4096)))
        (b64val b'=')
        (b64val b'=')
      ≡ some (a ∷ [])
unfolding quantum take_bits
quantum_one a ha =
    let v = bits a 0 0 in
    let whole : v / 262144 % 64 * 262144 + v / 4096 % 64 * 4096 + 0 + 0 ≡ v = omega arith in
    let x : v / 65536 % 256 ≡ a = omega arith in
    let z : v % 65536 ≡ 0 = omega arith in
    rw (b64val-digit (v / 262144), b64val-digit (v / 4096), b64val_pad, whole, x, z) refl

decode_loop-encode : (s : Bytes) → AreBytes s → decode_loop (base64_encode s) ≡ some s
unfolding base64_encode decode_loop
decode_loop-encode [] w = refl
decode_loop-encode (a ∷ []) w = rw (quantum_one a w.0) refl
decode_loop-encode (a ∷ b ∷ []) w = rw (quantum_two _ a b w.0 w.1.0) refl
decode_loop-encode (a ∷ b ∷ c ∷ rest) w =
    rw
      (
        quantum_three (is_last (base64_encode rest)) _ _ a b c w.0 w.1.0 w.1.1.0,
        decode_loop-encode rest w.1.1.1,
      )
      refl

-- The encoding has the length that `clm_base64_len` says, a multiple of four.
pub length-base64_encode : (s : Bytes) → length (base64_encode s) ≡ base64_len (length s)
unfolding base64_encode base64_len
length-base64_encode [] = refl
length-base64_encode (a ∷ []) = refl
length-base64_encode (a ∷ b ∷ []) = refl
length-base64_encode (a ∷ b ∷ c ∷ rest) = omega (arith, length-base64_encode rest)

-- What is encoded decodes to itself.
pub base64_decode-encode : (s : Bytes) → AreBytes s → base64_decode (base64_encode s) ≡ some s
unfolding base64_decode base64_len
base64_decode-encode s w =
    let four : (length (base64_encode s) % 4 == 0) ≡ true =
      (==_iff _ _).1 (omega (arith, length-base64_encode s)) in
    rw four (decode_loop-encode s w)
