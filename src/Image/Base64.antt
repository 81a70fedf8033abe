-- ===== src/Image/Base64.antt =====
-- `clm_base64_encode` and `clm_base64_decode` of libclm/image.c.
-- The output is the list of bytes written, without the NUL. The 24 bits of a quantum are put
-- together with `+`, where the code has `|` of parts that share no bit.
pub mod Codes
pub mod RoundTrip
pub mod Unique
use clm.Base.{
  ℕ, zero, suc, ◌+◌, ◌-◌, ◌*◌, ◌/◌, ◌%◌, Bytes, Bool, true, false, not, ◌&&◌, ◌||◌, Option, none,
  some, List, [], ◌∷◌, ◌++◌, length, get_or, codes, if◌then◌else◌, ltb, leb, ◌==◌,
}

pub base64_len : ℕ → ℕ
base64_len n = (n + 2) / 3 * 4

abbrev pub tab : Bytes
tab = codes "ABCDEFGHIJKLMNOPQRSTUVWXYZabcdefghijklmnopqrstuvwxyz0123456789+/"

-- `tab[v & 63]`.
pub digit : ℕ → ℕ
digit v = get_or tab (v % 64) 0

abbrev pub bits : ℕ → ℕ → ℕ → ℕ
bits a b c = a * 65536 + b * 256 + c

pub base64_encode : Bytes → Bytes
base64_encode [] = []
base64_encode (a ∷ []) = digit (bits a 0 0 / 262144) ∷ digit (bits a 0 0 / 4096) ∷ b'=' ∷ b'=' ∷ []
base64_encode (a ∷ b ∷ []) =
    digit (bits a b 0 / 262144) ∷ digit (bits a b 0 / 4096) ∷ digit (bits a b 0 / 64) ∷ b'=' ∷ []
base64_encode (a ∷ b ∷ c ∷ rest) =
    digit (bits a b c / 262144)
    ∷ digit (bits a b c / 4096)
    ∷ digit (bits a b c / 64)
    ∷ digit (bits a b c)
    ∷ base64_encode rest

-- `b64val`, with `none` for -1.
unfoldable pub b64val : ℕ → Option ℕ
b64val c =
    if leb b'A' c && leb c b'Z'
    then some (c - b'A')
    else if leb b'a' c && leb c b'z'
    then some (c - b'a' + 26)
    else if leb b'0' c && leb c b'9'
    then some (c - b'0' + 52)
    else if c == b'+'
    then some 62
    else if c == b'/'
    then some 63
    else none

abbrev pub is_bad : Option ℕ → Bool
is_bad none = true
is_bad (some v) = false

-- `c < 0 ? 0 : c`.
abbrev pub or_zero : Option ℕ → ℕ
or_zero none = 0
or_zero (some v) = v

abbrev pub pad_of : Option ℕ → Option ℕ → ℕ
pad_of none vd = 2
pad_of (some v) none = 1
pad_of (some v) (some w) = 0

-- The bytes of a quantum, less the padding, where the bits that padding drops are zero.
unfoldable pub take_bits : ℕ → ℕ → Option Bytes
take_bits pad v =
    if (pad == 2 && not (v % 65536 == 0)) || (pad == 1 && not (v % 256 == 0))
    then none
    else some (
        v / 65536 % 256
        ∷ ((if ltb pad 2 then v / 256 % 256 ∷ [] else [])
            ++ (if ltb pad 1 then v % 256 ∷ [] else [])))

-- The body of the loop, with the values of the four characters and the last two of them.
unfoldable pub quantum : Bool → ℕ → ℕ → Option ℕ → Option ℕ → Option ℕ → Option ℕ → Option Bytes
quantum last c d va vb vc vd =
    if is_bad va || is_bad vb
    then none
    else if is_bad vc && not (last && (c == b'=' && d == b'='))
    then none
    else if is_bad vd && not (last && d == b'=')
    then none
    else take_bits (pad_of vc vd)
        (or_zero va * 262144 + or_zero vb * 4096 + or_zero vc * 64 + or_zero vd)

abbrev pub is_last : Bytes → Bool
is_last [] = true
is_last (b ∷ s) = false

abbrev pub behind : Option Bytes → Option Bytes → Option Bytes
behind none more = none
behind (some out) none = none
behind (some out) (some more) = some (out ++ more)

unfoldable pub decode_loop : Bytes → Option Bytes
decode_loop [] = some []
decode_loop (a ∷ b ∷ c ∷ d ∷ rest) =
    behind (quantum (is_last rest) c d (b64val a) (b64val b) (b64val c) (b64val d))
      (decode_loop rest)
decode_loop _ = none

unfoldable pub base64_decode : Bytes → Option Bytes
base64_decode s = if length s % 4 == 0 then decode_loop s else none
