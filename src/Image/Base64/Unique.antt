-- ===== src/Image/Base64/Unique.antt =====
-- `clm_base64_encode` on what `clm_base64_decode` read.
use clm.Base.{
  ℕ, ◌+◌, ◌*◌, ◌/◌, ◌%◌, ◌≡◌, refl, sym, ap, subst, ◌∙◌, inl, inr, Bytes, Bool, true, ◌&&◌, Option,
  none, some, [], ◌∷◌, ◌++◌, length, arith, ◌==◌, ==_iff, Bool-cases,
}
use clm.Image.Base64.{
  digit, bits, b64val, take_bits, quantum, is_last, behind, decode_loop, base64_encode,
  base64_decode,
}
use clm.Image.Base64.Codes.{digit-b64val}
use clm.Image.Base64.RoundTrip.{digit_mod, b64val_pad}

-- The bytes of a quantum encode to its four characters; one with padding is the last.
Encodes : Bool → ℕ → ℕ → ℕ → ℕ → Bytes → Type 0
Encodes last a b c d out =
    (more : Bytes)
    → (last ≡ true → more ≡ [])
    → base64_encode (out ++ more) ≡ a ∷ b ∷ c ∷ d ∷ base64_encode more

some_inj : (x y : Bytes) → some x ≡ some y → x ≡ y
some_inj x y e = cc e

is_value : (c v u : ℕ) → b64val c ≡ some v → u % 64 ≡ v → digit u ≡ c
is_value c v u p h = let (small, same) = digit-b64val c v p in digit_mod u v (omega arith) ∙ same

-- With four values no byte is padding.
Encodes-three :
    (last : Bool) (a b c d x y z w : ℕ) (out : Bytes)
    → b64val a ≡ some x
    → b64val b ≡ some y
    → b64val c ≡ some z
    → b64val d ≡ some w
    → take_bits 0 (x * 262144 + y * 4096 + z * 64 + w) ≡ some out
    → Encodes last a b c d out
unfolding Encodes take_bits base64_encode
Encodes-three last a b c d x y z w out p q r s e more only =
    let v : ℕ = x * 262144 + y * 4096 + z * 64 + w in
    let lx = (digit-b64val a x p).0 in
    let ly = (digit-b64val b y q).0 in
    let lz = (digit-b64val c z r).0 in
    let lw = (digit-b64val d w s).0 in
    let whole : bits (v / 65536 % 256) (v / 256 % 256) (v % 256) ≡ v = omega arith in
    subst (λ o. base64_encode (o ++ more) ≡ a ∷ b ∷ c ∷ d ∷ base64_encode more) (some_inj _ out e)
      (rw
        (
          whole,
          is_value a x (v / 262144) p (omega arith),
          is_value b y (v / 4096) q (omega arith),
          is_value c z (v / 64) r (omega arith),
          is_value d w v s (omega arith),
        )
        refl)

-- With three the last byte is padding.
Encodes-two :
    (a b c x y z : ℕ) (out : Bytes)
    → b64val a ≡ some x
    → b64val b ≡ some y
    → b64val c ≡ some z
    → take_bits 1 (x * 262144 + y * 4096 + z * 64 + 0) ≡ some out
    → Encodes true a b c b'=' out
unfolding Encodes take_bits base64_encode
Encodes-two a b c x y z out p q r e more only =
    let v : ℕ = x * 262144 + y * 4096 + z * 64 + 0 in
    let lx = (digit-b64val a x p).0 in
    let ly = (digit-b64val b y q).0 in
    let lz = (digit-b64val c z r).0 in
    let even : v % 256 ≡ 0 = ground (arith, e) in
    let whole : bits (v / 65536 % 256) (v / 256 % 256) 0 ≡ v = omega arith in
    let kept : v / 65536 % 256 ∷ v / 256 % 256 ∷ [] ≡ out = some_inj _ out (rw even at e) in
    rw (only refl) (
      subst (λ o. base64_encode (o ++ []) ≡ a ∷ b ∷ c ∷ b'=' ∷ []) kept
        (rw
          (
            whole,
            is_value a x (v / 262144) p (omega arith),
            is_value b y (v / 4096) q (omega arith),
            is_value c z (v / 64) r (omega arith),
          )
          refl))

Encodes-one :
    (a b x y : ℕ) (out : Bytes)
    → b64val a ≡ some x
    → b64val b ≡ some y
    → take_bits 2 (x * 262144 + y * 4096 + 0 + 0) ≡ some out
    → Encodes true a b b'=' b'=' out
unfolding Encodes take_bits base64_encode
Encodes-one a b x y out p q e more only =
    let v : ℕ = x * 262144 + y * 4096 + 0 + 0 in
    let lx = (digit-b64val a x p).0 in
    let ly = (digit-b64val b y q).0 in
    let even : v % 65536 ≡ 0 = ground (arith, e) in
    let whole : bits (v / 65536 % 256) 0 0 ≡ v = omega arith in
    let kept : v / 65536 % 256 ∷ [] ≡ out = some_inj _ out (rw even at e) in
    rw (only refl) (
      subst (λ o. base64_encode (o ++ []) ≡ a ∷ b ∷ b'=' ∷ b'=' ∷ []) kept
        (rw
          (
            whole,
            is_value a x (v / 262144) p (omega arith),
            is_value b y (v / 4096) q (omega arith),
          )
          refl))

-- Whatever the values, what a quantum gives encodes to its characters.
quantum-Encodes :
    (last : Bool) (a b c d : ℕ) (out : Bytes) (va vb vc vd : Option ℕ)
    → b64val a ≡ va
    → b64val b ≡ vb
    → b64val c ≡ vc
    → b64val d ≡ vd
    → quantum last c d va vb vc vd ≡ some out
    → Encodes last a b c d out
unfolding quantum
quantum-Encodes last a b c d out none vb vc vd p q r s e = absurd (cc e)
quantum-Encodes last a b c d out (some x) none vc vd p q r s e = absurd (cc e)
quantum-Encodes last a b c d out (some x) (some y) none vd p q r s e =
    elim (Bool-cases (last && (c == b'=' && d == b'='))) [
      | inr bad ↦ absurd (cc (rw bad at e))
      | inl good ↦
          let at_end : last ≡ true = ground arith in
          let third : c ≡ b'=' = (==_iff c b'=').0 (ground arith) in
          let fourth : d ≡ b'=' = (==_iff d b'=').0 (ground arith) in
          let no_value : vd ≡ none = sym s ∙ ap b64val fourth ∙ b64val_pad in
          let e' : take_bits 2 (x * 262144 + y * 4096 + 0 + 0) ≡ some out =
            rw (at_end, third, fourth, no_value) at e in
          rw (at_end, third, fourth) (Encodes-one a b x y out p q e')
    ]
quantum-Encodes last a b c d out (some x) (some y) (some z) none p q r s e =
    elim (Bool-cases (last && d == b'=')) [
      | inr bad ↦ absurd (cc (rw bad at e))
      | inl good ↦
          let at_end : last ≡ true = ground arith in
          let fourth : d ≡ b'=' = (==_iff d b'=').0 (ground arith) in
          let e' : take_bits 1 (x * 262144 + y * 4096 + z * 64 + 0) ≡ some out =
            rw (at_end, fourth) at e in
          rw (at_end, fourth) (Encodes-two a b c x y z out p q r e')
    ]
quantum-Encodes last a b c d out (some x) (some y) (some z) (some w) p q r s e =
    Encodes-three last a b c d x y z w out p q r s e

decode_loop_last :
    (rest more : Bytes) → is_last rest ≡ true → decode_loop rest ≡ some more → more ≡ []
unfolding decode_loop
decode_loop_last [] more l e = sym (some_inj [] more e)
decode_loop_last (b ∷ rest) more l e = absurd (cc l)

encode-decode_loop : (t s : Bytes) → decode_loop t ≡ some s → base64_encode s ≡ t
unfolding decode_loop
encode-decode_loop [] s e =
    subst (λ o. base64_encode o ≡ []) (some_inj [] s e) (unfold base64_encode in refl)
encode-decode_loop (a ∷ []) s e = absurd (cc e)
encode-decode_loop (a ∷ b ∷ []) s e = absurd (cc e)
encode-decode_loop (a ∷ b ∷ c ∷ []) s e = absurd (cc e)
encode-decode_loop (a ∷ b ∷ c ∷ d ∷ rest) s e =
    both (quantum (is_last rest) c d (b64val a) (b64val b) (b64val c) (b64val d)) (decode_loop rest)
      (encode-decode_loop rest) refl refl e
  where
    both :
        (o m : Option Bytes)
        → ((more : Bytes) → decode_loop rest ≡ some more → base64_encode more ≡ rest)
        → quantum (is_last rest) c d (b64val a) (b64val b) (b64val c) (b64val d) ≡ o
        → decode_loop rest ≡ m
        → behind o m ≡ some s
        → base64_encode s ≡ a ∷ b ∷ c ∷ d ∷ rest
    both none m ih p q h = absurd (cc h)
    both (some out) none ih p q h = absurd (cc h)
    both (some out) (some more) ih p q h =
        let ends : is_last rest ≡ true → more ≡ [] = λ l. decode_loop_last rest more l q in
        let coded = quantum-Encodes (is_last rest) a b c d out _ _ _ _ refl refl refl refl p in
        subst (λ o. base64_encode o ≡ a ∷ b ∷ c ∷ d ∷ rest) (some_inj _ s h)
          (unfold Encodes in coded more ends ∙ ap (λ r. a ∷ b ∷ c ∷ d ∷ r) (ih more q))

-- Each byte string has exactly one encoding: text that decodes to it is its encoding.
pub encode-base64_decode : (t s : Bytes) → base64_decode t ≡ some s → base64_encode s ≡ t
unfolding base64_decode
encode-base64_decode t s e = elim (Bool-cases (length t % 4 == 0)) [
  | inl whole ↦ encode-decode_loop t s (rw whole at e)
  | inr torn ↦ absurd (cc (rw torn at e))
]
