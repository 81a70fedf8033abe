-- ===== src/Utf8/Chars.antt =====
-- `utf8_seq` and `put_utf8` on one character.
use clm.Base.{
  Bytes, is_continuation, ℕ, zero, suc, ◌+◌, ◌-◌, ◌*◌, ◌≤◌, ◌<◌, ◌≡◌, ◌⊎◌, inl, inr, true, [], ◌∷◌,
  ◌++◌, length, get_or, arith, ltb, Bool-cases,
}
use clm.Utf8.{put_utf8, seq_need, continues, is_excluded, utf8_seq}

-- A code point that is no surrogate.
abbrev pub IsScalar : ℕ → Type 0
IsScalar cp = (cp < 0xD800) ⊎ ((0xE000 ≤ cp) × (cp < 0x110000))

abbrev pub AreBytes : Bytes → Type 0
AreBytes [] = Unit
AreBytes (b ∷ s) = (b < 256) × AreBytes s

pub utf8_seq-put_utf8 :
    (cp : ℕ) (rest : Bytes) → IsScalar cp → utf8_seq (put_utf8 cp ++ rest) ≡ length (put_utf8 cp)
unfolding utf8_seq put_utf8 seq_need continues is_excluded
utf8_seq-put_utf8 cp rest h = ground arith

-- Behind the first byte of a character stand continuation bytes.
pub put_utf8-tail :
    (cp : ℕ) (rest : Bytes) (l : ℕ)
    → IsScalar cp
    → suc l < length (put_utf8 cp)
    → is_continuation (get_or (put_utf8 cp ++ rest) (suc l) 0) ≡ true
unfolding put_utf8
put_utf8-tail cp rest zero h k = ground arith
put_utf8-tail cp rest (suc zero) h k = ground arith
put_utf8-tail cp rest (suc (suc zero)) h k = ground arith
put_utf8-tail cp rest (suc (suc (suc l))) h k = absurd (ground arith)

-- The first sequence of a string, as a code point and the bytes behind it.
pub record FirstChar (s : Bytes) (n : ℕ) : Type 0 where
  pub code_point : ℕ
  pub scalar : IsScalar code_point
  pub behind : Bytes
  pub splits : s ≡ put_utf8 code_point ++ behind
  pub size : length (put_utf8 code_point) ≡ n

abbrev IsCont : ℕ → Type 0
IsCont c = (0x80 ≤ c) × (c < 0xC0)

one_char : (b : ℕ) (r : Bytes) → b < 0x80 → FirstChar (b ∷ r) 1
unfolding put_utf8
one_char b r h = record {
  code_point = b;
  scalar = inl (omega arith);
  behind = r;
  splits = ground arith;
  size = ground arith;
}

two_char : (b c : ℕ) (r : Bytes) → 0xC2 ≤ b → b < 0xE0 → IsCont c → FirstChar (b ∷ c ∷ r) 2
unfolding put_utf8
two_char b c r l u k = record {
  code_point = (b - 0xC0) * 64 + (c - 0x80);
  scalar = inl (omega arith);
  behind = r;
  splits = ground arith;
  size = ground arith;
}

abbrev point₃ : ℕ → ℕ → ℕ → ℕ
point₃ b c d = (b - 0xE0) * 4096 + (c - 0x80) * 64 + (d - 0x80)

three_char :
    (b c d : ℕ) (r : Bytes)
    → 0xE0 ≤ b
    → b < 0xF0
    → IsCont c
    → IsCont d
    → (b ≡ 0xE0 → 0xA0 ≤ c)
    → (b ≡ 0xED → c ≤ 0x9F)
    → FirstChar (b ∷ c ∷ d ∷ r) 3
unfolding put_utf8
three_char b c d r l u k m long low = record {
  code_point = point₃ b c d;
  scalar = ground arith;
  behind = r;
  splits = ground arith;
  size = ground arith;
}

abbrev point₄ : ℕ → ℕ → ℕ → ℕ → ℕ
point₄ b c d e = (b - 0xF0) * 262144 + (c - 0x80) * 4096 + (d - 0x80) * 64 + (e - 0x80)

four_char :
    (b c d e : ℕ) (r : Bytes)
    → 0xF0 ≤ b
    → b ≤ 0xF4
    → IsCont c
    → IsCont d
    → IsCont e
    → (b ≡ 0xF0 → 0x90 ≤ c)
    → (b ≡ 0xF4 → c ≤ 0x8F)
    → FirstChar (b ∷ c ∷ d ∷ e ∷ r) 4
unfolding put_utf8
four_char b c d e r l u k m n long low = record {
  code_point = point₄ b c d e;
  scalar = ground arith;
  behind = r;
  splits = ground arith;
  size = ground arith;
}

abbrev One : ℕ → ℕ → Type 0
One b n = (b < 0x80) × (n ≡ 0)

abbrev Two : ℕ → ℕ → ℕ → Type 0
Two b c n = (0xC2 ≤ b) × (b < 0xE0) × IsCont c × (n ≡ 1)

abbrev Three : ℕ → ℕ → ℕ → ℕ → Type 0
Three b c d n =
    (0xE0 ≤ b)
    × (b < 0xF0)
    × IsCont c
    × IsCont d
    × (b ≡ 0xE0 → 0xA0 ≤ c)
    × (b ≡ 0xED → c ≤ 0x9F)
    × (n ≡ 2)

abbrev Four : ℕ → ℕ → ℕ → ℕ → ℕ → Type 0
Four b c d e n =
    (0xF0 ≤ b)
    × (b ≤ 0xF4)
    × IsCont c
    × IsCont d
    × IsCont e
    × (b ≡ 0xF0 → 0x90 ≤ c)
    × (b ≡ 0xF4 → c ≤ 0x8F)
    × (n ≡ 3)

utf8_seq-Four :
    (b c d e : ℕ) (r : Bytes) (n : ℕ)
    → b < 256
    → c < 256
    → utf8_seq (b ∷ c ∷ d ∷ e ∷ r) ≡ suc n
    → One b n ⊎ (Two b c n ⊎ (Three b c d n ⊎ Four b c d e n))
unfolding utf8_seq seq_need continues is_excluded
utf8_seq-Four b c d e r n w x h = elim (Bool-cases (ltb b 0x80)) [
  | inl ascii ↦ inl (ground arith)
  | inr high ↦ elim (Bool-cases (ltb b 0xE0)) [
    | inl two ↦ inr (inl (ground arith))
    | inr more ↦ elim (Bool-cases (ltb b 0xF0)) [
      | inl three ↦ inr (inr (inl (ground arith)))
      | inr four ↦ inr (inr (inr (ground arith)))
    ]
  ]
]

utf8_seq-Three :
    (b c d : ℕ) (n : ℕ)
    → b < 256
    → c < 256
    → utf8_seq (b ∷ c ∷ d ∷ []) ≡ suc n
    → One b n ⊎ (Two b c n ⊎ Three b c d n)
unfolding utf8_seq seq_need continues is_excluded
utf8_seq-Three b c d n w x h = elim (Bool-cases (ltb b 0x80)) [
  | inl ascii ↦ inl (ground arith)
  | inr high ↦ elim (Bool-cases (ltb b 0xE0)) [
    | inl two ↦ inr (inl (ground arith))
    | inr more ↦ inr (inr (ground arith))
  ]
]

utf8_seq-Two : (b c : ℕ) (n : ℕ) → b < 256 → utf8_seq (b ∷ c ∷ []) ≡ suc n → One b n ⊎ Two b c n
unfolding utf8_seq seq_need continues is_excluded
utf8_seq-Two b c n w h = elim (Bool-cases (ltb b 0x80)) [
  | inl ascii ↦ inl (ground arith)
  | inr high ↦ inr (ground arith)
]

utf8_seq-One : (b n : ℕ) → b < 256 → utf8_seq (b ∷ []) ≡ suc n → One b n
unfolding utf8_seq seq_need continues is_excluded
utf8_seq-One b n w h = ground arith

One-first : (b n : ℕ) (r : Bytes) → One b n → FirstChar (b ∷ r) (suc n)
One-first b n r h = rw h.1 (one_char b r h.0)

Two-first : (b c n : ℕ) (r : Bytes) → Two b c n → FirstChar (b ∷ c ∷ r) (suc n)
Two-first b c n r h = rw h.3 (two_char b c r h.0 h.1 h.2)

Three-first : (b c d n : ℕ) (r : Bytes) → Three b c d n → FirstChar (b ∷ c ∷ d ∷ r) (suc n)
Three-first b c d n r h = rw h.6 (three_char b c d r h.0 h.1 h.2 h.3 h.4 h.5)

Four-first : (b c d e n : ℕ) (r : Bytes) → Four b c d e n → FirstChar (b ∷ c ∷ d ∷ e ∷ r) (suc n)
Four-first b c d e n r h = rw h.7 (four_char b c d e r h.0 h.1 h.2 h.3 h.4 h.5 h.6)

-- What `utf8_seq` takes is the encoding of a scalar value, and it tells its length.
pub FirstChar-of_utf8_seq :
    (s : Bytes) (n : ℕ) → AreBytes s → utf8_seq s ≡ suc n → FirstChar s (suc n)
unfolding utf8_seq
FirstChar-of_utf8_seq [] n w h = cc
FirstChar-of_utf8_seq (b ∷ []) n w h = One-first b n [] (utf8_seq-One b n w.0 h)
FirstChar-of_utf8_seq (b ∷ c ∷ []) n w h = elim (utf8_seq-Two b c n w.0 h) [
  | inl one ↦ One-first b n _ one
  | inr two ↦ Two-first b c n _ two
]
FirstChar-of_utf8_seq (b ∷ c ∷ d ∷ []) n w h = elim (utf8_seq-Three b c d n w.0 w.1.0 h) [
  | inl one ↦ One-first b n _ one
  | inr (inl two) ↦ Two-first b c n _ two
  | inr (inr three) ↦ Three-first b c d n _ three
]
FirstChar-of_utf8_seq (b ∷ c ∷ d ∷ e ∷ r) n w h = elim (utf8_seq-Four b c d e r n w.0 w.1.0 h) [
  | inl one ↦ One-first b n _ one
  | inr (inl two) ↦ Two-first b c n _ two
  | inr (inr (inl three)) ↦ Three-first b c d n _ three
  | inr (inr (inr four)) ↦ Four-first b c d e n r four
]
