-- ===== src/Image/Sniff/Bounds.antt =====
-- Reads of the data in libclm/image.c, and when they stay inside it.
use clm.Base.{
  ℕ, ◌+◌, ◌*◌, ◌≤◌, ◌<◌, Bytes, Bool, true, false, length, get_or, bytes_eq, take, drop, arith,
  if◌then◌else◌, ltb, leb, inl, inr, Bool-cases,
}
use clm.Image.Sniff.{
  Sniffed, found, refused, out_of_bounds, no_fuel, byte, has_at, be16, be32, le16, le24,
}

-- A size, or an honest refusal.
abbrev pub IsDefined : Sniffed → Type 0
IsDefined (found w h) = Unit
IsDefined refused = Unit
IsDefined out_of_bounds = ⊥
IsDefined no_fuel = ⊥

pub byte-IsDefined :
    (d : Bytes) (i : ℕ) (next : ℕ → Sniffed)
    → i < length d
    → ((b : ℕ) → IsDefined (next b))
    → IsDefined (byte d i next)
unfolding byte
byte-IsDefined d i next l h = elim (Bool-cases (ltb i (length d))) [
  | inl inside ↦ rw inside (h (get_or d i 0))
  | inr outside ↦ absurd (ground arith)
]

pub has_at-IsDefined :
    (d : Bytes) (i : ℕ) (text : Bytes) (next : Bool → Sniffed)
    → i + length text ≤ length d
    → ((b : Bool) → IsDefined (next b))
    → IsDefined (has_at d i text next)
unfolding has_at
has_at-IsDefined d i text next l h = elim (Bool-cases (leb (i + length text) (length d))) [
  | inl inside ↦ rw inside (h (bytes_eq (take (length text) (drop i d)) text))
  | inr outside ↦ absurd (ground arith)
]

-- A choice between two that are defined.
pub if-IsDefined :
    (c : Bool) (a b : Sniffed) → IsDefined a → IsDefined b → IsDefined (if c then a else b)
if-IsDefined true a b h k = h
if-IsDefined false a b h k = k

pub be16-IsDefined :
    (d : Bytes) (i : ℕ) (next : ℕ → Sniffed)
    → i + 1 < length d
    → ((b : ℕ) → IsDefined (next b))
    → IsDefined (be16 d i next)
unfolding be16
be16-IsDefined d i next l h =
    byte-IsDefined d i _ (omega arith) (λ a. byte-IsDefined d (i + 1) _ l (λ b. h (a * 256 + b)))

pub be32-IsDefined :
    (d : Bytes) (i : ℕ) (next : ℕ → Sniffed)
    → i + 3 < length d
    → ((b : ℕ) → IsDefined (next b))
    → IsDefined (be32 d i next)
unfolding be32
be32-IsDefined d i next l h =
    be16-IsDefined d i _ (omega arith)
      (λ a. be16-IsDefined d (i + 2) _ (omega arith) (λ b. h (a * 65536 + b)))

pub le16-IsDefined :
    (d : Bytes) (i : ℕ) (next : ℕ → Sniffed)
    → i + 1 < length d
    → ((b : ℕ) → IsDefined (next b))
    → IsDefined (le16 d i next)
unfolding le16
le16-IsDefined d i next l h =
    byte-IsDefined d (i + 1) _ l (λ a. byte-IsDefined d i _ (omega arith) (λ b. h (a * 256 + b)))

pub le24-IsDefined :
    (d : Bytes) (i : ℕ) (next : ℕ → Sniffed)
    → i + 2 < length d
    → ((b : ℕ) → IsDefined (next b))
    → IsDefined (le24 d i next)
unfolding le24
le24-IsDefined d i next l h = byte-IsDefined d (i + 2) _ l (λ a.
    byte-IsDefined d (i + 1) _ (omega arith)
      (λ b. byte-IsDefined d i _ (omega arith) (λ c. h (a * 65536 + b * 256 + c))))
