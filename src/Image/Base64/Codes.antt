-- ===== src/Image/Base64/Codes.antt =====
-- The alphabet of libclm/image.c: `b64val` and `tab`.
use clm.Base.{
  ℕ, zero, suc, ◌%◌, ◌<◌, ◌≡◌, refl, Bool, true, false, ◌&&◌, Option, none, some, get_or, arith,
  ltb, ◌==◌, ==_iff, inl, inr, Bool-cases,
}
use clm.Image.Base64.{tab, digit, b64val}

-- A property of every number below a bound, by computation.
all_below : (ℕ → Bool) → ℕ → Bool
all_below p zero = true
all_below p (suc n) = p n && all_below p n

all_below-lookup : (p : ℕ → Bool) (n v : ℕ) → all_below p n ≡ true → v < n → p v ≡ true
unfolding all_below
all_below-lookup p zero v h l = absurd (omega arith)
all_below-lookup p (suc n) v h l = elim (Bool-cases (v == n)) [
  | inl here ↦ rw ((==_iff v n).0 here) (ground arith)
  | inr further ↦ all_below-lookup p n v (ground arith) (ground arith)
]

is_some : Option ℕ → ℕ → Bool
is_some none v = false
is_some (some w) v = w == v

is_some_lem : (o : Option ℕ) (v : ℕ) → is_some o v ≡ true → o ≡ some v
unfolding is_some
is_some_lem none v h = absurd (cc h)
is_some_lem (some w) v h = rw ((==_iff w v).0 h) refl

digits_checked : all_below (λ w. is_some (b64val (get_or tab w 0)) w) 64 ≡ true
unfolding b64val is_some all_below
digits_checked = refl

-- The value of a digit is what it was made from.
pub b64val-digit : (v : ℕ) → b64val (digit v) ≡ some (v % 64)
unfolding digit
b64val-digit v = is_some_lem (b64val (get_or tab (v % 64) 0)) (v % 64) (
    all_below-lookup (λ w. is_some (b64val (get_or tab w 0)) w) 64 (v % 64) digits_checked
      (omega arith))

is_digit_of : ℕ → Option ℕ → Bool
is_digit_of c none = true
is_digit_of c (some v) = ltb v 64 && digit v == c

values_checked : all_below (λ c. is_digit_of c (b64val c)) 123 ≡ true
unfolding b64val is_digit_of digit all_below
values_checked = refl

b64val_small : (c v : ℕ) → b64val c ≡ some v → c < 123
unfolding b64val
b64val_small c v h = ground arith

-- A character that has a value is the digit of it.
pub digit-b64val : (c v : ℕ) → b64val c ≡ some v → (v < 64) × (digit v ≡ c)
unfolding is_digit_of
digit-b64val c v h =
    let checked : is_digit_of c (b64val c) ≡ true =
      all_below-lookup (λ d. is_digit_of d (b64val d)) 123 c values_checked (b64val_small c v h) in
    let both : (ltb v 64 && digit v == c) ≡ true = rw h at checked in
    (ground arith, (==_iff (digit v) c).0 (ground arith))
