-- ===== src/Base.antt =====
-- The names that the other modules share: the libraries', passed on, and those of the children.
mod Tests
mod Lists
mod Strings
pub use Tests.*
pub use Lists.*
unfoldable pub use Strings.{bytes_eq, names, before_nul}
pub use Strings.{bytes_eq_refl, eq_of_bytes_eq, codes}
pub use Prim.Native.Nat.{
  ℕ, zero, suc, ◌+◌, ◌-◌, ◌*◌, ◌/◌, ◌%◌, ◌^◌, ◌≤◌, ◌<◌, min, compare, Ordering,
}
pub use mathlib.Core.Path.{◌≡◌, refl, sym, ap, subst, ◌∙◌}
pub use mathlib.Core.Logic.{◌≢◌, ◌↔◌, ◌⊎◌, inl, inr}
pub use mathlib.Core.Bool.{Bool, true, false, not, ◌&&◌, ◌||◌}
pub use mathlib.Core.Option.{Option, none, some}
pub use mathlib.Core.List.{List, [], ◌∷◌, ◌++◌, map, append-nil, append_assoc}
pub use native.Mathlib.Omega.{arith}

-- 2 ^ 64, the modulus of `uint64_t` and of `size_t`.
abbrev pub u64_mod : ℕ
u64_mod = 18446744073709551616

abbrev pub u64_max : ℕ
u64_max = 18446744073709551615

-- `(uint64_t)x`, and `a - b` as the machine computes it on such words.
abbrev pub u64 : ℕ → ℕ
u64 x = x % u64_mod

abbrev pub sub64 : ℕ → ℕ → ℕ
sub64 a b = (a + u64_mod - b) % u64_mod

-- A byte string. A byte is a number below 256.
abbrev pub Bytes : Type 0
Bytes = List ℕ

-- `(b & 0xC0) == 0x80`, for a byte: its two top bits are 10.
abbrev pub is_continuation : ℕ → Bool
is_continuation b = b / 64 == 2
