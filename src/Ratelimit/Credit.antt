-- ===== src/Ratelimit/Credit.antt =====
-- How many tokens a refill adds for the time that it takes off the clock.
use clm.Base.{
  ℕ, ◌+◌, ◌*◌, ◌/◌, ◌-◌, ◌<◌, ◌≤◌, ◌≡◌, inl, inr, arith, leb, leb→le, ==_iff, ◌==◌, Bool-cases, u64,
  sub64, u64_max, u64_mod,
}
use clm.Ratelimit.{Ratelimit, refill, refill_elapsed, fill, credit, refill_credit, usec_per_sec}
use clm.Ratelimit.Bounds.{IsValid}

pub div_bounds : (a b : ℕ) → 0 < b → (b * (a / b) ≤ a) × (a < b * (a / b) + b)
div_bounds a b h = grind arith

div-le : (a b c : ℕ) → 0 < b → a ≤ b * c → a / b ≤ c
div-le a b c h l = grind arith

-- 1e6 times the tokens held, and the time not yet paid for, in millionths of a token.
abbrev pub worth : Ratelimit → ℕ → ℕ
worth rl now = usec_per_sec * rl.tokens + rl.rate * (now - rl.last_usec)

-- The parameters for which the products of `refill` fit their words.
pub record IsModest (rl : Ratelimit) : Type 0 where
  pub limited : 0 < rl.rate
  pub fits : rl.burst * usec_per_sec + rl.rate < u64_mod

pub record Earned (rl : Ratelimit) (now : ℕ) (rl' : Ratelimit) : Type 0 where
  pub not_ahead : rl'.last_usec ≤ now
  pub not_back : rl.last_usec ≤ rl'.last_usec
  pub no_gift : worth rl' now ≤ worth rl now + rl.rate

pub mul-div_le : (r e : ℕ) → 0 < r → e < u64_max / r → r * e < u64_mod
mul-div_le r e h l = grind (arith, div_bounds u64_max r)

pub saturates : (r e : ℕ) → 0 < r → u64_max / r ≤ e → u64_max < r * e + r
saturates r e h l = grind (arith, div_bounds u64_max r)

pub sub64_lem : (a b : ℕ) → a < u64_mod → b ≤ a → sub64 a b ≡ a - b
sub64_lem a b h l = omega arith

split : (r n l u : ℕ) → l + u ≤ n → r * (n - (l + u)) + r * u ≡ r * (n - l)
split r n l u h = let e : n - l ≡ n - (l + u) + u = omega arith in rw e (omega arith)

abbrev used : ℕ → ℕ → ℕ
used r a = a * usec_per_sec / r

module _ (rl : Ratelimit) (now : ℕ) (v : IsValid rl) (m : IsModest rl) (t : rl.last_usec ≤ now)
    (w : now < u64_mod) where
  abbrev elapsed : ℕ
  elapsed = now - rl.last_usec

  fill-Earned :
      usec_per_sec * rl.burst ≤ usec_per_sec * rl.tokens + rl.rate * elapsed + rl.rate
      → Earned rl now (fill rl now)
  fill-Earned h = record { not_ahead = omega arith; not_back = t; no_gift = grind arith }

  credit_fields :
      (a : ℕ)
      → a * usec_per_sec < u64_mod
      → used rl.rate a ≤ elapsed
      → rl.tokens + a < u64_mod
      → credit rl a
        ≡ record rl { tokens = rl.tokens + a; last_usec = rl.last_usec + used rl.rate a }
  credit_fields a h k l = ground arith

  credit-Earned :
      (a : ℕ)
      → a * usec_per_sec ≤ rl.rate * elapsed
      → rl.rate * elapsed < u64_mod
      → rl.tokens + a < u64_mod
      → Earned rl now (credit rl a)
  credit-Earned a h k l =
      let within : used rl.rate a ≤ elapsed = div-le _ _ _ m.limited h in
      let paid = (div_bounds (a * usec_per_sec) rl.rate m.limited).1 in
      let paid' : usec_per_sec * a < rl.rate * used rl.rate a + rl.rate = omega arith in
      rw (credit_fields a (omega arith) within l) (record {
        not_ahead = omega arith;
        not_back = omega arith;
        no_gift = omega (arith, split rl.rate now rl.last_usec (used rl.rate a) (omega arith));
      })

  refill_credit-Earned :
      (e : ℕ)
      → e ≡ rl.rate * elapsed
      → e < u64_mod
      → Earned rl now (refill_credit rl now (e / usec_per_sec))
  unfolding refill_credit
  refill_credit-Earned e q l = elim (Bool-cases (e / usec_per_sec == 0)) [
    | inl idle ↦ rw idle (record { not_ahead = t; not_back = omega arith; no_gift = omega arith })
    | inr some_due ↦
        rw some_due (elim (Bool-cases (leb (sub64 rl.burst rl.tokens) (e / usec_per_sec))) [
          | inl full ↦ rw full (
              fill-Earned (
                omega (
                  arith,
                  leb→le _ _ full,
                  sub64_lem rl.burst rl.tokens v.burst_word v.within,
                  v.within,
                )))
          | inr part ↦
              rw part (credit-Earned (e / usec_per_sec) (omega arith) (omega arith) (ground arith))
        ])
  ]

  refill_elapsed-Earned : Earned rl now (refill_elapsed rl now elapsed)
  unfolding refill_elapsed
  refill_elapsed-Earned = elim (Bool-cases (leb (u64_max / rl.rate) elapsed)) [
    | inl full ↦
        let past = saturates rl.rate elapsed m.limited (leb→le _ _ full) in
        rw full (fill-Earned (omega (arith, past, m.fits)))
    | inr part ↦
        let small : rl.rate * elapsed < u64_mod =
          mul-div_le rl.rate elapsed m.limited (ground arith) in
        rw part (refill_credit-Earned (u64 (rl.rate * elapsed)) (omega arith) (omega arith))
  ]

  -- From a valid bucket with modest parameters and a clock that has not gone back, a refill never
  -- charges time that has not passed, never moves the refill time back, and adds at most what the
  -- elapsed time is worth and one microsecond's worth more.
  pub refill-Earned : Earned rl now (refill rl now)
  unfolding refill
  refill-Earned = elim (Bool-cases (rl.rate == 0)) [
    | inl z ↦ absurd (omega (arith, (==_iff _ _).0 z, m.limited))
    | inr nz ↦
        rw (nz, sub64_lem now rl.last_usec w t)
          (elim (Bool-cases (elapsed == 0)) [
            | inl idle ↦
                rw idle (record { not_ahead = t; not_back = omega arith; no_gift = omega arith })
            | inr due ↦ rw due refill_elapsed-Earned
          ])
  ]
