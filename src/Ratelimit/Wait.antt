-- ===== src/Ratelimit/Wait.antt =====
-- What the wait that `clm_ratelimit_delay` reports is worth.
use clm.Base.{
  ℕ, ◌+◌, ◌*◌, ◌/◌, ◌-◌, ◌%◌, ◌<◌, ◌≤◌, ◌≡◌, ◌≢◌, refl, inl, inr, true, false, some, arith, leb,
  leb→le, ==_iff, ◌==◌, Bool-cases, u64, u64_mod, sub64, u64_max,
}
use clm.Ratelimit.{
  Ratelimit, refill, refill_elapsed, refill_credit, allow, delay, delay_at, usec_per_sec,
}
use clm.Ratelimit.Bounds.{IsValid, refill-IsValid, refill_keeps}
use clm.Ratelimit.Credit.{IsModest, refill-Earned, mul-div_le, div_bounds, saturates, sub64_lem}

module _ (rl : Ratelimit) (now n : ℕ) (v : IsValid rl) (m : IsModest rl) (t : rl.last_usec ≤ now)
    (w : now < u64_mod) (fits : n ≤ rl.burst)
    (due : (n - rl.tokens) * usec_per_sec ≤ rl.rate * (now - rl.last_usec)) where
  refill_credit_reaches :
      (e : ℕ)
      → e ≡ rl.rate * (now - rl.last_usec)
      → n ≤ (refill_credit rl now (e / usec_per_sec)).tokens
  unfolding refill_credit
  refill_credit_reaches e q = ground (arith, m.fits, v.within, v.burst_word)

  -- A refill brings the bucket to `n` tokens when the elapsed time is worth what is missing.
  refill_reaches : n ≤ (refill rl now).tokens
  unfolding refill refill_elapsed
  refill_reaches = elim (Bool-cases (rl.rate == 0)) [
    | inl z ↦ absurd (omega (arith, (==_iff _ _).0 z, m.limited))
    | inr nz ↦
        rw (nz, sub64_lem now rl.last_usec w t)
          (elim (Bool-cases (now - rl.last_usec == 0)) [
            | inl idle ↦
                let z : now - rl.last_usec ≡ 0 = (==_iff _ _).0 idle in
                let zz : rl.rate * (now - rl.last_usec) ≡ 0 = rw z (omega arith) in
                rw idle (omega arith)
            | inr some_due ↦
                rw some_due (elim (Bool-cases (leb (u64_max / rl.rate) (now - rl.last_usec))) [
                  | inl full ↦ rw full fits
                  | inr part ↦
                      let small =
                        mul-div_le rl.rate (now - rl.last_usec) m.limited (ground arith) in
                      rw part
                        (refill_credit_reaches (u64 (rl.rate * (now - rl.last_usec))) (omega arith))
                ])
          ])
  ]

wait_pays : (r d need e : ℕ) → 0 < r → d ≡ need / r → d + 1 ≤ e → need ≤ r * e
wait_pays r d need e h q l =
    let past = (div_bounds need r h).1 in
    let steps : e ≡ need / r + 1 + (e - (need / r + 1)) = omega arith in
    rw steps (omega (arith, past))

delay_at_due :
    (rl : Ratelimit) (n e : ℕ)
    → 0 < rl.rate
    → (n - rl.tokens) * usec_per_sec < u64_mod
    → delay_at rl n + 1 ≤ e
    → (n - rl.tokens) * usec_per_sec ≤ rl.rate * e
unfolding delay_at
delay_at_due rl n e h k l = elim (Bool-cases (leb n rl.tokens)) [
  | inl enough ↦ omega (arith, leb→le _ _ enough)
  | inr short ↦
      let small : u64 ((n - rl.tokens) * usec_per_sec) ≡ (n - rl.tokens) * usec_per_sec =
        omega arith in
      let wait : (n - rl.tokens) * usec_per_sec / rl.rate + 1 ≤ e = rw (← small) (rw short at l) in
      wait_pays rl.rate _ ((n - rl.tokens) * usec_per_sec) e h refl wait
]

-- A client that waits one microsecond longer than `delay` says is let through: for a valid bucket
-- with modest parameters, a clock that has not gone back and a request that the burst can hold.
pub allow-delay :
    (rl : Ratelimit) (now later n : ℕ)
    → IsValid rl
    → IsModest rl
    → rl.last_usec ≤ now
    → n ≤ rl.burst
    → now + (delay (some rl) now n).1 + 1 ≤ later
    → later < u64_mod
    → (allow (delay (some rl) now n).0 later n).1 ≡ true
unfolding allow delay
allow-delay rl now later n v m t f l w = elim (Bool-cases (rl.rate == 0)) [
  | inl z ↦ absurd (omega (arith, (==_iff _ _).0 z, m.limited))
  | inr nz ↦
      let r1 = refill rl now in
      let (same_rate, same_burst) = refill_keeps rl now in
      let v1 : IsValid r1 = refill-IsValid rl now (omega arith) v in
      let m1 : IsModest r1 = ground (arith, m) in
      let ear = refill-Earned rl now v m t (omega arith) in
      let nz1 : (r1.rate == 0) ≡ false = rw same_rate nz in
      let later_time : now + delay_at r1 n + 1 ≤ later = rw nz at l in
      let due : (n - r1.tokens) * usec_per_sec ≤ r1.rate * (later - r1.last_usec) =
        delay_at_due r1 n (later - r1.last_usec) m1.limited (omega (arith, m.fits))
          (omega (arith, ear.not_ahead)) in
      let reached =
        refill_reaches r1 later n v1 m1 (omega (arith, ear.not_ahead)) w (rw same_burst f) due in
      rw (nz, nz1) (ground arith)
]

module _ (rl : Ratelimit) (now n : ℕ) (v : IsValid rl) (m : IsModest rl) (t : rl.last_usec ≤ now)
    (w : now < u64_mod) (fits : n ≤ rl.burst) (short : rl.tokens < n)
    (early : rl.rate * (now - rl.last_usec) < (n - rl.tokens) * usec_per_sec) where
  refill_credit_misses :
      (e : ℕ)
      → e ≡ rl.rate * (now - rl.last_usec)
      → (refill_credit rl now (e / usec_per_sec)).tokens < n
  unfolding refill_credit
  refill_credit_misses e q = ground (arith, m.fits, v.within, v.burst_word)

  -- It stays below `n` when the elapsed time is not worth what is missing.
  refill_misses : (refill rl now).tokens < n
  unfolding refill refill_elapsed
  refill_misses = elim (Bool-cases (rl.rate == 0)) [
    | inl z ↦ absurd (omega (arith, (==_iff _ _).0 z, m.limited))
    | inr nz ↦
        rw (nz, sub64_lem now rl.last_usec w t)
          (elim (Bool-cases (now - rl.last_usec == 0)) [
            | inl idle ↦ rw idle short
            | inr some_due ↦
                rw some_due (elim (Bool-cases (leb (u64_max / rl.rate) (now - rl.last_usec))) [
                  | inl full ↦ absurd (
                      omega (
                        arith,
                        saturates rl.rate (now - rl.last_usec) m.limited (leb→le _ _ full),
                        m.fits,
                      ))
                  | inr part ↦
                      let small =
                        mul-div_le rl.rate (now - rl.last_usec) m.limited (ground arith) in
                      rw part
                        (refill_credit_misses (u64 (rl.rate * (now - rl.last_usec))) (omega arith))
                ])
          ])
  ]

refill_idle : (rl : Ratelimit) → IsValid rl → refill rl rl.last_usec ≡ rl
unfolding refill
refill_idle rl v = ground arith

floor_short : (r need : ℕ) → 0 < r → need % r ≢ 0 → r * (need / r) < need
floor_short r need h odd = grind arith

delay_at_lem :
    (rl : Ratelimit) (n : ℕ)
    → rl.tokens < n
    → (n - rl.tokens) * usec_per_sec < u64_mod
    → delay_at rl n ≡ (n - rl.tokens) * usec_per_sec / rl.rate
unfolding delay_at
delay_at_lem rl n h k = ground arith

-- Where the wait does not divide evenly, `delay` rounds it down, and a client that waits exactly so
-- long is refused.
pub allow-delay_short :
    (rl : Ratelimit) (n : ℕ)
    → IsValid rl
    → IsModest rl
    → rl.tokens < n
    → n ≤ rl.burst
    → (n - rl.tokens) * usec_per_sec % rl.rate ≢ 0
    → rl.last_usec + (delay (some rl) rl.last_usec n).1 < u64_mod
    → (allow (some rl) (rl.last_usec + (delay (some rl) rl.last_usec n).1) n).1 ≡ false
unfolding allow delay
allow-delay_short rl n v m short f odd w = elim (Bool-cases (rl.rate == 0)) [
  | inl z ↦ absurd (omega (arith, (==_iff _ _).0 z, m.limited))
  | inr nz ↦
      let need : ℕ = (n - rl.tokens) * usec_per_sec in
      let d : ℕ = need / rl.rate in
      let is : delay_at rl n ≡ d = delay_at_lem rl n short (omega (arith, m.fits)) in
      let w' : rl.last_usec + d < u64_mod = rw (nz, refill_idle rl v, is) at w in
      let past : rl.last_usec + d - rl.last_usec ≡ d = omega arith in
      let early : rl.rate * (rl.last_usec + d - rl.last_usec) < need =
        rw past (floor_short rl.rate need m.limited odd) in
      let low = refill_misses rl (rl.last_usec + d) n v m (omega arith) w' f short early in
      rw (nz, refill_idle rl v, is) (ground (arith, low))
]

div_small : (a r : ℕ) → a < r → a / r ≡ 0
div_small a r h = grind arith

div_two : (a r : ℕ) → 0 < r → 2 * r ≤ a → 1 < a / r
div_two a r p h = grind (arith, div_bounds a r p)

-- With a rate above a million that no million divides, a refill one microsecond after the last one
-- adds tokens and does not take the microsecond off: each further poll adds them again.
pub refill_uncharged :
    (rl : Ratelimit) (now : ℕ)
    → IsValid rl
    → now ≡ rl.last_usec + 1
    → now < u64_mod
    → usec_per_sec < rl.rate
    → rl.rate < u64_max / 2
    → rl.rate % usec_per_sec ≢ 0
    → rl.tokens + rl.rate / usec_per_sec < rl.burst
    → refill rl now ≡ record rl { tokens = rl.tokens + rl.rate / usec_per_sec }
unfolding refill refill_elapsed refill_credit
refill_uncharged rl now v n w big small odd room =
    let one : sub64 now rl.last_usec ≡ 1 = omega arith in
    let all : u64 (rl.rate * 1) ≡ rl.rate = omega arith in
    let nothing : u64 (rl.rate / usec_per_sec * usec_per_sec) / rl.rate ≡ 0 =
      div_small _ rl.rate (omega arith) in
    let whole : 1 < u64_max / rl.rate = div_two u64_max rl.rate (omega arith) (omega arith) in
    rw (one, all) (ground (arith, v.within, nothing))
