-- ===== src/Ratelimit/Pace.antt =====
-- What a client gets from the limiter over time: how much `allow` grants, and what a `delay` is worth.
use clm.Base.{
  ℕ, ◌+◌, ◌*◌, ◌-◌, ◌<◌, ◌≤◌, ◌≡◌, inl, inr, Bool, true, false, Option, some, List, [], ◌∷◌, length,
  arith, leb, if◌then◌else◌, leb→le, ==_iff, ap, ◌==◌, Bool-cases, u64_mod,
}
use clm.Ratelimit.{Ratelimit, refill, allow, usec_per_sec}
use clm.Ratelimit.Bounds.{IsValid, refill-IsValid, refill_keeps}
use clm.Ratelimit.Credit.{worth, IsModest, Earned, refill-Earned}

-- A request: the time that the call reads, and the tokens asked for.
abbrev pub Request : Type 0
Request = ℕ × ℕ

-- The tokens that `allow` grants over a list of requests.
pub granted : Option Ratelimit → List Request → ℕ
granted rl [] = 0
granted rl ((now, n) ∷ rs) =
    let (rl', allowed) = allow rl now n in (if allowed then n else 0) + granted rl' rs

-- The times do not go back, from `start` to `end`.
abbrev pub Timed : ℕ → ℕ → List Request → Type 0
Timed start end [] = start ≤ end
Timed start end ((now, n) ∷ rs) = (start ≤ now) × Timed now end rs

start-le-end : (start end : ℕ) (rs : List Request) → Timed start end rs → start ≤ end
start-le-end start end [] h = h
start-le-end start end ((now, n) ∷ rs) h = omega (arith, start-le-end now end rs h.1)

worth-later :
    (rl : Ratelimit) (now end : ℕ)
    → rl.last_usec ≤ now
    → now ≤ end
    → worth rl end ≡ worth rl now + rl.rate * (end - now)
worth-later rl now end h k =
    let e : end - rl.last_usec ≡ now - rl.last_usec + (end - now) = omega arith in
    rw e (omega arith)

-- One request: what is granted comes out of what the bucket was worth.
record Charged (rl : Ratelimit) (now end n : ℕ) (allowed : Bool) (after : Ratelimit) : Type 0 where
  valid : IsValid after
  same_rate : after.rate ≡ rl.rate
  same_burst : after.burst ≡ rl.burst
  on_time : after.last_usec ≤ now
  paid : worth after end + usec_per_sec * (if allowed then n else 0) ≤ worth rl end + rl.rate

module _ (rl : Ratelimit) (now end : ℕ) (v : IsValid rl) (m : IsModest rl) (t : rl.last_usec ≤ now)
    (l : now ≤ end) (w : end < u64_mod) where
  abbrev fresh : Ratelimit
  fresh = refill rl now

  fresh-Earned : Earned rl now fresh
  fresh-Earned = refill-Earned rl now v m t (omega arith)

  fresh-worth : worth fresh end ≤ worth rl end + rl.rate
  fresh-worth =
      let gift = fresh-Earned.no_gift in
      let keeps = (refill_keeps rl now).0 in
      let old = worth-later rl now end t l in
      let new = worth-later fresh now end fresh-Earned.not_ahead l in
      let same : fresh.rate * (end - now) ≡ rl.rate * (end - now) =
        ap (λ (r : ℕ). r * (end - now)) keeps in
      omega arith

  denied-Charged : (n : ℕ) → Charged rl now end n false fresh
  denied-Charged n =
      let (r, b) = refill_keeps rl now in
      record {
        valid = refill-IsValid rl now (omega arith) v;
        same_rate = r;
        same_burst = b;
        on_time = fresh-Earned.not_ahead;
        paid = omega (arith, fresh-worth);
      }

  granted-Charged :
      (n : ℕ)
      → n ≤ fresh.tokens
      → Charged rl now end n true (record fresh { tokens = fresh.tokens - n })
  granted-Charged n h =
      let (r, b) = refill_keeps rl now in
      let valid = refill-IsValid rl now (omega arith) v in
      record {
        valid = ground arith;
        same_rate = r;
        same_burst = b;
        on_time = fresh-Earned.not_ahead;
        paid = omega (arith, fresh-worth);
      }

  -- One request: what is granted comes out of what the bucket was worth.
  allow-Charged :
      (n : ℕ)
      → (after : Ratelimit) × (allowed : Bool) × (allow (some rl) now n ≡ (some after, allowed))
        × Charged rl now end n allowed after
  unfolding allow
  allow-Charged n = elim (Bool-cases (rl.rate == 0)) [
    | inl z ↦ absurd (omega (arith, (==_iff _ _).0 z, m.limited))
    | inr nz ↦ elim (Bool-cases (leb n fresh.tokens)) [
      | inl enough ↦ (
        record fresh { tokens = fresh.tokens - n },
        true,
        rw (nz, enough),
        granted-Charged n (leb→le _ _ enough),
      )
      | inr short ↦ (fresh, false, rw (nz, short), denied-Charged n)
    ]
  ]

-- However often a client asks, what it is granted up to `end` is at most the tokens that the bucket
-- held, what the time since the last refill is worth at the rate, and one microsecond's worth for
-- each request, when the parameters are modest and the clock does not go back.
pub granted-le :
    (rs : List Request) (rl : Ratelimit) (start end : ℕ)
    → IsValid rl
    → IsModest rl
    → rl.last_usec ≤ start
    → end < u64_mod
    → Timed start end rs
    → usec_per_sec * granted (some rl) rs
      ≤ usec_per_sec * rl.tokens + rl.rate * (end - rl.last_usec) + rl.rate * length rs
unfolding granted
granted-le [] rl start end v m t w h = omega arith
granted-le ((now, n) ∷ rs) rl start end v m t w h =
    let (after, allowed, is, c) =
      allow-Charged rl now end v m (omega arith) (start-le-end now end rs h.1) w n in
    let modest : IsModest after = ground (arith, m, c.same_rate, c.same_burst) in
    let rest = granted-le rs after now end c.valid modest c.on_time w h.1 in
    rw is (omega (arith, c.paid, rest, ap (λ (r : ℕ). r * length rs) c.same_rate))
