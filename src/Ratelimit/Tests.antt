-- ===== src/Ratelimit/Tests.antt =====
-- Runs of the token bucket of libclm/ratelimit.c on small buckets.
use clm.Base.{ℕ, ◌+◌, ◌*◌, ◌-◌, ◌≤◌, ◌≡◌, refl, true, some, List, [], ◌∷◌, length, arith}
use clm.Ratelimit.{
  Ratelimit, Call, usec_per_sec, refill, allow, delay, allow_call, consume_call, set_burst_call,
  set_rate_call,
}
use clm.Ratelimit.Bounds.{IsValid}
use clm.Ratelimit.Credit.{IsModest, Earned, refill-Earned}
use clm.Ratelimit.Pace.{Request, granted, granted-le}
use clm.Ratelimit.Wait.{allow-delay}

-- Three tokens a second, at most ten, one left, last refilled after one second.
abbrev slow : Ratelimit
slow = record { rate = 3; burst = 10; tokens = 1; last_usec = 1000000 }

slow-IsValid : IsValid slow
slow-IsValid = ground arith

slow-IsModest : IsModest slow
slow-IsModest = ground arith

-- One and a half million tokens a second.
abbrev quick : Ratelimit
quick = record { rate = 1500000; burst = 100; tokens = 5; last_usec = 1000000 }

quick-IsValid : IsValid quick
quick-IsValid = ground arith

abbrev requests : List Request
requests = (1000000, 1) ∷ (1400000, 1) ∷ (3000000, 4) ∷ []

abbrev calls : List Call
calls =
    allow_call 2000000 2 ∷ set_burst_call 1 ∷ consume_call 3000000 9 ∷ set_rate_call 3500000 7 ∷ []

granted-le_example :
    usec_per_sec * granted (some slow) requests
    ≤ usec_per_sec * slow.tokens
      + slow.rate * (3000000 - slow.last_usec)
      + slow.rate * length requests
granted-le_example =
    granted-le requests slow 1000000 3000000 slow-IsValid slow-IsModest (omega arith) (omega arith)
      (ground arith)

refill-Earned_example : Earned slow 1400000 (refill slow 1400000)
refill-Earned_example =
    refill-Earned slow 1400000 slow-IsValid slow-IsModest (omega arith) (omega arith)

-- Two tokens are missing, which at three a second takes two thirds of one.
slow_wait : (delay (some slow) 1000000 3).1 ≡ 666666
unfolding delay refill
slow_wait = refl

abbrev after_wait : ℕ
after_wait = 1000000 + (delay (some slow) 1000000 3).1 + 1

allow-delay_example : (allow (delay (some slow) 1000000 3).0 after_wait 3).1 ≡ true
allow-delay_example =
    allow-delay slow 1000000 after_wait 3 slow-IsValid slow-IsModest (omega arith) (omega arith)
      (omega arith) (omega (arith, slow_wait))
