-- ===== src/Ratelimit.antt =====
-- The token bucket of libclm/ratelimit.c.
-- A `uint64_t` is a number below 2 ^ 64 and the arithmetic on it wraps; the monotonic clock is
-- code outside the repository, so each operation takes what `now_usec` returned. A pointer that
-- may be NULL is an `Option`, and an operation that writes through it returns the bucket.
pub mod Bounds
pub mod Credit
pub mod Pace
pub mod Wait
mod Tests
use clm.Base.{
  ℕ, ◌+◌, ◌*◌, ◌/◌, ◌-◌, Bool, true, false, Option, none, some, List, [], ◌∷◌, if◌then◌else◌, ltb,
  leb, ◌==◌, u64, sub64, u64_max,
}

pub record Ratelimit : Type 0 where
  pub rate : ℕ
  pub burst : ℕ
  pub tokens : ℕ
  pub last_usec : ℕ

abbrev pub usec_per_sec : ℕ
usec_per_sec = 1000000

-- `tokens = burst; last_usec = now`, the bucket full.
abbrev pub fill : Ratelimit → ℕ → Ratelimit
fill rl now = record rl { tokens = rl.burst; last_usec = now }

-- `tokens += added; last_usec += used`.
abbrev pub credit : Ratelimit → ℕ → Ratelimit
credit rl added = record rl {
  tokens = u64 (rl.tokens + added);
  last_usec = u64 (rl.last_usec + u64 (added * usec_per_sec) / rl.rate);
}

-- What `refill` does with the tokens that the elapsed time is worth.
pub refill_credit : Ratelimit → ℕ → ℕ → Ratelimit
refill_credit rl now added =
    if added == 0
    then rl
    else if leb (sub64 rl.burst rl.tokens) added
    then fill rl now
    else credit rl added

-- What it does with the elapsed time, once that is known not to be 0.
pub refill_elapsed : Ratelimit → ℕ → ℕ → Ratelimit
unfolding refill_credit
refill_elapsed rl now elapsed =
    if leb (u64_max / rl.rate) elapsed
    then fill rl now
    else refill_credit rl now (u64 (rl.rate * elapsed) / usec_per_sec)

pub refill : Ratelimit → ℕ → Ratelimit
refill rl now =
    if rl.rate == 0
    then rl
    else if sub64 now rl.last_usec == 0
    then rl
    else refill_elapsed rl now (sub64 now rl.last_usec)

-- `clm_ratelimit_new`, when `calloc` succeeds.
pub new : ℕ → ℕ → ℕ → Ratelimit
new rate burst now =
    let burst' = if burst == 0 then rate else burst in
    record { rate = rate; burst = burst'; tokens = burst'; last_usec = now }

-- A refilled bucket that limits: `rl->tokens >= n`.
allow_at : Ratelimit → ℕ → Ratelimit × Bool
allow_at rl n =
    if leb n rl.tokens then (record rl { tokens = rl.tokens - n }, true) else (rl, false)

unfoldable pub allow : Option Ratelimit → ℕ → ℕ → Option Ratelimit × Bool
unfolding allow_at
allow none now n = (none, true)
allow (some rl) now n =
    if rl.rate == 0
    then (some rl, true)
    else let (rl', allowed) = allow_at (refill rl now) n in (some rl', allowed)

-- The wait that `clm_ratelimit_delay` reports for a refilled bucket.
delay_at : Ratelimit → ℕ → ℕ
delay_at rl n = if leb n rl.tokens then 0 else u64 ((n - rl.tokens) * usec_per_sec) / rl.rate

unfoldable pub delay : Option Ratelimit → ℕ → ℕ → Option Ratelimit × ℕ
unfolding delay_at
delay none now n = (none, 0)
delay (some rl) now n =
    if rl.rate == 0 then (some rl, 0) else (some (refill rl now), delay_at (refill rl now) n)

abbrev pub consume_at : Ratelimit → ℕ → Ratelimit
consume_at rl n = record rl { tokens = if leb n rl.tokens then rl.tokens - n else 0 }

unfoldable pub consume : Option Ratelimit → ℕ → ℕ → Option Ratelimit
consume none now n = none
consume (some rl) now n = if rl.rate == 0 then some rl else some (consume_at (refill rl now) n)

pub tokens : Option Ratelimit → ℕ → Option Ratelimit × ℕ
tokens none now = (none, u64_max)
tokens (some rl) now =
    if rl.rate == 0 then (some rl, u64_max) else (some (refill rl now), (refill rl now).tokens)

pub set_rate : Option Ratelimit → ℕ → ℕ → Option Ratelimit
set_rate none now rate = none
set_rate (some rl) now rate = some (record (refill rl now) { rate = rate })

pub set_burst : Option Ratelimit → ℕ → Option Ratelimit
set_burst none burst = none
set_burst (some rl) burst =
    some (record rl { burst = burst; tokens = if ltb burst rl.tokens then burst else rl.tokens })

pub rate_of : Option Ratelimit → ℕ
rate_of none = 0
rate_of (some rl) = rl.rate

pub burst_of : Option Ratelimit → ℕ
burst_of none = 0
burst_of (some rl) = rl.burst

-- The calls that a client makes on one limiter, with the time that each call reads.
pub data Call : Type 0 where
  allow_call : ℕ → ℕ → Call
  delay_call : ℕ → ℕ → Call
  consume_call : ℕ → ℕ → Call
  tokens_call : ℕ → Call
  set_rate_call : ℕ → ℕ → Call
  set_burst_call : ℕ → Call

pub perform : Option Ratelimit → Call → Option Ratelimit
unfolding allow delay consume tokens set_rate set_burst
perform rl (allow_call now n) = (allow rl now n).0
perform rl (delay_call now n) = (delay rl now n).0
perform rl (consume_call now n) = consume rl now n
perform rl (tokens_call now) = (tokens rl now).0
perform rl (set_rate_call now rate) = set_rate rl now rate
perform rl (set_burst_call burst) = set_burst rl burst

pub perform_all : Option Ratelimit → List Call → Option Ratelimit
perform_all rl [] = rl
perform_all rl (c ∷ cs) = perform_all (perform rl c) cs
