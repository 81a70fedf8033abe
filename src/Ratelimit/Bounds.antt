-- ===== src/Ratelimit/Bounds.antt =====
-- What every operation of the limiter keeps, and how many tokens a refill may add.
use clm.Base.{ℕ, ◌<◌, ◌≤◌, ◌≡◌, Option, none, some, List, [], ◌∷◌, arith, u64_mod}
use clm.Ratelimit.{
  Ratelimit, refill, refill_elapsed, refill_credit, new, Call, perform, perform_all, allow_call,
  delay_call, consume_call, tokens_call, set_rate_call, set_burst_call,
}

-- The fields are machine words, and the bucket never holds more than its burst.
pub record IsValid (rl : Ratelimit) : Type 0 where
  pub rate_word : rl.rate < u64_mod
  pub burst_word : rl.burst < u64_mod
  pub last_word : rl.last_usec < u64_mod
  pub within : rl.tokens ≤ rl.burst

abbrev pub Valid : Option Ratelimit → Type 0
Valid none = Unit
Valid (some rl) = IsValid rl

pub new-IsValid :
    (rate burst now : ℕ)
    → rate < u64_mod
    → burst < u64_mod
    → now < u64_mod
    → IsValid (new rate burst now)
unfolding new
new-IsValid rate burst now r b t = ground arith

pub refill-IsValid :
    (rl : Ratelimit) (now : ℕ) → now < u64_mod → IsValid rl → IsValid (refill rl now)
unfolding refill refill_elapsed refill_credit
refill-IsValid rl now t v = ground arith

pub refill_keeps :
    (rl : Ratelimit) (now : ℕ)
    → ((refill rl now).rate ≡ rl.rate) × ((refill rl now).burst ≡ rl.burst)
unfolding refill refill_elapsed refill_credit
refill_keeps rl now = ground arith

-- The words that a call passes.
abbrev pub InRange : Call → Type 0
InRange (allow_call now n) = (now < u64_mod) × (n < u64_mod)
InRange (delay_call now n) = (now < u64_mod) × (n < u64_mod)
InRange (consume_call now n) = (now < u64_mod) × (n < u64_mod)
InRange (tokens_call now) = now < u64_mod
InRange (set_rate_call now rate) = (now < u64_mod) × (rate < u64_mod)
InRange (set_burst_call burst) = burst < u64_mod

abbrev pub AllInRange : List Call → Type 0
AllInRange [] = Unit
AllInRange (c ∷ cs) = InRange c × AllInRange cs

perform-Valid : (rl : Ratelimit) (c : Call) → InRange c → IsValid rl → Valid (perform (some rl) c)
unfolding perform
perform-Valid rl (allow_call now n) r v = ground (arith, refill-IsValid rl now r.0 v)
perform-Valid rl (delay_call now n) r v = ground (arith, refill-IsValid rl now r.0 v)
perform-Valid rl (consume_call now n) r v = ground (arith, refill-IsValid rl now r.0 v)
perform-Valid rl (tokens_call now) r v = ground (arith, refill-IsValid rl now r v)
perform-Valid rl (set_rate_call now rate) r v = ground (arith, refill-IsValid rl now r.0 v)
perform-Valid rl (set_burst_call burst) r v = ground arith

perform-none : (c : Call) → Valid (perform none c)
unfolding perform
perform-none (allow_call now n) = tt
perform-none _ = tt

-- After any calls on a valid limiter it is valid.
pub perform_all-Valid :
    (rl : Option Ratelimit) (cs : List Call) → AllInRange cs → Valid rl → Valid (perform_all rl cs)
unfolding perform_all
perform_all-Valid rl [] r v = v
perform_all-Valid none (c ∷ cs) r v = perform_all-Valid (perform none c) cs r.1 (perform-none c)
perform_all-Valid (some rl) (c ∷ cs) r v =
    perform_all-Valid (perform (some rl) c) cs r.1 (perform-Valid rl c r.0 v)
