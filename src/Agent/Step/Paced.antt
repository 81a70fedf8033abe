-- ===== src/Agent/Step/Paced.antt =====
-- How a turn that a rate limit turned away is sent again: rl_retry and clm_rl_retry_delay_ms.
use native.Mathlib.Numerals.{unary_clauses}
use clm.Base.{
  ℕ, zero, suc, ◌+◌, ◌*◌, ◌^◌, ◌≤◌, ◌≡◌, refl, Bytes, ◌||◌, not, Option, some, ◌∷◌, arith, if-cases,
  if◌then◌else◌, leb, ltb,
}
use clm.Agent.{on_state, timer_for, rate_limited, AsyncTurn, Agent}
use clm.Agent.Delay.{
  Scan, clamped, server_delay_ms, rl_retry_delay_ms, rl_retry_cap_ms, rl_retry_floor_ms,
}
use clm.Agent.Env.{Env}
use clm.Agent.Turn.{rl_retry, rl_retry_max}
use clm.Agent.Waiting.Landing.{IfAny}

-- A wait between a second and a minute, and no less than was asked for when that is at most a minute.
pub record IsPaced (asked : ℕ) (ms : ℕ) : Type 0 where
  pub at_least : rl_retry_floor_ms ≤ ms
  pub at_most : ms ≤ rl_retry_cap_ms
  pub as_asked : asked ≤ rl_retry_cap_ms → asked ≤ ms

clamped-IsPaced :
    (asked floor_ms : ℕ) → rl_retry_floor_ms ≤ floor_ms → IsPaced asked (clamped asked floor_ms)
clamped-IsPaced asked floor_ms l = record {
  at_least = ground arith;
  at_most = ground arith;
  as_asked = ground arith;
}

one_le-pow : (n : ℕ) → 1 ≤ 2 ^ n
one_le-pow zero = omega arith
one_le-pow (suc n) = let before = one_le-pow n in simp unary_clauses (omega arith)

delay-IsPaced :
    (scan : Scan) (advice : Option Bytes) (attempt : ℕ)
    → IsPaced (server_delay_ms scan advice) (rl_retry_delay_ms scan advice attempt)
unfolding rl_retry_delay_ms
delay-IsPaced scan advice attempt =
    let shift = if ltb 20 attempt then 20 else attempt in
    let some_ms = one_le-pow (if ltb 20 attempt then 20 else attempt) in
    clamped-IsPaced (server_delay_ms scan advice)
      (rl_retry_floor_ms * 2 ^ (if ltb 20 attempt then 20 else attempt)) (omega arith)

-- The turn that is parked, and the timer that is asked for.
pub record IsRetry (e : Env) (a : Agent) (turn : AsyncTurn) (advice : Option Bytes) (b : Agent)
    : Type 0 where
  pub ms : ℕ
  pub paced : IsPaced (server_delay_ms e.scan advice) ms
  pub told : b.signals ≡ timer_for ms ∷ on_state rate_limited ∷ a.signals
  pub parked : b.rl_parked_turn ≡ some (record turn { rl_retries = turn.rl_retries + 1 })
  pub few : turn.rl_retries + 1 ≤ rl_retry_max

-- A turn that is sent again after a rate limit waits between a second and a minute, and no less than the
-- server asked for when that is at most a minute; it is the same request, and this happens to it
-- eight times at most.
pub rl_retry-IsRetry :
    (e : Env) (a : Agent) (turn : AsyncTurn) (advice : Option Bytes)
    → IfAny (IsRetry e a turn advice) (rl_retry e a turn advice)
unfolding rl_retry
rl_retry-IsRetry e a turn advice =
    if-cases (IfAny (IsRetry e a turn advice))
      (leb rl_retry_max turn.rl_retries || not e.has_timers) (λ p. tt)
      (λ p. record {
        ms = rl_retry_delay_ms e.scan advice turn.rl_retries;
        paced = delay-IsPaced e.scan advice turn.rl_retries;
        told = refl;
        parked = refl;
        few = ground arith;
      })
