-- ===== src/Agent/Delay.antt =====
-- How long a request that a rate limit turned away waits: server_delay_ms and clm_rl_retry_delay_ms.
-- `sscanf` and the arithmetic on what it reads are the C library's: `Scan` is what it makes of "%lf%3[a-z]".
use clm.Base.{
  ℕ, zero, suc, ◌+◌, ◌*◌, ◌^◌, Bytes, Bool, true, false, ◌&&◌, ◌||◌, Option, none, some, [], ◌∷◌,
  codes, bytes_eq, take, length, if◌then◌else◌, ltb, leb, ◌==◌,
}

-- What stands behind the first place where `w` is found, as `strstr` finds it.
unfoldable pub behind_first : Bytes → Bytes → Option Bytes
behind_first w [] = if length w == 0 then some [] else none
behind_first w (b ∷ s) =
    let further = behind_first w s in
    if bytes_eq (take (length w) (b ∷ s)) w then some (drop_from (length w) (b ∷ s)) else further
  where
    drop_from : ℕ → Bytes → Bytes
    drop_from zero s = s
    drop_from (suc n) [] = []
    drop_from (suc n) (b ∷ s) = drop_from n s

abbrev is_found : Option Bytes → Bool
is_found none = false
is_found (some s) = true

-- `strstr(s, w) != NULL`.
unfoldable pub contains : Bytes → Bytes → Bool
contains s w = is_found (behind_first w s)

unfoldable pub lower : Bytes → Bytes
lower [] = []
lower (b ∷ s) = (if leb 65 b && leb b 90 then b + 32 else b) ∷ lower s

-- `strcasestr`, for a word in lower case.
unfoldable pub is_rate_limit_message : Option Bytes → Bool
unfolding lower
is_rate_limit_message none = false
is_rate_limit_message (some msg) =
    contains (lower msg) (codes "rate limit") || contains (lower msg) (codes "rate_limit")

-- The two fields: the number, as (uint64_t)v, (uint64_t)(v * 1000.0) and (uint64_t)(v * 60000.0), and
-- the unit. A number that is not positive is none.
pub record Scanned : Type 0 where
  pub whole : ℕ
  pub thousands : ℕ
  pub minutes : ℕ
  pub unit : Bytes

abbrev pub Scan : Type 0
Scan = Bytes → Option Scanned

abbrev pub rl_retry_cap_ms : ℕ
rl_retry_cap_ms = 60000

abbrev pub rl_retry_floor_ms : ℕ
rl_retry_floor_ms = 1000

abbrev pub rl_retry_default_ms : ℕ
rl_retry_default_ms = 5000

-- `unit[0]`.
abbrev starts_with : Bytes → ℕ → Bool
starts_with [] c = false
starts_with (b ∷ s) c = b == c

unfoldable pub unit_delay : Option Scanned → ℕ
unit_delay none = rl_retry_default_ms
unit_delay (some v) =
    if bytes_eq (take 2 v.unit) (codes "ms")
    then v.whole
    else if starts_with v.unit 115
    then v.thousands
    else if starts_with v.unit 109
    then v.minutes
    else rl_retry_default_ms

unfoldable pub asked_delay : Scan → Option Bytes → ℕ
unfolding unit_delay
asked_delay scan none = rl_retry_default_ms
asked_delay scan (some s) = unit_delay (scan s)

unfoldable pub server_delay_ms : Scan → Option Bytes → ℕ
unfolding asked_delay
server_delay_ms scan none = rl_retry_default_ms
server_delay_ms scan (some body) = asked_delay scan (behind_first (codes "try again in ") body)

abbrev pub clamped : ℕ → ℕ → ℕ
clamped delay floor_ms =
    let longer = if ltb delay floor_ms then floor_ms else delay in
    if ltb rl_retry_cap_ms longer then rl_retry_cap_ms else longer

-- `clm_rl_retry_delay_ms`; the attempt counts up from 0.
unfoldable pub rl_retry_delay_ms : Scan → Option Bytes → ℕ → ℕ
rl_retry_delay_ms scan body attempt =
    clamped (server_delay_ms scan body)
      (rl_retry_floor_ms * 2 ^ (if ltb 20 attempt then 20 else attempt))
