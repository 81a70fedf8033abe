-- ===== src/Tools/Limits.antt =====
-- The limits of a call: inv_compute_limits of libclm/tools.c.
use clm.Base.{ℕ, ◌≤◌, Bool, true, false, Option, none, some, codes, arith}
use clm.Tools.{Tool, Invocation, Ext}
use clm.Tools.Results.{
  output_cap_max, timeout_max_ms, capped, overridden, own_cap, limits, inv_compute_limits,
}

capped-le : (most x : ℕ) → capped most x ≤ most
capped-le most x = ground arith

capped-pos : (most x : ℕ) → 1 ≤ most → 1 ≤ x → 1 ≤ capped most x
capped-pos most x m h = ground arith

own_cap-pos : (t : Tool) → 1 ≤ own_cap t
own_cap-pos t = ground arith

overridden-pos : (b : Bool) (o : Option ℕ) (d : ℕ) → 1 ≤ d → 1 ≤ overridden b o d
overridden-pos false o d h = h
overridden-pos true none d h = h
overridden-pos true (some x) d h = ground arith

-- A cap on the output of at least one byte and at most 60 KiB, and ten minutes at most.
pub IsLimited : Invocation → Type 0
IsLimited v = (1 ≤ v.output_cap) × (v.output_cap ≤ 61440) × (v.timeout_ms ≤ 600000)

-- Whatever the tool is registered with and whatever the model puts into the arguments, the `output_cap` that
-- a call is given is at least one byte and at most 60 KiB, below what a message can hold, and its
-- `timeout_ms` at most ten minutes.
pub inv_compute_limits-IsLimited :
    (e : Ext) (t : Option Tool) (v : Invocation) → IsLimited (inv_compute_limits e t v)
unfolding IsLimited inv_compute_limits limits
inv_compute_limits-IsLimited e none v = (omega arith, omega arith, omega arith)
inv_compute_limits-IsLimited e (some t) v =
    let cap =
      overridden t.output_cap_overridable (e.arg_number v.args (codes "output_cap")) (own_cap t) in
    let ms =
      overridden t.timeout_overridable (e.arg_number v.args (codes "timeout_ms")) t.timeout_ms in
    (
      capped-pos output_cap_max cap (omega arith) (
          overridden-pos t.output_cap_overridable (e.arg_number v.args (codes "output_cap"))
            (own_cap t) (own_cap-pos t)),
      capped-le output_cap_max cap,
      capped-le timeout_max_ms ms,
    )
