-- ===== src/RateLimiter.antt =====
-- core/src/younggeul_core/connectors/rate_limit.py: the least interval between two calls. The
-- readings of the clock are arguments, and a call answers what it sleeps, if it does.
use mathlib.Core.Option.{Option, none, some}
use younggeul.Prelude.{pos, if◌then◌else◌}
use younggeul.Errors.{Result, ok, err, value_error}
use younggeul.Floats.{FloatOps}

pub record RateLimiter (F : FloatOps) : Type 0 where
  pub min_interval : F.Float
  pub last_call : F.Float

module _ (F : FloatOps) where
  open F use {Float, sub, lt, le, decimal}

  -- `RateLimiter(min_interval)`
  unfoldable pub rate_limiter : Float → Result (RateLimiter F)
  rate_limiter min_interval =
      if lt min_interval (decimal (pos 0) 1)
      then err (value_error "min_interval must be non-negative")
      else ok (record { min_interval = min_interval; last_call = decimal (pos 0) 1 })

  -- `now` is the clock at the start, `woken` the clock after the sleep.
  unfoldable pub wait : RateLimiter F → (now woken : Float) → RateLimiter F × Option Float
  wait l now woken =
      if le l.min_interval (decimal (pos 0) 1)
      then (l, none)
      else let elapsed = sub now l.last_call in
        (
          record l { last_call = woken },
          (if lt elapsed l.min_interval then some (sub l.min_interval elapsed) else none),
        )

  unfoldable pub reset : RateLimiter F → RateLimiter F
  reset l = record l { last_call = decimal (pos 0) 1 }
