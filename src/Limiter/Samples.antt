-- ===== src/Limiter/Samples.antt =====
-- Two rate-limit errors, then an answer.
use delta_quant.Prelude.{ℕ, zero, suc, ◌≡◌, refl, none}
use delta_quant.Prelude.Int.{ℤ, pos}
use delta_quant.Prelude.Real.{Real}
use delta_quant.Prelude.Whole.{whole_units}
use delta_quant.Limiter.{
  RateLimiter, CallOutcome, returns, rate_limit_error, rate_limited, attempts,
}
use delta_quant.Limiter.Retries.{IsSettled, rate_limited-IsSettled}

instance abbrev whole : Real ℤ
whole = whole_units

abbrev limiter : RateLimiter ℤ
limiter = record {
  requests_per_minute = 60;
  max_retries = 3;
  base_backoff = pos 2;
  initial_tokens = none;
  tokens = pos 60;
  last_refill = pos 0;
}

abbrev clock : ℕ → ℤ × ℤ
clock attempt = (pos attempt, pos (suc attempt))

abbrev call : ℕ → CallOutcome ℕ ℕ
call zero = rate_limit_error 429
call (suc zero) = rate_limit_error 429
call (suc (suc n)) = returns 5

third_call : (rate_limited 3 clock call limiter).answer ≡ returns 5
unfolding rate_limited attempts
third_call = refl

rate_limited-IsSettled_example : IsSettled 3 clock call (rate_limited 3 clock call limiter)
rate_limited-IsSettled_example = rate_limited-IsSettled 3 clock call limiter
