-- ===== src/Limiter.antt =====
-- src/core/utils/rate_limiter.py: the token bucket and the decorator that retries. The readings of the
-- clock, and what the decorated function does on each call, are inputs.
pub mod Retries
mod Samples
use delta_quant.Prelude.{
  ℕ, zero, suc, ◌+◌, Bool, true, false, Option, none, some, List, [], ◌∷◌, ◌++◌, ltb, ◌==◌,
  if◌then◌else◌, Text,
}
use delta_quant.Prelude.Dict.{Dict, lookup, insert}
use delta_quant.Prelude.Real.{Real, real, ◌⊕◌, ◌⊖◌, ◌⊗◌, ◌⊘◌, ◌≼◌, minimum}

pub record RateLimiter (R : Type 0) : Type 0 where
  pub requests_per_minute : ℕ
  pub max_retries : ℕ
  pub base_backoff : R
  pub initial_tokens : Option R
  pub tokens : R
  pub last_refill : R

module _ {R : Type 0} ⦃r : Real R⦄ where
  -- `__post_init__`
  abbrev pub limiter_init : R → RateLimiter R → RateLimiter R
  limiter_init now l = record l {
    tokens = elim l.initial_tokens [ some n ↦ n | none ↦ real l.requests_per_minute ];
    last_refill = now;
  }

  abbrev pub tokens_per_second : RateLimiter R → R
  tokens_per_second l = real l.requests_per_minute ⊘ real 60

  unfoldable pub refill_tokens : R → RateLimiter R → RateLimiter R
  refill_tokens now l =
      let tokens_to_add = (now ⊖ l.last_refill) ⊗ tokens_per_second l in
      record l {
        tokens = minimum (real l.requests_per_minute) (l.tokens ⊕ tokens_to_add);
        last_refill = now;
      }

  abbrev pub take_token : RateLimiter R → RateLimiter R
  take_token l = record l { tokens = l.tokens ⊖ real 1 }

  -- `acquire`, with the readings before and after the sleep, and how long it sleeps.
  unfoldable pub acquire : R → R → RateLimiter R → RateLimiter R × Option R
  unfolding refill_tokens
  acquire now woken l =
      let l' = refill_tokens now l in
      if real 1 ≼ l'.tokens
      then (take_token l', none)
      else (take_token (refill_tokens woken l'), some ((real 1 ⊖ l'.tokens) ⊘ tokens_per_second l'))

  unfoldable pub get_wait_time : R → RateLimiter R → RateLimiter R × R
  unfolding refill_tokens
  get_wait_time now l =
      let l' = refill_tokens now l in
      (l', if real 1 ≼ l'.tokens then real 0 else (real 1 ⊖ l'.tokens) ⊘ tokens_per_second l')

-- What the decorated function does on a call: it returns, or it raises, an error of the rate limit or
-- another one.
pub data CallOutcome (A E : Type 0) : Type 0 where
  returns : A → CallOutcome A E
  rate_limit_error : E → CallOutcome A E
  other_error : E → CallOutcome A E

abbrev pub is_rate_limit : {A E : Type 0} → CallOutcome A E → Bool
is_rate_limit (returns a) = false
is_rate_limit (rate_limit_error e) = true
is_rate_limit (other_error e) = false

-- What the decorated call leaves: the limiter, what the function did last, the number of its calls, and
-- the exponents of the back-offs slept.
pub record Retried (R A E : Type 0) : Type 0 where
  pub limiter : RateLimiter R
  pub answer : CallOutcome A E
  pub calls : ℕ
  pub backoffs : List ℕ

module _ {R A E : Type 0} ⦃r : Real R⦄ (max_retries : ℕ) (clock : ℕ → R × R)
    (call : ℕ → CallOutcome A E) where
  -- The loop from an attempt on, with the attempts that are left; past them is the line that should not
  -- be reached.
  unfoldable pub attempts : ℕ → ℕ → RateLimiter R → List ℕ → Retried R A E
  unfolding acquire
  attempts zero attempt l slept = record {
    limiter = l;
    answer = call attempt;
    calls = suc attempt;
    backoffs = slept;
  }
  attempts (suc left) attempt l slept =
      let l' = (acquire (clock attempt).0 (clock attempt).1 l).0 in
      let retried = attempts left (suc attempt) l' (slept ++ attempt ∷ []) in
      let stop : Retried R A E = record {
        limiter = l';
        answer = call attempt;
        calls = suc attempt;
        backoffs = slept;
      } in
      if is_rate_limit (call attempt)
      then if ltb attempt max_retries then retried else stop
      else stop

  unfoldable pub rate_limited : RateLimiter R → Retried R A E
  unfolding attempts
  rate_limited l = attempts (max_retries + 1) 0 l []

-- The names of the providers that the module knows.
abbrev pub groq : Text
groq = 1

abbrev pub gemini : Text
gemini = 2

abbrev pub deepseek : Text
deepseek = 3

abbrev pub provider_requests_per_minute : Text → ℕ
provider_requests_per_minute provider =
    if provider == gemini then 15 else if provider == deepseek then 60 else 30

-- The limiter of Groq, and those of the other providers.
pub record Limiters (R : Type 0) : Type 0 where
  pub groq_limiter : Option (RateLimiter R)
  pub provider_limiters : Dict (RateLimiter R)

module _ {R : Type 0} ⦃r : Real R⦄ (now : R) where
  abbrev pub new_limiter : ℕ → RateLimiter R
  new_limiter requests_per_minute = limiter_init now (record {
    requests_per_minute = requests_per_minute;
    max_retries = 3;
    base_backoff = real 2;
    initial_tokens = none;
    tokens = real 0;
    last_refill = real 0;
  })

  unfoldable pub get_groq_limiter : Limiters R → Limiters R × RateLimiter R
  get_groq_limiter s = elim s.groq_limiter [
    | some l ↦ (s, l)
    | none ↦ (record s { groq_limiter = some (new_limiter 30) }, new_limiter 30)
  ]

  unfoldable pub get_llm_provider_limiter : Text → Limiters R → Limiters R × RateLimiter R
  unfolding get_groq_limiter
  get_llm_provider_limiter provider s =
      let l = new_limiter (provider_requests_per_minute provider) in
      if provider == groq then get_groq_limiter s else elim (lookup provider s.provider_limiters) [
        | some known ↦ (s, known)
        | none ↦ (record s { provider_limiters = insert provider l s.provider_limiters }, l)
      ]
