-- ===== src/Limiter/Retries.antt =====
-- How often a rate-limited call is made, and what it answers with.
use delta_quant.Prelude.{
  ℕ, zero, suc, ◌+◌, ◌≤◌, ◌<◌, ◌≡◌, ◌⊎◌, refl, ap, inl, inr, true, false, List, [], ◌∷◌, ◌++◌, ltb,
  arith, All, All-append, Bool-cases, ltb→lt,
}
use delta_quant.Prelude.Real.{Real}
use delta_quant.Limiter.{
  RateLimiter, CallOutcome, is_rate_limit, Retried, acquire, attempts, rate_limited,
}

-- The attempts before one, in their order.
abbrev pub before : ℕ → List ℕ
before zero = []
before (suc n) = before n ++ n ∷ []

module _ {R A E : Type 0} ⦃r : Real R⦄ (max_retries : ℕ) (clock : ℕ → R × R)
    (call : ℕ → CallOutcome A E) where
  -- The answer is that of the last call, after a rate-limit error on each call before it with its
  -- back-off slept; it is no rate-limit error unless every call was used up.
  abbrev pub IsSettled : Retried R A E → Type 0
  IsSettled out =
      (last : ℕ) × (out.calls ≡ suc last)
      × (last ≤ max_retries)
      × (out.answer ≡ call last)
      × (out.backoffs ≡ before last)
      × All (λ (k : ℕ). is_rate_limit (call k) ≡ true) (before last)
      × ((is_rate_limit (call last) ≡ false) ⊎ (last ≡ max_retries))

  attempts-IsSettled :
      (left attempt : ℕ) (l : RateLimiter R) (slept : List ℕ)
      → attempt + left ≡ max_retries + 1
      → 0 < left
      → slept ≡ before attempt
      → All (λ (k : ℕ). is_rate_limit (call k) ≡ true) (before attempt)
      → IsSettled (attempts max_retries clock call left attempt l slept)
  unfolding attempts
  attempts-IsSettled zero attempt l slept total positive same limited = absurd (omega arith)
  attempts-IsSettled (suc left) attempt l slept total positive same limited =
      let l' = (acquire (clock attempt).0 (clock attempt).1 l).0 in
      elim (Bool-cases (is_rate_limit (call attempt))) [
        | inr settled ↦
            rw (attempts, settled) (attempt, refl, omega arith, refl, same, limited, inl settled)
        | inl limit ↦ elim (Bool-cases (ltb attempt max_retries)) [
          | inr used_up ↦
              rw (attempts, limit, used_up)
                (attempt, refl, omega arith, refl, same, limited, inr (ground (arith, used_up)))
          | inl more ↦
              rw (attempts, limit, more)
                (attempts-IsSettled left (suc attempt) l' (slept ++ attempt ∷ []) (omega arith)
                  (omega (arith, ltb→lt attempt max_retries more))
                  (ap (λ xs. xs ++ attempt ∷ []) same)
                  (All-append (λ (k : ℕ). is_rate_limit (call k) ≡ true) (before attempt)
                    (attempt ∷ []) limited (limit, tt)))
        ]
      ]

  -- A rate-limited call is made again only after a rate-limit error, and at most one more time than
  -- there are retries: it answers what the function did on the last of its calls, every call before
  -- ended in a rate-limit error and was followed by one back-off, these growing by one power each time,
  -- and the answer is a rate-limit error only when all retries are used up.
  pub rate_limited-IsSettled :
      (l : RateLimiter R) → IsSettled (rate_limited max_retries clock call l)
  unfolding rate_limited
  rate_limited-IsSettled l =
      attempts-IsSettled (max_retries + 1) 0 l [] (omega arith) (omega arith) refl tt
