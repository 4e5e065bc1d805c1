-- ===== src/Breaker/Samples.antt =====
-- Breakers at work on concrete calls.
use delta_quant.Prelude.{ℕ, ◌≡◌, refl, true, false, [], ◌∷◌, arith}
use delta_quant.Breaker.{
  CircuitBreaker, closed, opened, half_open, raises, new_breaker, is_available, get_circuit_breaker,
  reset_all_circuit_breakers,
}
use delta_quant.Breaker.Invariant.{IsSound, calls, reads, resets, use_all, use_all-IsSound}

-- Two failures open it, one success closes it, and it rests for ten ticks.
abbrev broker : CircuitBreaker
broker = record {
  failure_threshold = 2;
  success_threshold = 1;
  recovery_time = 10;
  state = closed;
  failure_count = 0;
  success_count = 0;
  last_failure_time = 0;
  last_state_change = 0;
}

abbrev tripped : CircuitBreaker
tripped = record broker {
  state = opened;
  failure_count = 2;
  last_failure_time = 5;
  last_state_change = 5;
}

abbrev probing : CircuitBreaker
probing = record tripped { state = half_open }

-- An exception and an answer.
abbrev timed_out : ℕ
timed_out = 9

abbrev quoted : ℕ
quoted = 4

broker-IsSound : IsSound broker
broker-IsSound = ground arith

new_breaker-broker : new_breaker 2 10 0 ≡ record broker { success_threshold = 2 }
unfolding new_breaker
new_breaker-broker = refl

tripped-is_available : (is_available 14 tripped ≡ false) × (is_available 15 tripped ≡ true)
unfolding is_available
tripped-is_available = (refl, refl)

registered_once :
    let (reg, b) = get_circuit_breaker 7 3 10 0 [] in get_circuit_breaker 7 9 9 9 reg ≡ (reg, b)
unfolding get_circuit_breaker
registered_once = refl

reset_all :
    reset_all_circuit_breakers 20 ((7, tripped) ∷ [])
    ≡ (7, record tripped { state = closed; failure_count = 0; last_state_change = 20 }) ∷ []
unfolding reset_all_circuit_breakers
reset_all = refl

use_all-IsSound_example : IsSound (
    use_all {A = ℕ} {E = ℕ}
      (calls 1 2 (raises 9) ∷ calls 3 4 (raises 9) ∷ reads 20 ∷ resets 21 ∷ [])
      broker)
use_all-IsSound_example =
    use_all-IsSound (calls 1 2 (raises 9) ∷ calls 3 4 (raises 9) ∷ reads 20 ∷ resets 21 ∷ []) broker
      broker-IsSound
