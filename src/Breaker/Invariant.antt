-- ===== src/Breaker/Invariant.antt =====
-- What holds of a breaker between calls, and what a call answers.
use delta_quant.Prelude.{ℕ, ◌+◌, ◌-◌, ◌<◌, ◌≤◌, ◌≡◌, ◌≢◌, ◌⊎◌, some, List, [], ◌∷◌, arith}
use delta_quant.Breaker.{
  CircuitBreaker, closed, opened, half_open, Outcome, returns, raises, Reply, result, failed,
  refused, poll, settle, call, reset, with_circuit_breaker,
}

-- A closed breaker is below its failure threshold, a half-open one below its success threshold.
pub record IsSound (b : CircuitBreaker) : Type 0 where
  pub failure_pos : 0 < b.failure_threshold
  pub success_pos : 0 < b.success_threshold
  pub closed_below : b.state ≡ closed → b.failure_count < b.failure_threshold
  pub half_open_below : b.state ≡ half_open → b.success_count < b.success_threshold

pub poll-IsSound : (now : ℕ) (b : CircuitBreaker) → IsSound b → IsSound (poll now b)
unfolding poll
poll-IsSound now b h = ground arith

pub settle-IsSound :
    {A E : Type 0} (done : ℕ) (o : Outcome A E) (b : CircuitBreaker)
    → IsSound b
    → b.state ≢ opened
    → IsSound (settle done o b).0
unfolding settle
settle-IsSound done (returns a) b h live = ground arith
settle-IsSound done (raises e) b h live = ground arith

pub call-IsSound :
    {A E : Type 0} (now done : ℕ) (o : Outcome A E) (b : CircuitBreaker)
    → IsSound b
    → IsSound (call now done o b).0
unfolding call
call-IsSound now done o b h =
    ground (arith, poll-IsSound now b h, settle-IsSound done o (poll now b))

pub reset-IsSound : (now : ℕ) (b : CircuitBreaker) → IsSound b → IsSound (reset now b)
unfolding reset
reset-IsSound now b h = ground arith

-- What a program does with one breaker.
pub data Use (A E : Type 0) : Type 0 where
  calls : ℕ → ℕ → Outcome A E → Use A E
  reads : ℕ → Use A E
  resets : ℕ → Use A E

pub use_once : {A E : Type 0} → Use A E → CircuitBreaker → CircuitBreaker
use_once (calls now done o) b = (call now done o b).0
use_once (reads now) b = poll now b
use_once (resets now) b = reset now b

pub use_all : {A E : Type 0} → List (Use A E) → CircuitBreaker → CircuitBreaker
use_all [] b = b
use_all (u ∷ us) b = use_all us (use_once u b)

use_once-IsSound :
    {A E : Type 0} (u : Use A E) (b : CircuitBreaker) → IsSound b → IsSound (use_once u b)
unfolding use_once
use_once-IsSound (calls now done o) b h = call-IsSound now done o b h
use_once-IsSound (reads now) b h = poll-IsSound now b h
use_once-IsSound (resets now) b h = reset-IsSound now b h

-- Whatever calls, reads of the state and resets a program makes, in any order and at any times, a
-- closed breaker stays below its failure threshold and a half-open one below its success threshold.
pub use_all-IsSound :
    {A E : Type 0} (us : List (Use A E)) (b : CircuitBreaker) → IsSound b → IsSound (use_all us b)
unfolding use_all
use_all-IsSound [] b h = h
use_all-IsSound (u ∷ us) b h = use_all-IsSound us (use_once u b) (use_once-IsSound u b h)

-- What the protected function gave.
abbrev pub answer : {A E : Type 0} → Outcome A E → Reply A E
answer (returns a) = result a
answer (raises e) = failed e

-- A call is refused exactly while the breaker is open and the recovery time has not passed since the
-- last failure; a refused call leaves the breaker as it was and names the time that remains, and any
-- other call hands on what the protected function gave.
pub call_answers :
    {A E : Type 0} (now done : ℕ) (o : Outcome A E) (b : CircuitBreaker)
    → let again = b.last_failure_time + b.recovery_time in
      ((b.state ≡ opened) × (now < again) × (call now done o b ≡ (b, refused (again - now))))
      ⊎ (((b.state ≢ opened) ⊎ (again ≤ now)) × ((call now done o b).1 ≡ answer o))
unfolding call
call_answers now done (returns a) b = ground arith
call_answers now done (raises e) b = ground arith

-- With a fallback the caller never sees the breaker's own exception.
pub with_circuit_breaker_fallback :
    {A E : Type 0} (a : A) (now done : ℕ) (o : Outcome A E) (b : CircuitBreaker) (r : ℕ)
    → (with_circuit_breaker (some a) now done o b).1 ≢ refused r
unfolding with_circuit_breaker
with_circuit_breaker_fallback a now done (returns x) b r = ground arith
with_circuit_breaker_fallback a now done (raises x) b r = ground arith
