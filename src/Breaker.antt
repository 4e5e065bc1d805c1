-- ===== src/Breaker.antt =====
-- src/core/utils/circuit_breaker.py: the circuit breaker around calls of external services, the registry
-- of named breakers and the decorator `with_circuit_breaker`. Times are clock readings in whole ticks;
-- a call reads the clock when it enters (`now`) and when the protected function has ended (`done`).
-- The protected function stands for its outcome.
pub mod Invariant
pub mod Episodes
mod Samples
use delta_quant.Prelude.{
  ℕ, ◌+◌, ◌-◌, Bool, true, false, Option, none, some, leb, if◌then◌else◌, Text,
}
use mathlib.Core.List.{[], ◌∷◌}
use delta_quant.Prelude.Dict.{Dict, lookup, insert}

pub data CircuitState : Type 0 where
  closed opened half_open : CircuitState

pub record CircuitBreaker : Type 0 where
  pub failure_threshold : ℕ
  pub success_threshold : ℕ
  pub recovery_time : ℕ
  pub state : CircuitState
  pub failure_count : ℕ
  pub success_count : ℕ
  pub last_failure_time : ℕ
  pub last_state_change : ℕ

-- What the protected function does.
pub data Outcome (A E : Type 0) : Type 0 where
  returns : A → Outcome A E
  raises : E → Outcome A E

-- What the caller sees; `refused` is `CircuitBreakerOpenError` with the time that remains.
pub data Reply (A E : Type 0) : Type 0 where
  result : A → Reply A E
  failed : E → Reply A E
  refused : ℕ → Reply A E

abbrev same_state : CircuitState → CircuitState → Bool
same_state closed closed = true
same_state opened opened = true
same_state half_open half_open = true
same_state _ _ = false

-- The counter that the new state resets.
enter : CircuitState → CircuitBreaker → CircuitBreaker
enter half_open b = record b { success_count = 0 }
enter closed b = record b { failure_count = 0 }
enter opened b = b

pub transition_to : CircuitState → ℕ → CircuitBreaker → CircuitBreaker
unfolding enter
transition_to new_state now b =
    if same_state b.state new_state
    then b
    else enter new_state (record b { state = new_state; last_state_change = now })

-- The property `state`: reading it may move OPEN to HALF_OPEN.
pub poll : ℕ → CircuitBreaker → CircuitBreaker
unfolding transition_to
poll now b =
    if same_state b.state opened
    then if leb (b.last_failure_time + b.recovery_time) now
      then transition_to half_open now b
      else b
    else b

pub is_available : ℕ → CircuitBreaker → Bool
unfolding poll
is_available now b = if same_state (poll now b).state opened then false else true

pub record_success : ℕ → CircuitBreaker → CircuitBreaker
unfolding transition_to
record_success now b =
    let b₁ = record b { failure_count = 0 } in
    let b₂ = record b₁ { success_count = b.success_count + 1 } in
    if same_state b.state half_open
    then if leb b₂.success_threshold b₂.success_count then transition_to closed now b₂ else b₂
    else b₁

pub record_failure : ℕ → CircuitBreaker → CircuitBreaker
unfolding transition_to
record_failure now b =
    let b₁ = record b {
      failure_count = b.failure_count + 1;
      last_failure_time = now;
      success_count = 0;
    } in
    if same_state b.state half_open
    then transition_to opened now b₁
    else if leb b₁.failure_threshold b₁.failure_count
    then transition_to opened now b₁
    else b₁

-- The `try` and its handlers: the outcome is recorded, then handed on.
pub settle : {A E : Type 0} → ℕ → Outcome A E → CircuitBreaker → CircuitBreaker × Reply A E
unfolding record_success record_failure
settle done (returns a) b = (record_success done b, result a)
settle done (raises e) b = (record_failure done b, failed e)

-- Both `call` and `call_async`: a time-out of the awaited function is one more exception.
pub call : {A E : Type 0} → ℕ → ℕ → Outcome A E → CircuitBreaker → CircuitBreaker × Reply A E
unfolding poll settle
call now done outcome b =
    let b₁ = poll now b in
    if same_state b₁.state opened
    then (b₁, refused (b₁.last_failure_time + b₁.recovery_time - now))
    else settle done outcome b₁

pub reset : ℕ → CircuitBreaker → CircuitBreaker
unfolding transition_to
reset now b = record (transition_to closed now b) { failure_count = 0; success_count = 0 }

-- The module-level registry `_circuit_breakers`.
abbrev pub Registry : Type 0
Registry = Dict CircuitBreaker

pub new_breaker : ℕ → ℕ → ℕ → CircuitBreaker
new_breaker failure_threshold recovery_time now = record {
  failure_threshold = failure_threshold;
  success_threshold = 2;
  recovery_time = recovery_time;
  state = closed;
  failure_count = 0;
  success_count = 0;
  last_failure_time = 0;
  last_state_change = now;
}

-- Returns the registry with the breaker in it, and the breaker.
pub get_circuit_breaker : Text → ℕ → ℕ → ℕ → Registry → Registry × CircuitBreaker
unfolding new_breaker
get_circuit_breaker name failure_threshold recovery_time now reg = elim (lookup name reg) [
  | some b ↦ (reg, b)
  | none ↦ let b = new_breaker failure_threshold recovery_time now in (insert name b reg, b)
]

pub reset_all_circuit_breakers : ℕ → Registry → Registry
unfolding reset
reset_all_circuit_breakers now [] = []
reset_all_circuit_breakers now ((name, b) ∷ reg) =
    (name, reset now b) ∷ reset_all_circuit_breakers now reg

-- The handler of `CircuitBreakerOpenError`: the fallback's value, or the exception again.
abbrev pub recover : {A E : Type 0} → Option A → Reply A E → Reply A E
recover (some a) (refused remaining) = result a
recover fallback reply = reply

-- `with_circuit_breaker`: an open breaker hands over to the fallback, if there is one.
pub with_circuit_breaker :
    {A E : Type 0} → Option A → ℕ → ℕ → Outcome A E → CircuitBreaker → CircuitBreaker × Reply A E
unfolding call
with_circuit_breaker fallback now done outcome b =
    let (b', reply) = call now done outcome b in (b', recover fallback reply)
