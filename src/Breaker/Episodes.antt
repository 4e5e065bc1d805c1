-- ===== src/Breaker/Episodes.antt =====
-- Runs of failures and of successes: when the breaker opens, and how it closes again.
use delta_quant.Prelude.{
  ℕ, suc, ◌+◌, ◌<◌, ◌≤◌, ◌≡◌, List, [], ◌∷◌, arith, length, ltb, if◌then◌else◌,
}
use delta_quant.Breaker.{CircuitBreaker, closed, opened, half_open, returns, raises, call, poll}

-- Calls that all fail: the clock at the start and at the end of each, and the exception.
abbrev pub Failures : Type 0 → Type 0
Failures E = List (ℕ × ℕ × E)

pub all_fail : {E : Type 0} → Failures E → CircuitBreaker → CircuitBreaker
all_fail [] b = b
all_fail {E} ((now, done, e) ∷ rest) b =
    all_fail rest (call {A = Unit} {E = E} now done (raises e) b).0

call_fails :
    {E : Type 0} (now done : ℕ) (e : E) (b : CircuitBreaker)
    → b.state ≡ closed
    → let b' = (call {A = Unit} now done (raises e) b).0 in
      (b'.failure_count ≡ b.failure_count + 1)
      × (b'.failure_threshold ≡ b.failure_threshold)
      × (b.failure_count + 1 < b.failure_threshold → b'.state ≡ closed)
      × (b.failure_threshold ≤ b.failure_count + 1 → b'.state ≡ opened)
unfolding call
call_fails now done e b h = ground arith

-- A closed breaker counts consecutive failures: it stays closed while they stay below the threshold,
-- and the failure that reaches the threshold opens it.
pub all_fail_opens :
    {E : Type 0} (fs : Failures E) (b : CircuitBreaker)
    → b.state ≡ closed
    → b.failure_count < b.failure_threshold
    → b.failure_count + length fs ≤ b.failure_threshold
    → (all_fail fs b).state
      ≡ (if ltb (b.failure_count + length fs) b.failure_threshold then closed else opened)
unfolding all_fail
all_fail_opens [] b h low le = ground arith
all_fail_opens ((now, done, e) ∷ []) b h low le = ground (arith, call_fails now done e b h)
all_fail_opens {E} ((now, done, e) ∷ f ∷ fs) b h low le =
    let b' = (call {A = Unit} {E = E} now done (raises e) b).0 in
    let (count, threshold, below, above) = call_fails now done e b h in
    let rest = all_fail_opens (f ∷ fs) b' (below (omega arith)) (omega arith) (omega arith) in
    ground arith

-- Calls that all succeed.
pub all_succeed : {A : Type 0} → List (ℕ × ℕ × A) → CircuitBreaker → CircuitBreaker
all_succeed [] b = b
all_succeed {A} ((now, done, a) ∷ rest) b =
    all_succeed rest (call {A = A} {E = Unit} now done (returns a) b).0

call_succeeds :
    {A : Type 0} (now done : ℕ) (a : A) (b : CircuitBreaker)
    → b.state ≡ half_open
    → let b' = (call {E = Unit} now done (returns a) b).0 in
      (b'.success_threshold ≡ b.success_threshold)
      × (b.success_count + 1 < b.success_threshold
          → (b'.state ≡ half_open) × (b'.success_count ≡ b.success_count + 1))
      × (b.success_threshold ≤ b.success_count + 1 → (b'.state ≡ closed) × (b'.failure_count ≡ 0))
unfolding call
call_succeeds now done a b h = ground arith

half_open_closes :
    {A : Type 0} (ss : List (ℕ × ℕ × A)) (b : CircuitBreaker)
    → b.state ≡ half_open
    → b.success_count < b.success_threshold
    → b.success_count + length ss ≡ b.success_threshold
    → ((all_succeed ss b).state ≡ closed) × ((all_succeed ss b).failure_count ≡ 0)
unfolding all_succeed
half_open_closes [] b h low n = absurd (omega arith)
half_open_closes ((now, done, a) ∷ []) b h low n = ground (arith, call_succeeds now done a b h)
half_open_closes {A} ((now, done, a) ∷ s ∷ ss) b h low n =
    let b' = (call {A = A} {E = Unit} now done (returns a) b).0 in
    let (threshold, more, _) = call_succeeds now done a b h in
    let (half, count) = more (omega arith) in
    half_open_closes (s ∷ ss) b' half (omega arith) (omega arith)

poll_late :
    (now : ℕ) (b : CircuitBreaker)
    → b.state ≡ opened
    → b.last_failure_time + b.recovery_time ≤ now
    → (poll now b).state ≡ half_open
      × ((poll now b).success_count ≡ 0)
      × ((poll now b).success_threshold ≡ b.success_threshold)
unfolding poll
poll_late now b h late = ground arith

call-poll :
    {A : Type 0} (now done : ℕ) (a : A) (b : CircuitBreaker)
    → (poll now b).state ≡ half_open
    → call {E = Unit} now done (returns a) b ≡ call now done (returns a) (poll now b)
unfolding call
call-poll now done a b h = ground arith

-- After the recovery time an open breaker lets calls through again, and as many successes in a row
-- as its success threshold close it, with no failure counted.
pub all_succeed_closes :
    {A : Type 0} (now done : ℕ) (a : A) (ss : List (ℕ × ℕ × A)) (b : CircuitBreaker)
    → b.state ≡ opened
    → b.last_failure_time + b.recovery_time ≤ now
    → suc (length ss) ≡ b.success_threshold
    → let b' = all_succeed ((now, done, a) ∷ ss) b in (b'.state ≡ closed) × (b'.failure_count ≡ 0)
unfolding all_succeed
all_succeed_closes now done a ss b h late n =
    let (half, none_yet, threshold) = poll_late now b h late in
    rw (call-poll now done a b half, all_succeed)
      (half_open_closes ((now, done, a) ∷ ss) (poll now b) half (omega arith) (omega arith))

-- In the half-open state one failure opens the breaker again, and the next call before the recovery
-- time has passed since that failure is refused.
pub half_open_reopens :
    {A E : Type 0} (now done later end : ℕ) (e : E) (a : A) (b : CircuitBreaker)
    → b.state ≡ half_open
    → later < done + b.recovery_time
    → let b' = (call {A = A} now done (raises e) b).0 in
      (b'.state ≡ opened) × ((call {E = E} later end (returns a) b').0 ≡ b')
unfolding call
half_open_reopens now done later end e a b h early = ground arith
