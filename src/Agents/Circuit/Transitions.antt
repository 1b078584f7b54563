-- ===== src/Agents/Circuit/Transitions.antt =====
-- When a circuit opens, blocks, and closes again.
use acton_dx.Prelude.{
  ltb, ◌||◌, ◌==◌, ℕ, suc, ◌+◌, ◌-◌, ◌^◌, ◌≡◌, ◌≤◌, ◌<◌, refl, Bool, true, false, some, List, [],
  ◌∷◌, length, arith, leb, if◌then◌else◌,
}
use acton_dx.Agents.Circuit.{
  CircuitState, closed, opened, half_open, CircuitBreaker, new, record_success, record_failure,
  should_allow,
}

-- What happens to a circuit, with the readings of the clock.
pub data Event : Type 0 where
  succeeded asked : ℕ → Event
  failed : ℕ → ℕ → Event

unfoldable pub apply : Event → CircuitBreaker → CircuitBreaker
apply (succeeded now) c = record_success now c
apply (asked now) c = (should_allow now c).0
apply (failed now later) c = record_failure now later c

unfoldable pub apply_all : List Event → CircuitBreaker → CircuitBreaker
apply_all [] c = c
apply_all (e ∷ es) c = apply_all es (apply e c)

-- The failures since the last success, or since the start.
unfoldable pub failures_from : ℕ → List Event → ℕ
failures_from n [] = n
failures_from n (succeeded _ ∷ es) = failures_from 0 es
failures_from n (asked _ ∷ es) = failures_from n es
failures_from n (failed _ _ ∷ es) = failures_from (suc n) es

abbrev pub is_closed : CircuitState → Bool
is_closed closed = true
is_closed opened = false
is_closed half_open = false

-- The circuit has counted `k` failures against the threshold `n`, and is closed below it.
record IsCounting (n k : ℕ) (c : CircuitBreaker) : Type 0 where
  pub threshold : c.failure_threshold ≡ n
  pub count : c.failure_count ≡ k
  pub state : is_closed c.state ≡ (ltb k n || k == 0)

record_failure-IsCounting :
    (n k now later : ℕ) (c : CircuitBreaker)
    → suc k < 2 ^ 32
    → IsCounting n k c
    → IsCounting n (suc k) (record_failure now later c)
unfolding record_failure
record_failure-IsCounting n k now later c h v = ground arith

should_allow-IsCounting :
    (n k now : ℕ) (c : CircuitBreaker) → IsCounting n k c → IsCounting n k (should_allow now c).0
unfolding should_allow
should_allow-IsCounting n k now c v = ground arith

apply_all-IsCounting :
    (n k : ℕ) (es : List Event) (c : CircuitBreaker)
    → k + length es < 2 ^ 32
    → IsCounting n k c
    → IsCounting n (failures_from k es) (apply_all es c)
unfolding apply_all apply failures_from record_success
apply_all-IsCounting n k [] c h v = v
apply_all-IsCounting n k (succeeded now ∷ es) c h v =
    apply_all-IsCounting n 0 es (record_success now c) (omega arith)
      (record { threshold = v.threshold; count = refl; state = ground arith })
apply_all-IsCounting n k (asked now ∷ es) c h v =
    apply_all-IsCounting n k es (should_allow now c).0 (omega arith)
      (should_allow-IsCounting n k now c v)
apply_all-IsCounting n k (failed now later ∷ es) c h v =
    apply_all-IsCounting n (suc k) es (record_failure now later c) (omega arith)
      (record_failure-IsCounting n k now later c (omega arith) v)

-- After fewer than 2^32 events a new circuit has counted the failures since the last success, and
-- is closed exactly while these are below the threshold or there are none.
pub closed_below_threshold :
    (threshold timeout : ℕ) (es : List Event)
    → length es < 2 ^ 32
    → let c = apply_all es (new threshold timeout) in
      let k = failures_from 0 es in
      (c.failure_count ≡ k) × (is_closed c.state ≡ (ltb k threshold || k == 0))
unfolding new
closed_below_threshold threshold timeout es h =
    let v =
      apply_all-IsCounting threshold 0 es (new threshold timeout) (omega arith)
        (record { threshold = refl; count = refl; state = ground arith }) in
    (v.count, v.state)

-- As long as the failure count does not wrap, the failure that reaches the threshold opens the
-- circuit: a request is then let through exactly when the recovery timeout has passed since,
-- which makes the circuit half-open; the next failure opens it again, from its own time.
record_failure-should_allow :
    (now later asked_at again again_later : ℕ) (c : CircuitBreaker)
    → c.failure_threshold ≤ c.failure_count + 1
    → c.failure_count + 2 < 2 ^ 32
    → let tripped = record_failure now later c in
      let answer = should_allow asked_at tripped in
      let waited = leb c.recovery_timeout (asked_at - later) in
      (answer.1 ≡ waited)
      × (answer.0.state ≡ (if waited then half_open else opened))
      × ((record_failure again again_later answer.0).state ≡ opened)
      × ((record_failure again again_later answer.0).opened_at ≡ some again_later)
unfolding record_failure should_allow
record_failure-should_allow now later asked_at again again_later c h bound = ground arith

-- After a success requests are let through and leave the circuit as it is.
pub record_success-should_allow :
    (now asked_at : ℕ) (c : CircuitBreaker)
    → let answer = should_allow asked_at (record_success now c) in
      (answer.1 ≡ true) × (answer.0 ≡ record_success now c)
unfolding record_success should_allow
record_success-should_allow now asked_at c = ground arith
