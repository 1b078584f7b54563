-- ===== src/Agents/Circuit/Tests.antt =====
-- A circuit with a threshold of two failures and a timeout of 60.
use acton_dx.Prelude.{◌≡◌, false, some, none, List, [], ◌∷◌, arith}
use acton_dx.Agents.Circuit.{CircuitBreaker, closed, new}
use acton_dx.Agents.Circuit.Transitions.{
  Event, succeeded, asked, failed, apply_all, failures_from, is_closed, closed_below_threshold,
}

abbrev events : List Event
events = failed 1 1 ∷ succeeded 2 ∷ failed 3 3 ∷ asked 4 ∷ failed 5 5 ∷ []

closed_below_threshold_example :
    ((apply_all events (new 2 60)).failure_count ≡ 2)
    × (is_closed (apply_all events (new 2 60)).state ≡ false)
unfolding failures_from
closed_below_threshold_example = closed_below_threshold 2 60 events (omega arith)

abbrev one_failure : CircuitBreaker
one_failure = record {
  state = closed;
  failure_count = 1;
  failure_threshold = 2;
  opened_at = none;
  recovery_timeout = 60;
  last_success = none;
  last_failure = some 1;
}
