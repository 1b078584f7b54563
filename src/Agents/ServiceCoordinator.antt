-- ===== src/Agents/ServiceCoordinator.antt =====
-- `ServiceCoordinatorAgent` of acton-dx/src/htmx/agents/service_coordinator.rs: the health of the
-- services, each behind a circuit breaker. The event that a handler broadcasts is part of its
-- result. A handler's readings of the clock are taken as one.
pub mod Health
pub mod Limits
pub mod Events
mod Tests
use Prim.Native.Nat.{Ordering}
use acton_dx.Prelude.{
  ℕ, ◌+◌, ◌*◌, ◌≡◌, Bool, true, false, Option, none, some, List, [], ◌∷◌, String, map, ite,
  if◌then◌else◌,
}
use acton_dx.Prelude.Dict
use acton_dx.Prelude.Time.{second}
use acton_dx.Prelude.Words.{add64}
use acton_dx.Agents.Circuit
use acton_dx.Agents.Circuit.{CircuitBreaker, CircuitState, closed, opened, half_open}

pub data ServiceId : Type 0 where
  auth database cedar cache email file : ServiceId

pub data ServiceState : Type 0 where
  healthy degraded unhealthy unknown : ServiceState

unfoldable pub ServiceId-discrete : Discrete ServiceId
ServiceId-discrete = hlevel

unfoldable pub ServiceState-discrete : Discrete ServiceState
ServiceState-discrete = hlevel

-- `ServiceId::all`
abbrev pub all_services : List ServiceId
all_services = auth ∷ database ∷ cedar ∷ cache ∷ email ∷ file ∷ []

unfoldable pub name : ServiceId → String
name auth = "auth"
name database = "data"
name cedar = "cedar"
name cache = "cache"
name email = "email"
name file = "file"

unfoldable pub default_port : ServiceId → ℕ
default_port auth = 50_051
default_port database = 50_052
default_port cedar = 50_053
default_port cache = 50_054
default_port email = 50_055
default_port file = 50_056

pub record ServiceHealth : Type 0 where
  pub service_id : ServiceId
  pub state : ServiceState
  pub circuit : CircuitBreaker
  pub endpoint : String
  pub last_check : Option ℕ
  pub response_time_ms : Option ℕ

abbrev pub default_failure_threshold : ℕ
default_failure_threshold = 5

abbrev pub default_recovery_timeout : ℕ
default_recovery_timeout = 60 * second

-- `ServiceHealth::new`
unfoldable pub health_new : ServiceId → String → ServiceHealth
unfolding Circuit.new
health_new id endpoint = record {
  service_id = id;
  state = unknown;
  circuit = Circuit.new default_failure_threshold default_recovery_timeout;
  endpoint = endpoint;
  last_check = none;
  response_time_ms = none;
}

pub record ServiceStatusEvent : Type 0 where
  pub service_id : ServiceId
  pub previous_state : ServiceState
  pub new_state : ServiceState
  pub timestamp : ℕ

pub record ServiceCoordinatorConfig : Type 0 where
  pub health_check_interval : ℕ
  pub failure_threshold : ℕ
  pub recovery_timeout : ℕ
  pub endpoints : List (ServiceId × String)
  pub enabled : Bool

pub record ServiceCoordinatorAgent : Type 0 where
  pub config : ServiceCoordinatorConfig
  pub services : List (ServiceId × ServiceHealth)
  pub health_check_count : ℕ

-- The circuit of an entry, under the limits of a configuration.
abbrev pub with_limits : ServiceCoordinatorConfig → ServiceHealth → ServiceHealth
with_limits config h = record h {
  circuit = record h.circuit {
    failure_threshold = config.failure_threshold;
    recovery_timeout = config.recovery_timeout;
  };
}

-- The entries that `new` makes, with the default limits of `health_new`.
unfoldable pub new : ServiceCoordinatorConfig → ServiceCoordinatorAgent
unfolding health_new
new config = record {
  config = config;
  services = map (λ e. (e.0, health_new e.0 e.1)) config.endpoints;
  health_check_count = 0;
}

-- The model that `spawn_with_config` starts with.
unfoldable pub spawned : ServiceCoordinatorConfig → ServiceCoordinatorAgent
unfolding health_new
spawned config = record {
  config = config;
  services = map (λ e. (e.0, with_limits config (health_new e.0 e.1))) config.endpoints;
  health_check_count = 0;
}

unfoldable pub state_from_circuit : CircuitBreaker → ServiceState
state_from_circuit c = elim c.state [
  | opened ↦ unhealthy
  | closed ↦ degraded
  | half_open ↦ degraded
]

unfoldable pub maybe_broadcast :
    ServiceId → ServiceState → ServiceState → ℕ → Option ServiceStatusEvent
maybe_broadcast id prev next now =
    ite (ServiceState-discrete prev next) none
      (some (record { service_id = id; previous_state = prev; new_state = next; timestamp = now }))

-- A successful health check, of an entry.
unfoldable pub checked_healthy : ℕ → Option ℕ → ServiceHealth → ServiceHealth
unfolding Circuit.record_success
checked_healthy now response_time_ms h = record h {
  last_check = some now;
  circuit = Circuit.record_success now h.circuit;
  response_time_ms = response_time_ms;
  state = healthy;
}

-- A failed health check, of an entry.
unfoldable pub checked_failed : ℕ → ServiceHealth → ServiceHealth
unfolding Circuit.record_failure state_from_circuit
checked_failed now h =
    let circuit = Circuit.record_failure now now h.circuit in
    record h { last_check = some now; circuit = circuit; state = state_from_circuit circuit }

-- A successful request, of an entry.
unfoldable pub marked_available : ℕ → ServiceHealth → ServiceHealth
unfolding Circuit.record_success
marked_available now h = record h {
  circuit = Circuit.record_success now h.circuit;
  state = healthy;
}

-- A failed request, of an entry.
unfoldable pub marked_unavailable : ℕ → ServiceHealth → ServiceHealth
unfolding Circuit.record_failure state_from_circuit
marked_unavailable now h =
    let circuit = Circuit.record_failure now now h.circuit in
    record h { circuit = circuit; state = state_from_circuit circuit }

-- Change the entry of a service, if it has one, and broadcast a change of its state.
unfoldable pub update_service :
    ServiceId
    → ℕ
    → (ServiceHealth → ServiceHealth)
    → ServiceCoordinatorAgent
    → ServiceCoordinatorAgent × Option ServiceStatusEvent
unfolding maybe_broadcast
update_service id now f m = elim (Dict.lookup ServiceId-discrete id m.services) [
  | none ↦ (m, none)
  | some h ↦ (
    record m { services = Dict.insert ServiceId-discrete id (f h) m.services },
    maybe_broadcast id h.state (f h).state now,
  )
]

-- `HealthCheckResult`; the error text of a failed check is not kept.
unfoldable pub health_check_result :
    ServiceId
    → Bool
    → Option ℕ
    → ℕ
    → ServiceCoordinatorAgent
    → ServiceCoordinatorAgent × Option ServiceStatusEvent
unfolding update_service checked_healthy checked_failed
health_check_result id is_healthy response_time_ms now m =
    update_service id now
      (λ h. if is_healthy then checked_healthy now response_time_ms h else checked_failed now h)
      (record m { health_check_count = add64 m.health_check_count 1 })

-- `ServiceAvailable`
unfoldable pub service_available :
    ServiceId → ℕ → ServiceCoordinatorAgent → ServiceCoordinatorAgent × Option ServiceStatusEvent
unfolding update_service marked_available
service_available id now m = update_service id now (marked_available now) m

-- `ServiceUnavailable`
unfoldable pub service_unavailable :
    ServiceId → ℕ → ServiceCoordinatorAgent → ServiceCoordinatorAgent × Option ServiceStatusEvent
unfolding update_service marked_unavailable
service_unavailable id now m = update_service id now (marked_unavailable now) m

-- The entries that a configuration adds: those of the services that have none.
unfoldable pub add_endpoints :
    List (ServiceId × String) → List (ServiceId × ServiceHealth) → List (ServiceId × ServiceHealth)
unfolding health_new
add_endpoints [] services = services
add_endpoints ((id, endpoint) ∷ es) services =
    add_endpoints es (elim (Dict.lookup ServiceId-discrete id services) [
      | none ↦ Dict.insert ServiceId-discrete id (health_new id endpoint) services
      | some h ↦ services
    ])

-- `UpdateConfig`
unfoldable pub update_config :
    ServiceCoordinatorConfig → ServiceCoordinatorAgent → ServiceCoordinatorAgent
unfolding add_endpoints
update_config config m = record m {
  config = config;
  services = add_endpoints config.endpoints (map (λ e. (e.0, with_limits config e.1)) m.services);
}

unfoldable pub is_healthy : ServiceId → ServiceCoordinatorAgent → Bool
is_healthy id m = elim (Dict.lookup ServiceId-discrete id m.services) [
  | none ↦ false
  | some h ↦ ite (ServiceState-discrete h.state healthy) true false
]

unfoldable pub should_allow_request :
    ServiceId → ℕ → ServiceCoordinatorAgent → ServiceCoordinatorAgent × Bool
unfolding Circuit.should_allow
should_allow_request id now m = elim (Dict.lookup ServiceId-discrete id m.services) [
  | none ↦ (m, false)
  | some h ↦
      let (circuit, allowed) = Circuit.should_allow now h.circuit in
      (
        record m {
          services = Dict.insert ServiceId-discrete id (record h { circuit = circuit }) m.services;
        },
        allowed,
      )
]

-- The answer to `GetServiceStatus`: the state of each service and of its circuit.
unfoldable pub service_status :
    ServiceCoordinatorAgent → List (ServiceId × (ServiceState × CircuitState)) × ℕ × Bool
service_status m = (
  map (λ e. (e.0, (e.1.state, e.1.circuit.state))) m.services,
  m.health_check_count,
  m.config.enabled,
)
