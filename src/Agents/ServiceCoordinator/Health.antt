-- ===== src/Agents/ServiceCoordinator/Health.antt =====
-- What the coordinator reports agrees with its circuits.
use acton_dx.Prelude.{
  ℕ, ◌≡◌, refl, inl, inr, Bool, true, false, Option, List, [], ◌∷◌, String, map, ite, if◌then◌else◌,
  arith, Option-cases,
}
use acton_dx.Prelude.Dict
use acton_dx.Prelude.Dict.{AllValues, option_map}
use acton_dx.Agents.Circuit
use acton_dx.Agents.Circuit.{CircuitBreaker, CircuitState, closed, opened, half_open}
use acton_dx.Agents.ServiceCoordinator.{
  ServiceId, ServiceState, ServiceHealth, ServiceCoordinatorConfig, ServiceCoordinatorAgent,
  ServiceId-discrete, ServiceState-discrete, healthy, degraded, unhealthy, health_new, with_limits,
  spawned, checked_healthy, checked_failed, marked_available, marked_unavailable, update_service,
  health_check_result, service_available, service_unavailable, state_from_circuit, add_endpoints,
  update_config, is_healthy, should_allow_request,
}

-- The states of a circuit and of its service that go together.
abbrev fits : CircuitState → ServiceState → Bool
fits opened unhealthy = true
fits opened _ = false
fits half_open unhealthy = true
fits half_open degraded = true
fits half_open _ = false
fits closed unhealthy = false
fits closed _ = true

abbrev Fits : ServiceHealth → Type 0
Fits h = fits h.circuit.state h.state ≡ true

state_from_circuit-fits : (c : CircuitBreaker) → fits c.state (state_from_circuit c) ≡ true
unfolding state_from_circuit
state_from_circuit-fits c = ground arith

should_allow-Fits :
    (now : ℕ) (h : ServiceHealth)
    → Fits h
    → Fits (record h { circuit = (Circuit.should_allow now h.circuit).0 })
unfolding Circuit.should_allow
should_allow-Fits now h f = ground arith

-- The messages and calls that change the model, each at a reading of the clock.
pub data Event : Type 0 where
  checked : ServiceId → Bool → Option ℕ → Event
  available failed asked : ServiceId → Event
  configured : ServiceCoordinatorConfig → Event

unfoldable pub step : ℕ × Event → ServiceCoordinatorAgent → ServiceCoordinatorAgent
step (now, checked id ok rt) m = (health_check_result id ok rt now m).0
step (now, available id) m = (service_available id now m).0
step (now, failed id) m = (service_unavailable id now m).0
step (now, asked id) m = (should_allow_request id now m).0
step (now, configured config) m = update_config config m

unfoldable pub run : List (ℕ × Event) → ServiceCoordinatorAgent → ServiceCoordinatorAgent
run [] m = m
run (c ∷ cs) m = run cs (step c m)

update_service-Fits :
    (id : ServiceId) (now : ℕ) (f : ServiceHealth → ServiceHealth) (m : ServiceCoordinatorAgent)
    → ((h : ServiceHealth) → Fits (f h))
    → AllValues Fits m.services
    → AllValues Fits (update_service id now f m).0.services
unfolding update_service
update_service-Fits id now f m ok a =
    elim (Option-cases (Dict.lookup ServiceId-discrete id m.services)) [
      | inl absent ↦ rw (absent, update_service) a
      | inr (h, present) ↦
          rw (present, update_service)
            (Dict.AllValues-insert ServiceId-discrete Fits id (f h) m.services (ok h) a)
    ]

should_allow_request-Fits :
    (id : ServiceId) (now : ℕ) (m : ServiceCoordinatorAgent)
    → AllValues Fits m.services
    → AllValues Fits (should_allow_request id now m).0.services
unfolding should_allow_request
should_allow_request-Fits id now m a =
    elim (Option-cases (Dict.lookup ServiceId-discrete id m.services)) [
      | inl absent ↦ rw (absent, should_allow_request) a
      | inr (h, present) ↦
          rw (present, should_allow_request)
            (Dict.AllValues-insert ServiceId-discrete Fits id _ m.services
              (should_allow-Fits now h
                (Dict.AllValues-lookup ServiceId-discrete Fits id h m.services a present))
              a)
    ]

add_endpoints-Fits :
    (es : List (ServiceId × String)) (services : List (ServiceId × ServiceHealth))
    → AllValues Fits services
    → AllValues Fits (add_endpoints es services)
unfolding add_endpoints
add_endpoints-Fits [] services a = a
add_endpoints-Fits ((id, endpoint) ∷ es) services a =
    elim (Option-cases (Dict.lookup ServiceId-discrete id services)) [
      | inl absent ↦ rw absent (
          add_endpoints-Fits es _ (
            Dict.AllValues-insert ServiceId-discrete Fits id (health_new id endpoint) services
              (unfold health_new in refl) a))
      | inr (h, present) ↦ rw present (add_endpoints-Fits es services a)
    ]

with_limits-Fits :
    (config : ServiceCoordinatorConfig) (services : List (ServiceId × ServiceHealth))
    → AllValues Fits services
    → AllValues Fits (map (λ e. (e.0, with_limits config e.1)) services)
with_limits-Fits config [] a = tt
with_limits-Fits config ((id, h) ∷ services) a = (a.0, with_limits-Fits config services a.1)

checked-Fits :
    (ok : Bool) (rt : Option ℕ) (now : ℕ) (h : ServiceHealth)
    → Fits (if ok then checked_healthy now rt h else checked_failed now h)
unfolding checked_healthy checked_failed
checked-Fits true rt now h = refl
checked-Fits false rt now h = state_from_circuit-fits (Circuit.record_failure now now h.circuit)

step-Fits :
    (c : ℕ × Event) (m : ServiceCoordinatorAgent)
    → AllValues Fits m.services
    → AllValues Fits (step c m).services
unfolding step health_check_result service_available service_unavailable update_config
step-Fits (now, checked id ok rt) m a = update_service-Fits id now _ _ (checked-Fits ok rt now) a
step-Fits (now, available id) m a =
    update_service-Fits id now _ m (λ h. unfold marked_available in refl) a
step-Fits (now, failed id) m a =
    update_service-Fits id now _ m
      (λ h.
        unfold marked_unavailable in
        state_from_circuit-fits (Circuit.record_failure now now h.circuit))
      a
step-Fits (now, asked id) m a = should_allow_request-Fits id now m a
step-Fits (now, configured config) m a =
    add_endpoints-Fits config.endpoints _ (with_limits-Fits config m.services a)

run-Fits :
    (cs : List (ℕ × Event)) (m : ServiceCoordinatorAgent)
    → AllValues Fits m.services
    → AllValues Fits (run cs m).services
unfolding run
run-Fits [] m a = a
run-Fits (c ∷ cs) m a = run-Fits cs (step c m) (step-Fits c m a)

spawned-Fits : (config : ServiceCoordinatorConfig) → AllValues Fits (spawned config).services
unfolding spawned
spawned-Fits config = go config.endpoints
  where
    go :
        (es : List (ServiceId × String))
        → AllValues Fits (map (λ e. (e.0, with_limits config (health_new e.0 e.1))) es)
    go [] = tt
    go (e ∷ es) = (refl, go es)

healthy_circuit :
    (now : ℕ) (h : ServiceHealth)
    → Fits h
    → ite (ServiceState-discrete h.state healthy) true false ≡ true
    → (Circuit.should_allow now h.circuit).1 ≡ true
unfolding Circuit.should_allow
healthy_circuit now h f e = ground arith

-- Whatever was reported to a coordinator since it was spawned: a service that it calls healthy
-- has a circuit that lets requests through.
pub healthy_allowed :
    (config : ServiceCoordinatorConfig) (cs : List (ℕ × Event)) (id : ServiceId) (now : ℕ)
    → is_healthy id (run cs (spawned config)) ≡ true
    → (should_allow_request id now (run cs (spawned config))).1 ≡ true
unfolding is_healthy should_allow_request
healthy_allowed config cs id now e =
    let m = run cs (spawned config) in
    elim (Option-cases (Dict.lookup ServiceId-discrete id m.services)) [
      | inl absent ↦ absurd (ground arith)
      | inr (h, present) ↦
          let fit =
            Dict.AllValues-lookup ServiceId-discrete Fits id h m.services
              (run-Fits cs (spawned config) (spawned-Fits config)) present in
          rw (present, should_allow_request) (healthy_circuit now h fit (ground arith))
    ]
