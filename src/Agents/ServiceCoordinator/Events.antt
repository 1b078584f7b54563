-- ===== src/Agents/ServiceCoordinator/Events.antt =====
-- The events that are broadcast.
use acton_dx.Prelude.{ℕ, ◌≡◌, inl, inr, ◌↔◌, Bool, Option, none, ite, arith, Option-cases}
use acton_dx.Prelude.Dict
use acton_dx.Prelude.Dict.{option_map}
use acton_dx.Agents.ServiceCoordinator.{
  ServiceId, ServiceState, ServiceHealth, ServiceStatusEvent, ServiceCoordinatorAgent,
  ServiceId-discrete, update_service, health_check_result, service_available, service_unavailable,
  maybe_broadcast, marked_available, marked_unavailable,
}

abbrev pub state_of : ServiceId → ServiceCoordinatorAgent → Option ServiceState
state_of id m =
    option_map (λ (h : ServiceHealth). h.state) (Dict.lookup ServiceId-discrete id m.services)

-- `r` is what became of `m`: it has an event exactly when the state of the service changed, and
-- the states of the other services are those of `m`.
abbrev pub Announces :
    ServiceId
    → ServiceCoordinatorAgent
    → ServiceCoordinatorAgent × Option ServiceStatusEvent
    → Type 0
Announces id m r =
    ((r.1 ≡ none) ↔ (state_of id r.0 ≡ state_of id m))
    × ((j : ServiceId)
        → ite (ServiceId-discrete id j) none (state_of j r.0)
          ≡ ite (ServiceId-discrete id j) none (state_of j m))

update_service-Announces :
    (id : ServiceId) (now : ℕ) (f : ServiceHealth → ServiceHealth) (m : ServiceCoordinatorAgent)
    → Announces id m (update_service id now f m)
unfolding update_service maybe_broadcast
update_service-Announces id now f m =
    elim (Option-cases (Dict.lookup ServiceId-discrete id m.services)) [
      | inl absent ↦ ((λ e. ground arith, λ e. ground arith), λ j. ground arith)
      | inr (h, present) ↦
          let stored =
            λ (j : ServiceId). Dict.lookup-insert ServiceId-discrete j id (f h) m.services in
          (
            (λ e. ground (arith, stored id), λ e. ground (arith, stored id)),
            λ j. ground (arith, stored j),
          )
    ]

-- A report of a health check, a success or a failure changes the state of no service but its own,
-- and broadcasts an event exactly when that one changes.
reports-Announces :
    (id : ServiceId) (ok : Bool) (rt : Option ℕ) (now : ℕ) (m : ServiceCoordinatorAgent)
    → Announces id m (health_check_result id ok rt now m)
      × Announces id m (service_available id now m)
      × Announces id m (service_unavailable id now m)
unfolding health_check_result service_available service_unavailable
reports-Announces id ok rt now m = (
  update_service-Announces id now _ _,
  update_service-Announces id now (marked_available now) m,
  update_service-Announces id now (marked_unavailable now) m,
)
