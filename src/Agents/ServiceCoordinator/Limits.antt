-- ===== src/Agents/ServiceCoordinator/Limits.antt =====
-- The limits of the circuits after a change of the configuration.
use acton_dx.Prelude.{
  ◌≡◌, refl, ap, ◌∙◌, inl, inr, none, some, List, [], ◌∷◌, String, map, arith, Option-cases,
}
use acton_dx.Prelude.Dict
use acton_dx.Prelude.Dict.{option_map}
use acton_dx.Agents.ServiceCoordinator.{
  ServiceId, ServiceHealth, ServiceCoordinatorConfig, ServiceCoordinatorAgent, ServiceId-discrete,
  health_new, with_limits, add_endpoints, update_config, default_failure_threshold,
}

lookup-with_limits :
    (config : ServiceCoordinatorConfig) (id : ServiceId)
    (services : List (ServiceId × ServiceHealth))
    → Dict.lookup ServiceId-discrete id (map (λ e. (e.0, with_limits config e.1)) services)
      ≡ option_map (with_limits config) (Dict.lookup ServiceId-discrete id services)
unfolding Dict.lookup
lookup-with_limits config id [] = refl
lookup-with_limits config id ((j, h) ∷ services) =
    ground (arith, lookup-with_limits config id services)

add_endpoints_keeps :
    (id : ServiceId) (h : ServiceHealth) (es : List (ServiceId × String))
    (services : List (ServiceId × ServiceHealth))
    → Dict.lookup ServiceId-discrete id services ≡ some h
    → Dict.lookup ServiceId-discrete id (add_endpoints es services) ≡ some h
unfolding add_endpoints
add_endpoints_keeps id h [] services e = e
add_endpoints_keeps id h ((j, endpoint) ∷ es) services e =
    elim (Option-cases (Dict.lookup ServiceId-discrete j services)) [
      | inl absent ↦ rw absent (
          add_endpoints_keeps id h es _ (
            ground
              (arith, Dict.lookup-insert ServiceId-discrete id j (health_new j endpoint) services)))
      | inr (other, present) ↦ rw present (add_endpoints_keeps id h es services e)
    ]

-- What `add_endpoints` finds for a service, or makes for it.
add_endpoints_makes :
    (id : ServiceId) (h : ServiceHealth) (es : List (ServiceId × String))
    (services : List (ServiceId × ServiceHealth))
    → Dict.lookup ServiceId-discrete id services ≡ none
    → Dict.lookup ServiceId-discrete id (add_endpoints es services) ≡ some h
    → h.circuit.failure_threshold ≡ default_failure_threshold
unfolding add_endpoints health_new
add_endpoints_makes id h [] services e found = cc
add_endpoints_makes id h ((j, endpoint) ∷ es) services e found =
    elim (Option-cases (Dict.lookup ServiceId-discrete j services)) [
      | inl absent ↦
          let services' = Dict.insert ServiceId-discrete j (health_new j endpoint) services in
          let inserted =
            Dict.lookup-insert ServiceId-discrete id j (health_new j endpoint) services in
          let found' : Dict.lookup ServiceId-discrete id (add_endpoints es services') ≡ some h =
            (rw absent at found) in
          elim (ServiceId-discrete j id) [
            | yes same ↦
                ground (
                  arith,
                  add_endpoints_keeps id (health_new j endpoint) es services' (ground arith),
                )
            | no other ↦ add_endpoints_makes id h es services' (ground arith) found'
          ]
      | inr (other, present) ↦ add_endpoints_makes id h es services e (rw present at found)
    ]

-- A new configuration sets the failure threshold of the circuits that are there, but a service
-- that it adds starts with the default threshold of five.
update_config_limits :
    (config : ServiceCoordinatorConfig) (id : ServiceId) (h : ServiceHealth)
    (m : ServiceCoordinatorAgent)
    → Dict.lookup ServiceId-discrete id (update_config config m).services ≡ some h
    → h.circuit.failure_threshold ≡ elim (Dict.lookup ServiceId-discrete id m.services) [
      | none ↦ default_failure_threshold
      | some _ ↦ config.failure_threshold
    ]
unfolding update_config
update_config_limits config id h m e =
    let limited : List (ServiceId × ServiceHealth) =
      map (λ e. (e.0, with_limits config e.1)) m.services in
    elim (Option-cases (Dict.lookup ServiceId-discrete id m.services)) [
      | inl absent ↦ rw absent (
          add_endpoints_makes id h config.endpoints limited
            (lookup-with_limits config id m.services ∙ ap (option_map (with_limits config)) absent)
            e)
      | inr (old, present) ↦
          let kept : Dict.lookup ServiceId-discrete id (add_endpoints config.endpoints limited)
              ≡ some (with_limits config old) =
            add_endpoints_keeps id (with_limits config old) config.endpoints limited (
              lookup-with_limits config id m.services
              ∙ ap (option_map (with_limits config)) present) in
          rw present (ground arith)
    ]
