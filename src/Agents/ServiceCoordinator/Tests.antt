-- ===== src/Agents/ServiceCoordinator/Tests.antt =====
-- A coordinator of two services.
use acton_dx.Prelude.{String, ℕ, ◌≡◌, refl, true, some, List, [], ◌∷◌}
use acton_dx.Prelude.Dict
use acton_dx.Agents.ServiceCoordinator.{
  ServiceId, auth, cache, ServiceCoordinatorConfig, ServiceId-discrete, ServiceState-discrete,
  spawned, health_new, update_config, is_healthy, should_allow_request, health_check_result,
}
use acton_dx.Agents.ServiceCoordinator.Health.{Event, checked, run, step, healthy_allowed}

abbrev config : List (ServiceId × String) → ServiceCoordinatorConfig
config endpoints = record {
  health_check_interval = 30;
  failure_threshold = 2;
  recovery_timeout = 10;
  endpoints = endpoints;
  enabled = true;
}

abbrev auth_only : ServiceCoordinatorConfig
auth_only = config ((auth, "a") ∷ [])

abbrev with_cache : ServiceCoordinatorConfig
with_cache = config ((auth, "a") ∷ (cache, "c") ∷ [])

abbrev history : List (ℕ × Event)
history = (5, checked auth true (some 3)) ∷ []

auth_healthy : is_healthy auth (run history (spawned auth_only)) ≡ true
unfolding is_healthy run step spawned health_check_result Dict.lookup Dict.insert ServiceId-discrete
    ServiceState-discrete
auth_healthy = refl

healthy_allowed_example : (should_allow_request auth 9 (run history (spawned auth_only))).1 ≡ true
healthy_allowed_example = healthy_allowed auth_only history auth 9 auth_healthy

cache_added :
    Dict.lookup ServiceId-discrete cache (update_config with_cache (spawned auth_only)).services
    ≡ some (health_new cache "c")
unfolding update_config spawned Dict.lookup Dict.insert ServiceId-discrete
cache_added = refl
