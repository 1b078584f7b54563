-- ===== src/Middleware/RateLimit/Tests.antt =====
-- Requests for a log-in, which is on a strict route.
use acton_dx.Prelude.{◌≡◌, refl, true, some, none, [], ◌∷◌, err, arith}
use acton_dx.Prelude.Dict
use acton_dx.Prelude.Text.{codes, strip_prefix}
use acton_dx.Middleware.RateLimit.{
  RateLimitConfig, Store, starts_any, key_and_limit, determine_key_and_limit, exceeded,
}
use acton_dx.Middleware.RateLimit.Windows.{let_through, let_through-window}

abbrev config : RateLimitConfig
config = record {
  enabled = true;
  per_user_rpm = 120;
  per_ip_rpm = 60;
  per_route_rpm = 2;
  window_secs = 60;
  redis_enabled = true;
  strict_routes = codes "/login" ∷ [];
}

login :
    determine_key_and_limit config none (some (codes "::1")) (codes "/login")
    ≡ (codes "ratelimit:route:ip:::1", 2)
unfolding determine_key_and_limit key_and_limit starts_any strip_prefix
login = refl

-- Redis refuses three requests, and two of them pass.
let_through-window_example :
    let_through config
      (codes "k")
      2
      ((1000, some (err (exceeded 2 60000000000)))
        ∷ (1001, some (err (exceeded 2 60000000000)))
        ∷ (1002, none)
        ∷ [])
      []
    ≡ 2
unfolding Dict.lookup
let_through-window_example =
    let_through-window config (codes "k") 2 1000 (some (err (exceeded 2 60000000000)))
      ((1001, some (err (exceeded 2 60000000000))) ∷ (1002, none) ∷ []) [] refl
      (omega arith, omega arith, (omega arith, omega arith, (omega arith, omega arith, tt)))
      (omega arith)

abbrev used : Store
used = (codes "k", record { count = 2; window_start = 0 }) ∷ []
