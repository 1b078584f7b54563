-- ===== src/Services/Sessions/Tests.antt =====
-- A session of an hour.
use acton_dx.Prelude.{◌*◌, ℕ, ◌≡◌, none, List, [], ◌∷◌, ok, true, is_some, arith}
use acton_dx.Prelude.Time.{second}
use acton_dx.Services.Sessions.{Message, cleanup, update_session, create, run, empty}
use acton_dx.Services.Sessions.Service.{arrives, validate_session, map_ok}
use acton_dx.Services.Sessions.Lifetime.{validate_session-create}

-- The theme is set, and expired sessions are cleaned up after an hour.
abbrev later : List (ℕ × Message)
later = (5, update_session "s" (("theme", "dark") ∷ []) none) ∷ (3_600 * second, cleanup) ∷ []

validate_session-create_example :
    map_ok is_some (
      validate_session arrives
        (3_600 * second)
        "s"
        (run later (create 0 "s" "t" 3_600 none (run [] empty)).0))
    ≡ ok true
validate_session-create_example =
    validate_session-create [] later 0 (3_600 * second) "s" "t" 3_600 none
      (omega arith, omega arith) tt (tt, (tt, tt)) (omega arith, (omega arith, tt))
