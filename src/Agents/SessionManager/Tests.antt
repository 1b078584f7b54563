-- ===== src/Agents/SessionManager/Tests.antt =====
-- The session manager on concrete sessions, with numbers for the JSON values.
use acton_dx.Prelude.{
  ◌+◌, ◌*◌, ℕ, ◌≡◌, ◌<◌, refl, none, some, List, [], ◌∷◌, string_discrete, arith,
}
use acton_dx.Prelude.Dict
use acton_dx.Prelude.Time.{pos, second}
use acton_dx.Auth.Session.{SessionData, with_expiration}
use acton_dx.Agents.SessionManager.{
  Message, save_session, empty, save, cleanup_expired, step, run, push, pop_due, remove_all,
}
use acton_dx.Agents.SessionManager.Expiry.{cleanup_leaves_fresh, cleanup_drops_renewed}

-- Created at `t`, for an hour.
abbrev session : ℕ → SessionData ℕ
session t = record {
  created_at = t;
  last_accessed = t;
  expires_at = t + 3_600 * second;
  user_id = none;
  user_name = none;
  entries = [];
  flash_messages = [];
}

session_made : (with_expiration 0 (pos (3_600 * second))) ≡ session 0
unfolding with_expiration
session_made = refl

abbrev saved : List (ℕ × Message ℕ)
saved = (0, save_session "s" (session 0)) ∷ []

saved_is_there : Dict.lookup string_discrete "s" (run saved empty).sessions ≡ some (session 0)
unfolding run step save empty Dict.lookup Dict.insert string_discrete
saved_is_there = refl

still_there :
    Dict.lookup string_discrete "s" (cleanup_expired 7 (run saved empty)).sessions
    ≡ some (session 0)
unfolding cleanup_expired run step save empty Dict.lookup Dict.insert Dict.remove string_discrete
    push pop_due remove_all
still_there = refl

cleanup_leaves_fresh_example :
    (Dict.lookup string_discrete "s" (run saved empty).sessions ≡ some (session 0))
    × (7 < 3_600 * second)
cleanup_leaves_fresh_example = cleanup_leaves_fresh saved 7 "s" (session 0) still_there

-- The session is saved again at its next request, half an hour later, and is gone after the hour.
cleanup_drops_renewed_example :
    Dict.lookup string_discrete "s"
      (cleanup_expired
        (3_600 * second)
        (save "s" (session (1_800 * second)) (run saved empty))).sessions
    ≡ none
cleanup_drops_renewed_example =
    cleanup_drops_renewed saved (3_600 * second) "s" (session 0) (session (1_800 * second))
      saved_is_there (omega arith)
