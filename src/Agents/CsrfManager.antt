-- ===== src/Agents/CsrfManager.antt =====
-- acton-dx/src/htmx/agents/csrf_manager.rs: one CSRF token per session. The random tokens are
-- arguments (`fresh`), and so is each reading of the clock.
pub mod SingleUse
pub mod Cleanup
mod Tests
use acton_dx.Prelude.{
  ℕ, ◌≡◌, ite, Bool, true, false, not, ◌&&◌, Option, none, some, List, [], ◌∷◌, String,
  string_discrete, ltb, if◌then◌else◌, is_some,
}
use acton_dx.Prelude.Dict
use acton_dx.Prelude.Dict.{option_filter}
use acton_dx.Prelude.Time.{shift, hours_24}
use acton_dx.Auth.Session.{SessionId}

-- Base64 text of 32 random bytes.
abbrev pub CsrfToken : Type 0
CsrfToken = String

pub record CsrfTokenData : Type 0 where
  pub token : CsrfToken
  pub expires_at : ℕ

-- `CsrfTokenData::new` at a reading of the clock.
unfoldable pub token_data : ℕ → CsrfToken → CsrfTokenData
token_data now token = record { token = token; expires_at = shift now hours_24 }

unfoldable pub is_expired : ℕ → CsrfTokenData → Bool
is_expired now d = ltb d.expires_at now

pub record CsrfManagerAgent : Type 0 where
  pub tokens : List (SessionId × CsrfTokenData)

unfoldable pub empty : CsrfManagerAgent
empty = record { tokens = [] }

-- A new token for a session, made at `later`.
abbrev pub store : ℕ → CsrfToken → SessionId → CsrfManagerAgent → CsrfManagerAgent
store later fresh id m = record {
  tokens = Dict.insert string_discrete id (token_data later fresh) m.tokens;
}

-- `get_or_create_token_internal`
unfoldable pub get_or_create_token :
    ℕ → ℕ → CsrfToken → SessionId → CsrfManagerAgent → CsrfManagerAgent × CsrfToken
unfolding is_expired token_data
get_or_create_token now later fresh id m = elim (Dict.lookup string_discrete id m.tokens) [
  | none ↦ (store later fresh id m, fresh)
  | some d ↦ if is_expired now d then (store later fresh id m, fresh) else (m, d.token)
]

-- The test of `validate_and_rotate_token`.
unfoldable pub is_valid_token : ℕ → SessionId → CsrfToken → CsrfManagerAgent → Bool
unfolding is_expired
is_valid_token now id token m = is_some (
    option_filter (λ d. not (is_expired now d) && ite (string_discrete d.token token) true false)
      (Dict.lookup string_discrete id m.tokens))

unfoldable pub validate_and_rotate_token :
    ℕ → ℕ → CsrfToken → SessionId → CsrfToken → CsrfManagerAgent → CsrfManagerAgent × Bool
unfolding is_valid_token token_data
validate_and_rotate_token now later fresh id token m =
    let valid = is_valid_token now id token m in
    (if valid then store later fresh id m else m, valid)

-- `DeleteToken`
unfoldable pub delete_token : SessionId → CsrfManagerAgent → CsrfManagerAgent
delete_token id m = record { tokens = Dict.remove string_discrete id m.tokens }

-- `CleanupExpired`; the clock is read once for all entries.
unfoldable pub cleanup_expired : ℕ → CsrfManagerAgent → CsrfManagerAgent
unfolding is_expired
cleanup_expired now m = record {
  tokens = Dict.retain string_discrete (λ d. not (is_expired now d)) m.tokens;
}

-- The messages, each with the token that is generated if one is.
pub data Message : Type 0 where
  get_or_create : SessionId → CsrfToken → Message
  validate : SessionId → CsrfToken → CsrfToken → Message
  delete : SessionId → Message
  cleanup : Message

-- One message, with the two readings of the clock.
unfoldable pub step : ℕ × ℕ × Message → CsrfManagerAgent → CsrfManagerAgent
step (now, later, get_or_create id fresh) m = (get_or_create_token now later fresh id m).0
step (now, later, validate id token fresh) m =
    (validate_and_rotate_token now later fresh id token m).0
step (now, later, delete id) m = delete_token id m
step (now, later, cleanup) m = cleanup_expired now m

unfoldable pub run : List (ℕ × ℕ × Message) → CsrfManagerAgent → CsrfManagerAgent
run [] m = m
run (c ∷ cs) m = run cs (step c m)
