-- ===== src/Middleware/Csrf.antt =====
-- acton-dx/src/htmx/middleware/csrf.rs: the check of a request by the CSRF manager. The call of the next
-- service is the outcome `passed`; the variant for microservices is left out.
pub mod Once
mod Tests
use acton_dx.Prelude.{
  ℕ, Bool, true, false, ◌&&◌, Option, none, some, List, [], ◌∷◌, ◌++◌, String, string_discrete,
  if◌then◌else◌,
}
use acton_dx.Prelude.Set
use acton_dx.Auth.Session.{SessionId}
use acton_dx.Agents.CsrfManager.{CsrfToken, CsrfManagerAgent, validate_and_rotate_token}

pub record CsrfConfig : Type 0 where
  pub header_name : String
  pub form_field : String
  pub agent_timeout_ms : ℕ
  pub skip_paths : List String

unfoldable pub default : CsrfConfig
default = record {
  header_name = "x-csrf-token";
  form_field = "_csrf_token";
  agent_timeout_ms = 100;
  skip_paths = [];
}

unfoldable pub skip_path : String → CsrfConfig → CsrfConfig
skip_path path c = record c { skip_paths = c.skip_paths ++ path ∷ [] }

pub data Method : Type 0 where
  get head options trace post put delete patch connect : Method
  extension : String → Method

-- What is read of a request. A header is absent, or a value that may not be visible ASCII; the session
-- id is the extension that the session middleware sets.
pub record Request : Type 0 where
  pub method : Method
  pub path : String
  pub session_id : Option SessionId
  pub headers : String → Option (Option String)

pub data Failure : Type 0 where
  no_session token_missing not_validated : Failure

pub data Outcome : Type 0 where
  passed : Outcome
  forbidden : Failure → Outcome

unfoldable pub is_method_safe : Method → Bool
is_method_safe get = true
is_method_safe head = true
is_method_safe options = true
is_method_safe trace = true
is_method_safe _ = false

unfoldable pub extract_csrf_token : Request → CsrfConfig → Option CsrfToken
extract_csrf_token r c = elim (r.headers c.header_name) [
  | none ↦ none
  | some none ↦ none
  | some (some token) ↦ some token
]

-- The answer of the manager to a request with a session and a token; `in_time` tells whether it comes
-- before the timeout.
unfoldable pub validated :
    Bool → ℕ → ℕ → CsrfToken → SessionId → CsrfToken → CsrfManagerAgent → CsrfManagerAgent × Outcome
validated in_time now later fresh id token m =
    let (m', valid) = validate_and_rotate_token now later fresh id token m in
    (m', if in_time && valid then passed else forbidden not_validated)

-- A request that must have a token.
unfoldable pub checked :
    Bool
    → ℕ
    → ℕ
    → CsrfToken
    → Option SessionId
    → Option CsrfToken
    → CsrfManagerAgent
    → CsrfManagerAgent × Outcome
checked in_time now later fresh none token m = (m, forbidden no_session)
checked in_time now later fresh (some id) none m = (m, forbidden token_missing)
checked in_time now later fresh (some id) (some token) m =
    validated in_time now later fresh id token m

-- `CsrfMiddleware::call`
unfoldable pub call :
    CsrfConfig → Bool → ℕ → ℕ → CsrfToken → Request → CsrfManagerAgent → CsrfManagerAgent × Outcome
call c in_time now later fresh r m =
    if is_method_safe r.method
    then (m, passed)
    else if Set.contains string_discrete r.path c.skip_paths
    then (m, passed)
    else checked in_time now later fresh r.session_id (extract_csrf_token r c) m
