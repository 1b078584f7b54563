-- ===== src/Middleware/Session.antt =====
-- acton-dx/src/htmx/middleware/session.rs: the session of a request, loaded from the manager of
-- Agents/SessionManager and saved to it. The layer for microservices is in Remote.
pub mod Cookies
pub mod Others
pub mod Continuity
pub mod Flashes
pub mod Remote
mod Tests
use acton_dx.Prelude.{
  ℕ, Bool, true, false, not, Option, none, some, List, [], ◌∷◌, ◌++◌, if◌then◌else◌, Result, ok,
  err, String,
}
use acton_dx.Prelude.Text.{Text, codes, text_eq, split_once, show}
use acton_dx.Prelude.Parts.{trim, split}
use acton_dx.Prelude.Strings.{to_string}
use acton_dx.Auth.Session.{SessionId, SessionData, SessionError, try_from_string}
use acton_dx.Auth.Session as Session
use acton_dx.Agents.SessionManager.{SessionManagerAgent, Message, load, save, run}

pub data SameSite : Type 0 where
  strict lax unrestricted : SameSite

unfoldable pub as_str : SameSite → Text
as_str strict = codes "Strict"
as_str lax = codes "Lax"
as_str unrestricted = codes "None"

pub record SessionConfig : Type 0 where
  pub cookie_name : Text
  pub cookie_path : Text
  pub http_only : Bool
  pub secure : Bool
  pub same_site : SameSite
  pub max_age_secs : ℕ
  pub agent_timeout_ms : ℕ

-- `SESSION_COOKIE_NAME`
abbrev pub session_cookie_name : Text
session_cookie_name = codes "acton_session"

-- `debug_assertions` is that flag of the build.
unfoldable pub default : (debug_assertions : Bool) → SessionConfig
default debug_assertions = record {
  cookie_name = session_cookie_name;
  cookie_path = codes "/";
  http_only = true;
  secure = not debug_assertions;
  same_site = lax;
  max_age_secs = 86_400;
  agent_timeout_ms = 100;
}

-- `Result::ok`
abbrev to_option : Result SessionId SessionError → Option SessionId
to_option (ok id) = some id
to_option (err e) = none

-- One cookie of a header, and what the others give; `parses` tells which texts are UUIDs.
unfoldable pub session_id_or : (String → Bool) → Text → Text → Option SessionId → Option SessionId
session_id_or parses cookie_name cookie others = elim (split_once b'=' (trim cookie)) [
  | none ↦ others
  | some (name, value) ↦
      if text_eq (trim name) cookie_name
      then to_option (try_from_string parses (to_string (trim value)))
      else others
]

-- The loop over the cookies of a header.
unfoldable pub find_session_id : (String → Bool) → Text → List Text → Option SessionId
find_session_id parses cookie_name [] = none
find_session_id parses cookie_name (cookie ∷ cookies) =
    session_id_or parses cookie_name cookie (find_session_id parses cookie_name cookies)

-- The header `Cookie` is absent, or a value that may not be visible ASCII.
unfoldable pub extract_session_id : (String → Bool) → Option (Option Text) → Text → Option SessionId
extract_session_id parses none cookie_name = none
extract_session_id parses (some none) cookie_name = none
extract_session_id parses (some (some cookies)) cookie_name =
    find_session_id parses cookie_name (split b';' cookies)

abbrev when : Bool → Text → Text
when b s = if b then s else []

-- The attributes of the cookie, each behind a space.
unfoldable pub attributes : SessionConfig → Text
attributes c =
    codes " Path="
    ++ c.cookie_path
    ++ codes "; Max-Age="
    ++ show c.max_age_secs
    ++ codes "; SameSite="
    ++ as_str c.same_site
    ++ when c.http_only (codes "; HttpOnly")
    ++ when c.secure (codes "; Secure")

-- The value that `set_session_cookie` writes.
unfoldable pub cookie_value : SessionConfig → SessionId → Text
cookie_value c id = c.cookie_name ++ b'=' ∷ (codes id ++ b';' ∷ attributes c)

-- What is read or changed of a response: the session that the handler puts into the extensions, and
-- the headers `Set-Cookie`.
pub record Response (J B : Type 0) : Type 0 where
  pub session : Option (SessionData J)
  pub set_cookie : List Text
  pub body : B

-- What is not in the request: whether the manager answers in time, the readings of the clock, and the
-- id that `SessionId::generate` would give.
pub record Circumstances : Type 0 where
  pub in_time : Bool
  pub now : ℕ
  pub later : ℕ
  pub created : ℕ
  pub generated : SessionId

-- The next service: the messages that the manager gets while it runs, from it or from others, and its
-- answer.
abbrev pub Inner : Type 0 → Type 0 → Type 0 → Type 0
Inner J B E = SessionId → SessionData J → List (ℕ × Message J) × Result (Response J B) E

module _ {J : Type 0} where
  -- The session of a request, and whether it is new.
  unfoldable pub load_or_create :
      Circumstances → Option SessionId → SessionManagerAgent J → SessionId × SessionData J × Bool
  load_or_create k none m = (k.generated, Session.new k.created, true)
  load_or_create k (some id) m =
      let loaded = if k.in_time then load k.now k.later id m else none in
      elim loaded [ some s ↦ (id, s, false) | none ↦ (k.generated, Session.new k.created, true) ]

module _ {J B : Type 0} where
  -- `is_header_value` tells which texts parse as the value of a header.
  unfoldable pub set_session_cookie :
      (Text → Bool) → SessionConfig → SessionId → Response J B → Response J B
  set_session_cookie is_header_value c id response =
      if is_header_value (cookie_value c id)
      then record response { set_cookie = response.set_cookie ++ cookie_value c id ∷ [] }
      else response

  -- The session that is saved.
  unfoldable pub final_session_data : Response J B → SessionData J → SessionData J
  final_session_data response loaded = elim response.session [ none ↦ loaded | some s ↦ s ]

module _ {J B E : Type 0} where
  -- What follows the answer of the next service.
  unfoldable pub finish :
      (Text → Bool)
      → SessionConfig
      → SessionId × SessionData J × Bool
      → SessionManagerAgent J
      → Result (Response J B) E
      → SessionManagerAgent J × Result (Response J B) E
  finish is_header_value c s m (err e) = (m, err e)
  finish is_header_value c (id, loaded, is_new) m (ok response) =
      let final = final_session_data response loaded in
      let answer = if is_new then set_session_cookie is_header_value c id response else response in
      (save id final m, ok answer)

  -- `SessionMiddleware::call`
  unfoldable pub call :
      (String → Bool)
      → (Text → Bool)
      → SessionConfig
      → Circumstances
      → Option (Option Text)
      → Inner J B E
      → SessionManagerAgent J
      → SessionManagerAgent J × Result (Response J B) E
  call parses is_header_value c k cookies inner m =
      let existing = extract_session_id parses cookies c.cookie_name in
      let s = load_or_create k existing m in
      let (others, answer) = inner s.0 s.1 in finish is_header_value c s (run others m) answer
