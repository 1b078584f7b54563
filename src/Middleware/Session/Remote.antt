-- ===== src/Middleware/Session/Remote.antt =====
-- acton-dx/src/htmx/middleware/session.rs, the part for microservices: the session of a request is kept by
-- the service of Services/Sessions. The conversions of serde_json are parameters.
pub mod Absence
pub mod Ids
mod Tests
use acton_dx.Prelude.{
  ℕ, ◌^◌, Bool, true, false, Option, none, some, List, [], ◌∷◌, String, string_discrete, ltb,
  if◌then◌else◌, Result, ok, err,
}
use acton_dx.Prelude.Dict
use acton_dx.Prelude.Text.{Text}
use acton_dx.Prelude.Time.{ℤ, pos}
use acton_dx.Auth.Session.{SessionId, SessionError, SessionData, set, try_from_string}
use acton_dx.Auth.Session as Session
use acton_dx.Services.Sessions.{SessionManagerAgent, Message, run}
use acton_dx.Services.Sessions.Service.{
  Status, arrives, ProtoSession, create_session, validate_session, update_session,
}
use acton_dx.Middleware.Session.{
  SessionConfig, Response, extract_session_id, set_session_cookie, final_session_data,
}

-- A call of the service: its answer comes in time, or it acts and the answer does not come, or nothing
-- reaches it.
pub data Call : Type 0 where
  answered unanswered undelivered : Call

-- What serde_json does with a value `J`.
pub record Json (J : Type 0) : Type 0 where
  pub to_value : String → Result J String
  pub as_str : J → Option String
  pub to_string : J → Option String

-- What is not in the request: whether there is an auth service, what becomes of the calls, the clock of the
-- service and that of the application, and the ids and tokens that each would generate.
pub record Circumstances : Type 0 where
  pub configured : Bool
  pub validating : Call
  pub creating : Call
  pub saving : Call
  pub now : ℕ
  pub local_now : ℕ
  pub service_id : String
  pub service_csrf : String
  pub generated : SessionId

module _ {J : Type 0} where
  -- A value that is refused is left out.
  abbrev with_value : Json J → String → String → SessionData J → SessionData J
  with_value json key value s = (set json.to_value key value s).0

  -- The loop over the data of the service.
  unfoldable pub set_all : Json J → List (String × String) → SessionData J → SessionData J
  set_all json [] s = s
  set_all json ((key, value) ∷ entries) s = set_all json entries (with_value json key value s)

  abbrev with_email : Json J → Option String → SessionData J → SessionData J
  with_email json none s = s
  with_email json (some email) s = with_value json "user_email" email s

  unfoldable pub proto_session_to_session_data : Json J → ℕ → ProtoSession → SessionData J
  proto_session_to_session_data json now proto =
      let s = record (Session.new now) { user_id = proto.user_id; user_name = proto.user_name } in
      set_all json proto.entries (with_email json proto.user_email s)

  -- The loop over the data of the session.
  unfoldable pub texts :
      Json J → List (String × J) → List (String × String) → List (String × String)
  texts json [] m = m
  texts json ((key, value) ∷ entries) m = elim (json.as_str value) [
    | some s ↦ texts json entries (Dict.insert string_discrete key s m)
    | none ↦ elim (json.to_string value) [
      | some s ↦ texts json entries (Dict.insert string_discrete key s m)
      | none ↦ texts json entries m
    ]
  ]

  unfoldable pub session_data_to_hashmap : Json J → SessionData J → List (String × String)
  session_data_to_hashmap json s = elim s.user_name [
    | none ↦ texts json s.entries []
    | some name ↦ texts json s.entries (("user_name", name) ∷ [])
  ]

-- `SessionId::from_str(..).unwrap_or_else(generate)`
unfoldable pub id_or : (String → Bool) → SessionId → String → SessionId
id_or parses generated id = elim (try_from_string parses id) [ ok i ↦ i | err e ↦ generated ]

-- The session that a call of `validate_session` gives.
unfoldable pub validated : Call → ℕ → Option SessionId → SessionManagerAgent → Option ProtoSession
validated answered now (some id) m = elim (validate_session arrives now id m) [
  | ok session ↦ session
  | err e ↦ none
]
validated answered now none m = none
validated unanswered now existing m = none
validated undelivered now existing m = none

-- `i64::try_from(..).unwrap_or(86400)`
unfoldable pub ttl_of : ℕ → ℤ
ttl_of max_age_secs = if ltb max_age_secs (2 ^ 63) then pos max_age_secs else pos 86_400

-- What becomes of the call of `update_session`; its answer is not used.
unfoldable pub saved_by : Call → SessionManagerAgent → SessionManagerAgent → SessionManagerAgent
saved_by answered m m' = m'
saved_by unanswered m m' = m'
saved_by undelivered m m' = m

module _ {J : Type 0} where
  -- What becomes of the call of `create_session`.
  unfoldable pub created_by :
      (String → Bool)
      → Json J
      → Circumstances
      → Call
      → SessionManagerAgent
      → SessionManagerAgent × Result ProtoSession Status
      → SessionManagerAgent × Option (SessionId × SessionData J × Bool)
  created_by parses json k undelivered m (m', reply) = (m, none)
  created_by parses json k unanswered m (m', reply) = (m', none)
  created_by parses json k answered m (m', err e) = (m', none)
  created_by parses json k answered m (m', ok proto) = (
    m',
    some (
      id_or parses k.generated proto.session_id,
      proto_session_to_session_data json k.local_now proto,
      true,
    ),
  )

  unfoldable pub created :
      (String → Bool)
      → Json J
      → Circumstances
      → (ttl_seconds : ℤ) → SessionManagerAgent
      → SessionManagerAgent × Option (SessionId × SessionData J × Bool)
  created parses json k ttl_seconds m =
      created_by parses json k k.creating m
        (create_session arrives k.now k.service_id k.service_csrf ttl_seconds none m)

  -- `load_or_create_session_via_service`; `none` is its error.
  unfoldable pub load_or_create :
      (String → Bool)
      → Json J
      → Circumstances
      → Option SessionId
      → (ttl_seconds : ℤ) → SessionManagerAgent
      → SessionManagerAgent × Option (SessionId × SessionData J × Bool)
  load_or_create parses json k existing ttl_seconds m =
      let resumed = validated k.validating k.now existing m in
      if k.configured
      then elim existing [
        | none ↦ created parses json k ttl_seconds m
        | some id ↦ elim resumed [
          | some proto ↦ (m, some (id, proto_session_to_session_data json k.local_now proto, false))
          | none ↦ created parses json k ttl_seconds m
        ]
      ]
      else (m, none)

  -- `save_session_via_service`
  unfoldable pub save :
      Json J → Circumstances → SessionId → SessionData J → SessionManagerAgent → SessionManagerAgent
  save json k id s m =
      let m' = (update_session arrives id (session_data_to_hashmap json s) s.user_id m).0 in
      if k.configured then saved_by k.saving m m' else m

  -- The fallback to a local session.
  abbrev pub or_local :
      Circumstances → Option (SessionId × SessionData J × Bool) → SessionId × SessionData J × Bool
  or_local k none = (k.generated, Session.new k.local_now, true)
  or_local k (some s) = s

-- The next service: the messages that the service of sessions gets while it runs, and its answer.
abbrev pub Inner : Type 0 → Type 0 → Type 0 → Type 0
Inner J B E = SessionId → SessionData J → List (ℕ × Message) × Result (Response J B) E

module _ {J B E : Type 0} where
  -- What follows the answer of the next service.
  unfoldable pub finish :
      (Text → Bool)
      → Json J
      → SessionConfig
      → Circumstances
      → SessionId × SessionData J × Bool
      → SessionManagerAgent
      → Result (Response J B) E
      → SessionManagerAgent × Result (Response J B) E
  finish is_header_value json c k s m (err e) = (m, err e)
  finish is_header_value json c k (id, loaded, is_new) m (ok response) =
      let answer = if is_new then set_session_cookie is_header_value c id response else response in
      (save json k id (final_session_data response loaded) m, ok answer)

  -- `MicroservicesSessionMiddleware::call`
  unfoldable pub call :
      (String → Bool)
      → (Text → Bool)
      → Json J
      → SessionConfig
      → Circumstances
      → Option (Option Text)
      → Inner J B E
      → SessionManagerAgent
      → SessionManagerAgent × Result (Response J B) E
  call parses is_header_value json c k cookies inner m =
      let existing = extract_session_id parses cookies c.cookie_name in
      let (m', loaded) = load_or_create parses json k existing (ttl_of c.max_age_secs) m in
      let s = or_local k loaded in
      let (others, answer) = inner s.0 s.1 in
      finish is_header_value json c k s (run others m') answer
