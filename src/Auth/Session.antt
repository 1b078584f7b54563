-- ===== src/Auth/Session.antt =====
-- acton-dx/src/htmx/auth/session.rs: session data. The JSON values are a parameter `J`, with
-- serde's conversions as arguments. Each reading of the clock is an argument.
use acton_dx.Prelude.{
  ℕ, Bool, true, false, Option, none, some, List, [], String, string_discrete, ltb, if◌then◌else◌,
  Result, ok, err,
}
use acton_dx.Prelude.Dict
use acton_dx.Prelude.Time.{ℤ, shift, hours_24}

-- A UUID in its text form.
abbrev pub SessionId : Type 0
SessionId = String

pub data SessionError : Type 0 where
  invalid_session_id not_found expired : SessionError
  serialization agent : String → SessionError

-- `parses` is `Uuid::parse_str(&s).is_ok()`.
unfoldable pub try_from_string : (String → Bool) → String → Result SessionId SessionError
try_from_string parses s = if parses s then ok s else err invalid_session_id

pub data FlashLevel : Type 0 where
  success info warning error : FlashLevel

unfoldable pub level_css_class : FlashLevel → String
level_css_class success = "flash-success"
level_css_class info = "flash-info"
level_css_class warning = "flash-warning"
level_css_class error = "flash-error"

pub record FlashMessage : Type 0 where
  pub level : FlashLevel
  pub message : String
  pub title : Option String

-- `FlashMessage::success`, `info`, `warning` and `error`
abbrev pub flash : FlashLevel → String → FlashMessage
flash level message = record { level = level; message = message; title = none }

abbrev pub with_title : String → FlashMessage → FlashMessage
with_title title f = record f { title = some title }

pub record SessionData (J : Type 0) : Type 0 where
  pub created_at : ℕ
  pub last_accessed : ℕ
  pub expires_at : ℕ
  pub user_id : Option ℤ
  pub user_name : Option String
  pub entries : List (String × J)
  pub flash_messages : List FlashMessage

module _ {J : Type 0} where
  unfoldable pub with_expiration : ℕ → ℤ → SessionData J
  with_expiration now duration = record {
    created_at = now;
    last_accessed = now;
    expires_at = shift now duration;
    user_id = none;
    user_name = none;
    entries = [];
    flash_messages = [];
  }

  unfoldable pub new : ℕ → SessionData J
  new now = record {
    created_at = now;
    last_accessed = now;
    expires_at = shift now hours_24;
    user_id = none;
    user_name = none;
    entries = [];
    flash_messages = [];
  }

  unfoldable pub is_expired : ℕ → SessionData J → Bool
  is_expired now s = ltb s.expires_at now

  unfoldable pub touch : ℕ → ℤ → SessionData J → SessionData J
  touch now extend_by s = record s { last_accessed = now; expires_at = shift now extend_by }

  -- The clock is read by `is_expired` and again by `touch`.
  unfoldable pub validate_and_touch : ℕ → ℕ → ℤ → SessionData J → SessionData J × Bool
  unfolding is_expired touch
  validate_and_touch now later extend_by s =
      if is_expired now s then (s, false) else (touch later extend_by s, true)

  -- `from_value` is serde's, with its error dropped by `ok()`.
  unfoldable pub get : {T : Type 0} → (J → Option T) → String → SessionData J → Option T
  get from_value key s = elim (Dict.lookup string_discrete key s.entries) [
    | none ↦ none
    | some v ↦ from_value v
  ]

  unfoldable pub set :
      {T : Type 0}
      → (T → Result J String)
      → String
      → T
      → SessionData J
      → SessionData J × Result (Unit {0}) SessionError
  set to_value key value s = elim (to_value value) [
    | err e ↦ (s, err (serialization e))
    | ok v ↦ (record s { entries = Dict.insert string_discrete key v s.entries }, ok tt)
  ]

  unfoldable pub remove : String → SessionData J → SessionData J × Option J
  remove key s = (
    record s { entries = Dict.remove string_discrete key s.entries },
    Dict.lookup string_discrete key s.entries,
  )

  unfoldable pub clear : SessionData J → SessionData J
  clear s = record s { entries = []; flash_messages = []; user_id = none }
