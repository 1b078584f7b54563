-- ===== src/Services/Sessions/Service.antt =====
-- services/auth-service/src/services/session.rs: the requests of the session service. Each asks the
-- manager, whose reply may come too late or, where the manager stops, not at all.
use acton_dx.Prelude.{
  ℕ, ◌/◌, Bool, Option, none, some, List, String, if◌then◌else◌, Result, ok, err,
}
use acton_dx.Prelude.Time.{ℤ, pos, negsuc, second}
use acton_dx.Services.Sessions.{
  FlashMessage, SessionData, SessionManagerAgent, is_expired, create, load, update, delete,
  add_flash, take_flashes,
}

-- The codes of `Status` that occur.
pub data Status : Type 0 where
  deadline_exceeded internal invalid_argument : Status

-- What becomes of a reply.
pub data Reply : Type 0 where
  arrives late closed : Reply

abbrev pub received : {A : Type 0} → Reply → A → Result A Status
received arrives a = ok a
received late a = err deadline_exceeded
received closed a = err internal

-- A reply that is not sent, since its handler panics.
abbrev pub replied : {A : Type 0} → Reply → Option A → Result A Status
replied reply (some a) = received reply a
replied late none = err deadline_exceeded
replied arrives none = err internal
replied closed none = err internal

pub record ProtoSession : Type 0 where
  pub session_id : String
  pub user_id : Option ℤ
  pub user_email : Option String
  pub user_name : Option String
  pub entries : List (String × String)
  pub csrf_token : String
  pub created_at : ℕ
  pub expires_at : ℕ

-- The times are in whole seconds.
unfoldable pub session_data_to_proto : SessionData → ProtoSession
session_data_to_proto s = record {
  session_id = s.session_id;
  user_id = s.user_id;
  user_email = s.user_email;
  user_name = s.user_name;
  entries = s.entries;
  csrf_token = s.csrf_token;
  created_at = s.created_at / second;
  expires_at = s.expires_at / second;
}

-- `u64::try_from(..).unwrap_or(3600)`
unfoldable pub ttl_or_hour : ℤ → ℕ
ttl_or_hour (pos n) = n
ttl_or_hour (negsuc n) = 3_600

abbrev pub map_ok : {A B E : Type 0} → (A → B) → Result A E → Result B E
map_ok f (ok a) = ok (f a)
map_ok f (err e) = err e

unfoldable pub create_session :
    Reply
    → ℕ
    → (id csrf : String) → (ttl_seconds : ℤ) → Option ℤ
    → SessionManagerAgent
    → SessionManagerAgent × Result ProtoSession Status
create_session reply now id csrf ttl_seconds user_id m =
    let (m', session) = create now id csrf (ttl_or_hour ttl_seconds) user_id m in
    (m', map_ok session_data_to_proto (replied reply session))

-- The session of a valid answer.
unfoldable pub valid_session : ℕ → Option SessionData → Option ProtoSession
valid_session now none = none
valid_session now (some s) = if is_expired now s then none else some (session_data_to_proto s)

unfoldable pub validate_session :
    Reply → ℕ → String → SessionManagerAgent → Result (Option ProtoSession) Status
validate_session reply now id m = map_ok (valid_session now) (received reply (load id m))

abbrev option_proto : Option SessionData → Option ProtoSession
option_proto none = none
option_proto (some s) = some (session_data_to_proto s)

unfoldable pub update_session :
    Reply
    → String
    → List (String × String)
    → Option ℤ
    → SessionManagerAgent
    → SessionManagerAgent × Result (Option ProtoSession) Status
update_session reply id new_entries user_id m =
    let (m', session) = update id new_entries user_id m in
    (m', map_ok option_proto (received reply session))

unfoldable pub destroy_session :
    Reply → String → SessionManagerAgent → SessionManagerAgent × Result Bool Status
destroy_session reply id m = let (m', deleted) = delete id m in (m', received reply deleted)

-- A request may come without a message.
unfoldable pub add_flash_message :
    Reply
    → String
    → Option FlashMessage
    → SessionManagerAgent
    → SessionManagerAgent × Result Bool Status
add_flash_message reply id none m = (m, err invalid_argument)
add_flash_message reply id (some f) m =
    let (m', success) = add_flash id f m in (m', received reply success)

unfoldable pub get_and_clear_flash_messages :
    Reply → String → SessionManagerAgent → SessionManagerAgent × Result (List FlashMessage) Status
get_and_clear_flash_messages reply id m =
    let (m', flashes) = take_flashes id m in (m', received reply flashes)
