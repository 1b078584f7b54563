-- ===== src/Services/Sessions.antt =====
-- services/auth-service/src: the session manager of lib.rs and agents/session_manager.rs, and the
-- session service of services/session.rs in front of it. Random ids and tokens and the readings of the
-- clock are arguments. An instant is a number of nanoseconds since 1970. A handler that panics leaves the
-- sessions as they are and gives no reply; what the actor library does after that is left out.
pub mod Service
pub mod Lifetime
mod Tests
use acton_dx.Prelude.{
  ℕ, ◌+◌, ◌*◌, ◌/◌, Bool, true, false, not, Option, none, some, List, [], ◌∷◌, ◌++◌, String,
  string_discrete, ltb, if◌then◌else◌, leb, ◌&&◌, is_some, Result, ok, err, min, ◌^◌, ◌-◌,
}
use acton_dx.Prelude.Dict
use acton_dx.Prelude.Time.{ℤ, pos, negsuc, second}

pub record FlashMessage : Type 0 where
  pub level : String
  pub message : String

pub record SessionData : Type 0 where
  pub session_id : String
  pub user_id : Option ℤ
  pub user_email : Option String
  pub user_name : Option String
  pub entries : List (String × String)
  pub flash_messages : List FlashMessage
  pub csrf_token : String
  pub created_at : ℕ
  pub expires_at : ℕ

-- `i64::try_from(..).unwrap_or(i64::MAX)`
abbrev clamp : ℕ → ℕ
clamp n = min n (2 ^ 63 - 1)

-- `chrono::Duration::seconds` panics above this number of seconds, that of `i64::MAX` milliseconds.
abbrev pub max_seconds : ℕ
max_seconds = (2 ^ 63 - 1) / 1_000

-- `DateTime::<Utc>::MAX_UTC`, the last instant of the year 262142. A sum beyond it panics.
abbrev pub max_utc : ℕ
max_utc = 8_210_266_876_799 * second + 999_999_999

-- The session of `SessionData::new`, and whether its times can be computed.
abbrev pub opened : ℕ → (id csrf : String) → (ttl_seconds : ℕ) → Option ℤ → SessionData
opened now id csrf ttl_seconds user_id = record {
  session_id = id;
  user_id = user_id;
  user_email = none;
  user_name = none;
  entries = [];
  flash_messages = [];
  csrf_token = csrf;
  created_at = now;
  expires_at = now + clamp ttl_seconds * second;
}

unfoldable pub in_range : ℕ → (ttl_seconds : ℕ) → Bool
in_range now ttl_seconds =
    leb (clamp ttl_seconds) max_seconds && leb (now + clamp ttl_seconds * second) max_utc

-- `none` is a panic.
unfoldable pub new : ℕ → (id csrf : String) → (ttl_seconds : ℕ) → Option ℤ → Option SessionData
new now id csrf ttl_seconds user_id =
    if in_range now ttl_seconds then some (opened now id csrf ttl_seconds user_id) else none

unfoldable pub is_expired : ℕ → SessionData → Bool
is_expired now s = ltb s.expires_at now

pub record SessionManagerAgent : Type 0 where
  pub sessions : List (String × SessionData)

unfoldable pub empty : SessionManagerAgent
empty = record { sessions = [] }

-- The handler behind `SessionData::new`.
abbrev pub inserted :
    Option SessionData → SessionManagerAgent → SessionManagerAgent × Option SessionData
inserted none m = (m, none)
inserted (some s) m =
    (record { sessions = Dict.insert string_discrete s.session_id s m.sessions }, some s)

-- `CreateSession`, with the session of its reply, or none where it panics; its `initial_data` is not read.
unfoldable pub create :
    ℕ
    → (id csrf : String) → ℕ
    → Option ℤ
    → SessionManagerAgent
    → SessionManagerAgent × Option SessionData
create now id csrf ttl_seconds user_id m = inserted (new now id csrf ttl_seconds user_id) m

-- `LoadSession`
unfoldable pub load : String → SessionManagerAgent → Option SessionData
load id m = Dict.lookup string_discrete id m.sessions

-- The loop of `update_session_data`.
unfoldable pub insert_all : List (String × String) → List (String × String) → List (String × String)
insert_all [] entries = entries
insert_all ((key, value) ∷ new_entries) entries =
    insert_all new_entries (Dict.insert string_discrete key value entries)

abbrev user_or : Option ℤ → Option ℤ → Option ℤ
user_or none old = old
user_or (some uid) old = some uid

abbrev pub updated : List (String × String) → Option ℤ → SessionData → SessionData
updated new_entries user_id s = record s {
  entries = insert_all new_entries s.entries;
  user_id = user_or user_id s.user_id;
}

abbrev pub with_flash : FlashMessage → SessionData → SessionData
with_flash f s = record s { flash_messages = s.flash_messages ++ f ∷ [] }

-- What `mem::take` leaves.
abbrev pub without_flashes : SessionData → SessionData
without_flashes s = record s { flash_messages = [] }

-- A change through `get_mut`.
abbrev pub modified :
    String → (SessionData → SessionData) → SessionManagerAgent → SessionManagerAgent
modified id f m = record { sessions = Dict.modify string_discrete id f m.sessions }

-- `UpdateSession`, by `update_session_data`
unfoldable pub update :
    String
    → List (String × String)
    → Option ℤ
    → SessionManagerAgent
    → SessionManagerAgent × Option SessionData
update id new_entries user_id m =
    let m' = modified id (updated new_entries user_id) m in
    (m', Dict.lookup string_discrete id m'.sessions)

-- `DeleteSession`
unfoldable pub delete : String → SessionManagerAgent → SessionManagerAgent × Bool
delete id m = (
  record { sessions = Dict.remove string_discrete id m.sessions },
  is_some (Dict.lookup string_discrete id m.sessions),
)

-- `AddFlash`, by `add_flash_to_session`
unfoldable pub add_flash : String → FlashMessage → SessionManagerAgent → SessionManagerAgent × Bool
add_flash id f m =
    (modified id (with_flash f) m, is_some (Dict.lookup string_discrete id m.sessions))

-- `TakeFlashes`, by `take_flashes_from_session`
unfoldable pub take_flashes : String → SessionManagerAgent → SessionManagerAgent × List FlashMessage
take_flashes id m = (
  modified id without_flashes m,
  elim (Dict.lookup string_discrete id m.sessions) [ none ↦ [] | some s ↦ s.flash_messages ],
)

-- `CleanupExpired`
unfoldable pub cleanup_expired : ℕ → SessionManagerAgent → SessionManagerAgent
unfolding is_expired
cleanup_expired now m = record {
  sessions = Dict.retain string_discrete (λ s. not (is_expired now s)) m.sessions;
}

-- The messages that change the model.
pub data Message : Type 0 where
  create_session : (id csrf : String) (ttl_seconds : ℕ) (user_id : Option ℤ) → Message
  update_session : String → List (String × String) → Option ℤ → Message
  delete_session : String → Message
  add_flash_message : String → FlashMessage → Message
  take_flash_messages : String → Message
  cleanup : Message

unfoldable pub step : ℕ × Message → SessionManagerAgent → SessionManagerAgent
step (now, create_session id csrf ttl user_id) m = (create now id csrf ttl user_id m).0
step (now, update_session id new_entries user_id) m = (update id new_entries user_id m).0
step (now, delete_session id) m = (delete id m).0
step (now, add_flash_message id f) m = (add_flash id f m).0
step (now, take_flash_messages id) m = (take_flashes id m).0
step (now, cleanup) m = cleanup_expired now m

unfoldable pub run : List (ℕ × Message) → SessionManagerAgent → SessionManagerAgent
run [] m = m
run (c ∷ cs) m = run cs (step c m)
