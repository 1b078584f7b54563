-- ===== src/Agents/SessionManager.antt =====
-- acton-dx/src/htmx/agents/session_manager.rs without its Redis backend: sessions in memory, with a
-- queue of their expiry times. Replies are results; sending them is left out.
pub mod DueQueue
pub mod Flashes
pub mod Expiry
pub mod Store
mod Tests
use acton_dx.Prelude.{
  ℕ, ◌≡◌, Bool, true, false, Option, none, some, List, [], ◌∷◌, ◌++◌, string_discrete, ltb, leb,
  if◌then◌else◌,
}
use acton_dx.Prelude.Dict
use acton_dx.Prelude.Time.{hours_24}
use acton_dx.Auth.Session.{SessionId, SessionData, FlashMessage, validate_and_touch}

-- The heap of `Reverse` pairs is a list with the earliest expiry first. The order among entries of
-- one expiry time is not used by any handler.
pub record SessionManagerAgent (J : Type 0) : Type 0 where
  pub sessions : List (SessionId × SessionData J)
  pub expiry_queue : List (ℕ × SessionId)

-- `BinaryHeap::push`
unfoldable pub push : ℕ × SessionId → List (ℕ × SessionId) → List (ℕ × SessionId)
push e [] = e ∷ []
push e (f ∷ q) = if leb e.0 f.0 then e ∷ f ∷ q else f ∷ push e q

-- The loop of `CleanupExpired`: the ids popped, and the queue that is left.
unfoldable pub pop_due : ℕ → List (ℕ × SessionId) → List SessionId × List (ℕ × SessionId)
pop_due now [] = ([], [])
pop_due now ((expiry, id) ∷ q) =
    let rest = pop_due now q in
    if leb expiry now then (id ∷ rest.0, rest.1) else ([], (expiry, id) ∷ q)

module _ {J : Type 0} where
  unfoldable pub empty : SessionManagerAgent J
  empty = record { sessions = []; expiry_queue = [] }

  -- `LoadSession`: the touched copy goes to the caller, and the model stays as it is.
  unfoldable pub load : ℕ → ℕ → SessionId → SessionManagerAgent J → Option (SessionData J)
  unfolding validate_and_touch
  load now later id m = elim (Dict.lookup string_discrete id m.sessions) [
    | none ↦ none
    | some s ↦
        let (touched, valid) = validate_and_touch now later hours_24 s in
        if valid then some touched else none
  ]

  -- `SaveSession`
  unfoldable pub save : SessionId → SessionData J → SessionManagerAgent J → SessionManagerAgent J
  save id s m = record {
    sessions = Dict.insert string_discrete id s m.sessions;
    expiry_queue = push (s.expires_at, id) m.expiry_queue;
  }

  -- What `mem::take` leaves of a session's messages.
  abbrev pub without_flashes : SessionData J → SessionData J
  without_flashes s = record s { flash_messages = [] }

  abbrev pub with_flash : FlashMessage → SessionData J → SessionData J
  with_flash message s = record s { flash_messages = s.flash_messages ++ message ∷ [] }

  -- `TakeFlashes`
  unfoldable pub take_flashes :
      SessionId → SessionManagerAgent J → SessionManagerAgent J × List FlashMessage
  take_flashes id m = (
    record m { sessions = Dict.modify string_discrete id without_flashes m.sessions },
    elim (Dict.lookup string_discrete id m.sessions) [ none ↦ [] | some s ↦ s.flash_messages ],
  )

  -- `DeleteSession`
  unfoldable pub delete : SessionId → SessionManagerAgent J → SessionManagerAgent J
  delete id m = record m { sessions = Dict.remove string_discrete id m.sessions }

  -- The second loop of `CleanupExpired`.
  unfoldable pub remove_all :
      List SessionId → List (SessionId × SessionData J) → List (SessionId × SessionData J)
  remove_all [] sessions = sessions
  remove_all (id ∷ ids) sessions = remove_all ids (Dict.remove string_discrete id sessions)

  -- `CleanupExpired`
  unfoldable pub cleanup_expired : ℕ → SessionManagerAgent J → SessionManagerAgent J
  cleanup_expired now m =
      let (expired, rest) = pop_due now m.expiry_queue in
      record { sessions = remove_all expired m.sessions; expiry_queue = rest }

  -- `AddFlash`
  unfoldable pub add_flash :
      SessionId → FlashMessage → SessionManagerAgent J → SessionManagerAgent J
  add_flash id message m = record m {
    sessions = Dict.modify string_discrete id (with_flash message) m.sessions;
  }

-- The messages that change the model.
pub data Message (J : Type 0) : Type 0 where
  save_session : SessionId → SessionData J → Message J
  take_flash_messages delete_session : SessionId → Message J
  cleanup : Message J
  add_flash_message : SessionId → FlashMessage → Message J

-- One message, handled at a time of the clock.
unfoldable pub step : {J : Type 0} → ℕ × Message J → SessionManagerAgent J → SessionManagerAgent J
step (now, save_session id s) m = save id s m
step (now, take_flash_messages id) m = (take_flashes id m).0
step (now, delete_session id) m = delete id m
step (now, cleanup) m = cleanup_expired now m
step (now, add_flash_message id f) m = add_flash id f m

unfoldable pub run :
    {J : Type 0} → List (ℕ × Message J) → SessionManagerAgent J → SessionManagerAgent J
run [] m = m
run (c ∷ cs) m = run cs (step c m)
