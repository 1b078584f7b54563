-- ===== src/Middleware/Session/Flashes.antt =====
-- The flash messages of a session, and the messages of the manager during a request.
use acton_dx.Prelude.{ℕ, ◌≡◌, refl, ap, ◌∙◌, Bool, some, Option, List, String, string_discrete, ok}
use acton_dx.Prelude.Dict
use acton_dx.Prelude.Text.{Text}
use acton_dx.Auth.Session.{SessionId, SessionData}
use acton_dx.Agents.SessionManager.{SessionManagerAgent, Message, save, take_flashes, run}
use acton_dx.Middleware.Session.{
  SessionConfig, Response, Circumstances, Inner, extract_session_id, load_or_create,
  final_session_data, call,
}
use acton_dx.Middleware.Session.Continuity.{call-saves, lookup-save}

module _ {J : Type 0} where
  take_flashes-found :
      (id : SessionId) (s : SessionData J) (m : SessionManagerAgent J)
      → Dict.lookup string_discrete id m.sessions ≡ some s
      → (take_flashes id m).1 ≡ s.flash_messages
  unfolding take_flashes
  take_flashes-found id s m e = rw (take_flashes, e) refl

module _ {J B E : Type 0} (parses : String → Bool) (is_header_value : Text → Bool) where
  -- The flash messages of a session after a request are those that its handler leaves, or else those that
  -- were loaded: whatever messages were added or taken in the manager while the request was served.
  pub take_flashes-call :
      (c : SessionConfig) (k : Circumstances) (cookies : Option (Option Text)) (inner : Inner J B E)
      (m : SessionManagerAgent J) (id : SessionId) (s : SessionData J) (is_new : Bool)
      (sent : List (ℕ × Message J)) (response : Response J B)
      → load_or_create k (extract_session_id parses cookies c.cookie_name) m ≡ (id, s, is_new)
      → inner id s ≡ (sent, ok response)
      → (take_flashes id (call parses is_header_value c k cookies inner m).0).1
        ≡ (final_session_data response s).flash_messages
  take_flashes-call c k cookies inner m id s is_new sent response loaded answered =
      let final = final_session_data response s in
      let saved =
        call-saves parses is_header_value c k cookies inner m id s is_new sent response loaded
          answered in
      ap (λ x. (take_flashes id x).1) saved
      ∙ take_flashes-found id final (save id final (run sent m)) (lookup-save id final (run sent m))
