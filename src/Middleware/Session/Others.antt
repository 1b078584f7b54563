-- ===== src/Middleware/Session/Others.antt =====
-- Messages to the manager that are about other sessions.
use acton_dx.Prelude.{
  ℕ, ◌≡◌, ◌≢◌, refl, ◌∙◌, Option, none, List, [], ◌∷◌, string_discrete, All, arith,
}
use acton_dx.Prelude.Dict
use acton_dx.Auth.Session.{SessionId, SessionData}
use acton_dx.Agents.SessionManager.{
  SessionManagerAgent, Message, save_session, take_flash_messages, delete_session, cleanup,
  add_flash_message, save, take_flashes, delete, cleanup_expired, add_flash, step, run, with_flash,
  without_flashes, pop_due,
}
use acton_dx.Agents.SessionManager.Expiry.{remove_all-lookup}

module _ {J : Type 0} (id : SessionId) where
  -- A message that is not about this session; a cleanup may be about any.
  abbrev pub Spares : ℕ × Message J → Type 0
  Spares (now, save_session j s) = j ≢ id
  Spares (now, take_flash_messages j) = j ≢ id
  Spares (now, delete_session j) = j ≢ id
  Spares (now, cleanup) = ⊥
  Spares (now, add_flash_message j f) = j ≢ id

  -- A message that does not save this session.
  abbrev pub SavesOther : ℕ × Message J → Type 0
  SavesOther (now, save_session j s) = j ≢ id
  SavesOther (now, take_flash_messages j) = Unit
  SavesOther (now, delete_session j) = Unit
  SavesOther (now, cleanup) = Unit
  SavesOther (now, add_flash_message j f) = Unit

  abbrev found : SessionManagerAgent J → Option (SessionData J)
  found m = Dict.lookup string_discrete id m.sessions

  step-Spares :
      (c : ℕ × Message J) (m : SessionManagerAgent J) → Spares c → found (step c m) ≡ found m
  unfolding step save take_flashes delete add_flash
  step-Spares (now, save_session j s) m h =
      ground (arith, Dict.lookup-insert string_discrete id j s m.sessions)
  step-Spares (now, take_flash_messages j) m h =
      ground (arith, Dict.lookup-modify string_discrete id j without_flashes m.sessions)
  step-Spares (now, delete_session j) m h =
      ground (arith, Dict.lookup-remove string_discrete id j m.sessions)
  step-Spares (now, cleanup) m h = absurd h
  step-Spares (now, add_flash_message j f) m h =
      ground (arith, Dict.lookup-modify string_discrete id j (with_flash f) m.sessions)

  pub run-Spares :
      (cs : List (ℕ × Message J)) (m : SessionManagerAgent J)
      → All Spares cs
      → found (run cs m) ≡ found m
  unfolding run
  run-Spares [] m h = refl
  run-Spares (c ∷ cs) m h = run-Spares cs (step c m) h.1 ∙ step-Spares c m h.0

  step-SavesOther :
      (c : ℕ × Message J) (m : SessionManagerAgent J)
      → SavesOther c
      → found m ≡ none
      → found (step c m) ≡ none
  unfolding step save take_flashes delete cleanup_expired add_flash
  step-SavesOther (now, save_session j s) m h e =
      ground (arith, Dict.lookup-insert string_discrete id j s m.sessions)
  step-SavesOther (now, take_flash_messages j) m h e =
      ground (arith, Dict.lookup-modify string_discrete id j without_flashes m.sessions)
  step-SavesOther (now, delete_session j) m h e =
      ground (arith, Dict.lookup-remove string_discrete id j m.sessions)
  step-SavesOther (now, cleanup) m h e =
      ground (arith, remove_all-lookup id (pop_due now m.expiry_queue).0 m.sessions)
  step-SavesOther (now, add_flash_message j f) m h e =
      ground (arith, Dict.lookup-modify string_discrete id j (with_flash f) m.sessions)

  pub run-SavesOther :
      (cs : List (ℕ × Message J)) (m : SessionManagerAgent J)
      → All SavesOther cs
      → found m ≡ none
      → found (run cs m) ≡ none
  unfolding run
  run-SavesOther [] m h e = e
  run-SavesOther (c ∷ cs) m h e = run-SavesOther cs (step c m) h.1 (step-SavesOther c m h.0 e)
