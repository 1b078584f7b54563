-- ===== src/Middleware/Session/Remote/Absence.antt =====
-- Sessions that the service does not have.
use acton_dx.Prelude.{
  ℕ, ◌≡◌, ◌≢◌, Bool, false, not, Option, none, some, List, [], ◌∷◌, String, string_discrete, All,
  arith, Bool-cases, inl, inr, if_neg,
}
use acton_dx.Prelude.Dict
use acton_dx.Prelude.Time.{ℤ}
use acton_dx.Auth.Session.{SessionId, SessionData}
use acton_dx.Services.Sessions.{
  SessionManagerAgent, Message, create_session, update_session, delete_session, add_flash_message,
  take_flash_messages, cleanup, new, opened, in_range, is_expired, create, updated, with_flash,
  without_flashes, update, delete, add_flash, take_flashes, cleanup_expired, step, run,
}

module _ (id : String) where
  -- A message that creates no session of this id.
  abbrev pub CreatesOther : ℕ × Message → Type 0
  CreatesOther (t, create_session j csrf ttl user_id) = j ≢ id
  CreatesOther (t, update_session j new_entries user_id) = Unit
  CreatesOther (t, delete_session j) = Unit
  CreatesOther (t, add_flash_message j f) = Unit
  CreatesOther (t, take_flash_messages j) = Unit
  CreatesOther (t, cleanup) = Unit

  abbrev pub IsAbsent : SessionManagerAgent → Type 0
  IsAbsent m = Dict.lookup string_discrete id m.sessions ≡ none

  pub create-IsAbsent :
      (t : ℕ) (j csrf : String) (ttl : ℕ) (user_id : Option ℤ) (m : SessionManagerAgent)
      → j ≢ id
      → IsAbsent m
      → IsAbsent (create t j csrf ttl user_id m).0
  unfolding create new
  create-IsAbsent t j csrf ttl user_id m other absent = elim (Bool-cases (in_range t ttl)) [
    | inl fits ↦
        rw
          (
            create,
            new,
            fits,
            Dict.lookup-insert string_discrete id j (opened t j csrf ttl user_id) m.sessions,
            if_neg (string_discrete j id) other,
          )
          absent
    | inr panics ↦ rw (create, new, panics) absent
  ]

  pub update-IsAbsent :
      (j : String) (new_entries : List (String × String)) (user_id : Option ℤ)
      (m : SessionManagerAgent)
      → IsAbsent m
      → IsAbsent (update j new_entries user_id m).0
  unfolding update
  update-IsAbsent j new_entries user_id m absent =
      ground
        (arith, Dict.lookup-modify string_discrete id j (updated new_entries user_id) m.sessions)

  step-IsAbsent :
      (c : ℕ × Message) (m : SessionManagerAgent)
      → CreatesOther c
      → IsAbsent m
      → IsAbsent (step c m)
  unfolding step delete add_flash take_flashes cleanup_expired
  step-IsAbsent (t, create_session j csrf ttl user_id) m h absent =
      create-IsAbsent t j csrf ttl user_id m h absent
  step-IsAbsent (t, update_session j new_entries user_id) m h absent =
      update-IsAbsent j new_entries user_id m absent
  step-IsAbsent (t, delete_session j) m h absent =
      ground (arith, Dict.lookup-remove string_discrete id j m.sessions)
  step-IsAbsent (t, add_flash_message j f) m h absent =
      ground (arith, Dict.lookup-modify string_discrete id j (with_flash f) m.sessions)
  step-IsAbsent (t, take_flash_messages j) m h absent =
      ground (arith, Dict.lookup-modify string_discrete id j without_flashes m.sessions)
  step-IsAbsent (t, cleanup) m h absent =
      Dict.lookup-retain_absent string_discrete id (λ s. not (is_expired t s)) m.sessions absent

  pub run-IsAbsent :
      (cs : List (ℕ × Message)) (m : SessionManagerAgent)
      → All CreatesOther cs
      → IsAbsent m
      → IsAbsent (run cs m)
  unfolding run
  run-IsAbsent [] m h absent = absent
  run-IsAbsent (c ∷ cs) m h absent = run-IsAbsent cs (step c m) h.1 (step-IsAbsent c m h.0 absent)

-- Whether a session that was loaded is an old one.
abbrev pub is_resumed : {J : Type 0} → Option (SessionId × SessionData J × Bool) → Bool
is_resumed none = false
is_resumed (some (id, s, is_new)) = not is_new
