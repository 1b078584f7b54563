-- ===== src/Agents/SessionManager/Store.antt =====
-- What a load sees of the saves before it.
use acton_dx.Prelude.{ℕ, ◌≡◌, none, some, ite, string_discrete, ltb, if◌then◌else◌, arith}
use acton_dx.Prelude.Dict
use acton_dx.Prelude.Time.{hours_24}
use acton_dx.Auth.Session.{SessionId, SessionData, touch}
use acton_dx.Agents.SessionManager.{SessionManagerAgent, load, save, delete}

module _ {J : Type 0} where
  -- A load after a save gives the saved session, touched for 24 hours, or nothing if it has
  -- expired; every other id is loaded as before.
  load-save :
      (now later : ℕ) (id j : SessionId) (s : SessionData J) (m : SessionManagerAgent J)
      → load now later j (save id s m)
        ≡ ite
            (string_discrete id j)
            (if ltb s.expires_at now then none else some (touch later hours_24 s))
            (load now later j m)
  unfolding load save touch
  load-save now later id j s m =
      ground (arith, Dict.lookup-insert string_discrete j id s m.sessions)

  -- A load after a delete finds nothing under the id; every other id is loaded as before.
  load-delete :
      (now later : ℕ) (id j : SessionId) (m : SessionManagerAgent J)
      → load now later j (delete id m) ≡ ite (string_discrete id j) none (load now later j m)
  unfolding load delete
  load-delete now later id j m = ground (arith, Dict.lookup-remove string_discrete j id m.sessions)
