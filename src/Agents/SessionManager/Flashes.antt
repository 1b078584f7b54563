-- ===== src/Agents/SessionManager/Flashes.antt =====
-- Flash messages are delivered once, in order.
use mathlib.Core.List.{append-nil, append_assoc}
use acton_dx.Prelude.{
  ◌≡◌, refl, ◌∙◌, none, some, ite, List, [], ◌∷◌, ◌++◌, string_discrete, arith, if_pos,
}
use acton_dx.Prelude.Dict
use acton_dx.Auth.Session.{SessionId, SessionData, FlashMessage}
use acton_dx.Agents.SessionManager.{
  SessionManagerAgent, take_flashes, add_flash, with_flash, without_flashes,
}

module _ {J : Type 0} where
  abbrev pub add_flashes :
      SessionId → List FlashMessage → SessionManagerAgent J → SessionManagerAgent J
  add_flashes id [] m = m
  add_flashes id (f ∷ fs) m = add_flashes id fs (add_flash id f m)

  -- The flash messages that wait under an id.
  abbrev pub waiting : SessionId → SessionManagerAgent J → List FlashMessage
  waiting id m = elim (Dict.lookup string_discrete id m.sessions) [
    | none ↦ []
    | some s ↦ s.flash_messages
  ]

  add_flashes-lookup :
      (id : SessionId) (fs : List FlashMessage) (s : SessionData J) (m : SessionManagerAgent J)
      → Dict.lookup string_discrete id m.sessions ≡ some s
      → waiting id (add_flashes id fs m) ≡ s.flash_messages ++ fs
  unfolding add_flash
  add_flashes-lookup id [] s m e = ground (arith, append-nil s.flash_messages)
  add_flashes-lookup id (f ∷ fs) s m e =
      add_flashes-lookup id fs (with_flash f s) (add_flash id f m) (
        rw (Dict.lookup-modify string_discrete id id (with_flash f) m.sessions, e)
          (if_pos (string_discrete id id) refl _ _))
      ∙ append_assoc s.flash_messages (f ∷ []) fs

  -- `TakeFlashes` leaves the messages of every other id alone.
  pub take_flashes-other :
      (id j : SessionId) (m : SessionManagerAgent J)
      → waiting j (take_flashes id m).0 ≡ ite (string_discrete id j) [] (waiting j m)
  unfolding take_flashes
  take_flashes-other id j m =
      ground (arith, Dict.lookup-modify string_discrete j id without_flashes m.sessions)

  -- After messages are added to a stored session, `TakeFlashes` answers with those that waited
  -- before and the new ones in the order of their arrival, and a second one answers with none.
  take_flashes-add_flashes :
      (id : SessionId) (fs : List FlashMessage) (s : SessionData J) (m : SessionManagerAgent J)
      → Dict.lookup string_discrete id m.sessions ≡ some s
      → let taken = take_flashes id (add_flashes id fs m) in
        (taken.1 ≡ s.flash_messages ++ fs) × ((take_flashes id taken.0).1 ≡ [])
  unfolding take_flashes
  take_flashes-add_flashes id fs s m e = (
    add_flashes-lookup id fs s m e,
    take_flashes-other id id (add_flashes id fs m) ∙ if_pos (string_discrete id id) refl _ _,
  )
