-- ===== src/Middleware/Session/Continuity.antt =====
-- Which session a request gets, and what the next request finds.
use acton_dx.Prelude.{
  ℕ, ◌≡◌, ◌≢◌, ◌≤◌, refl, sym, ap, ◌∙◌, Bool, true, false, Option, none, some, List, ◌∷◌, ◌++◌,
  String, string_discrete, All, arith, Result, ok, err, ltb, Option-cases, inl, inr, Bool-cases,
}
use acton_dx.Prelude.Dict
use acton_dx.Prelude.Time.{hours_24}
use acton_dx.Prelude.Text.{Text, codes, Lacks}
use acton_dx.Auth.Session.{SessionId, SessionData, touch, validate_and_touch, is_expired}
use acton_dx.Agents.SessionManager.{SessionManagerAgent, Message, load, save, run}
use acton_dx.Middleware.Session.{
  SessionConfig, Response, Circumstances, Inner, extract_session_id, cookie_value, load_or_create,
  final_session_data, finish, call,
}
use acton_dx.Middleware.Session.Cookies.{
  kept, header, IsToken, IsForeign, extract_session_id-cookie_value,
}
use acton_dx.Middleware.Session.Others.{Spares, SavesOther, run-Spares, run-SavesOther}

module _ {J : Type 0} where
  load-found :
      (now later : ℕ) (id : SessionId) (s : SessionData J) (m : SessionManagerAgent J)
      → Dict.lookup string_discrete id m.sessions ≡ some s
      → now ≤ s.expires_at
      → load now later id m ≡ some (touch later hours_24 s)
  unfolding load validate_and_touch is_expired
  load-found now later id s m e fresh =
      let valid : ltb s.expires_at now ≡ false = ground arith in rw (load, e, valid) refl

  load-missing :
      (now later : ℕ) (id : SessionId) (m : SessionManagerAgent J)
      → Dict.lookup string_discrete id m.sessions ≡ none
      → load now later id m ≡ none
  unfolding load
  load-missing now later id m e = rw (load, e) refl

  pub lookup-save :
      (id : SessionId) (s : SessionData J) (m : SessionManagerAgent J)
      → Dict.lookup string_discrete id (save id s m).sessions ≡ some s
  unfolding save
  lookup-save id s m = ground (arith, Dict.lookup-insert string_discrete id id s m.sessions)

  lookup-save_other :
      (id j : SessionId) (s : SessionData J) (m : SessionManagerAgent J)
      → id ≢ j
      → Dict.lookup string_discrete j (save id s m).sessions
        ≡ Dict.lookup string_discrete j m.sessions
  unfolding save
  lookup-save_other id j s m h =
      ground (arith, Dict.lookup-insert string_discrete j id s m.sessions)

  load_or_create-loaded :
      (k : Circumstances) (id : SessionId) (s : SessionData J) (m : SessionManagerAgent J)
      → k.in_time ≡ true
      → load k.now k.later id m ≡ some s
      → load_or_create k (some id) m ≡ (id, s, false)
  unfolding load_or_create
  load_or_create-loaded k id s m t e = rw (load_or_create, t, e) refl

  -- A session that the manager does not have is not the one of a request.
  load_or_create-missing :
      (k : Circumstances) (existing : Option SessionId) (j : SessionId) (m : SessionManagerAgent J)
      → j ≢ k.generated
      → Dict.lookup string_discrete j m.sessions ≡ none
      → (load_or_create k existing m).0 ≢ j
  unfolding load_or_create
  load_or_create-missing k none j m other e = λ h. other (sym h)
  load_or_create-missing k (some id) j m other e = elim (Bool-cases k.in_time) [
    | inr late ↦ rw (load_or_create, late) (λ h. other (sym h))
    | inl t ↦ elim (Option-cases (load k.now k.later id m)) [
      | inl absent ↦ rw (load_or_create, t, absent) (λ h. other (sym h))
      | inr (s, present) ↦
          rw (load_or_create, t, present)
            (λ h.
              let none_there =
                load-missing k.now k.later id m
                  (ap (λ i. Dict.lookup string_discrete i m.sessions) h ∙ e) in
              let clash : some s ≡ none = sym present ∙ none_there in absurd (ground arith))
    ]
  ]

module _ {J B E : Type 0} (parses : String → Bool) (is_header_value : Text → Bool) where
  finish-absent :
      (c : SessionConfig) (s : SessionId × SessionData J × Bool) (m : SessionManagerAgent J)
      (answer : Result (Response J B) E) (j : SessionId)
      → s.0 ≢ j
      → Dict.lookup string_discrete j m.sessions ≡ none
      → Dict.lookup string_discrete j (finish is_header_value c s m answer).0.sessions ≡ none
  unfolding finish
  finish-absent c s m (err e) j other absent = absent
  finish-absent c (id, loaded, is_new) m (ok response) j other absent =
      lookup-save_other id j (final_session_data response loaded) m other ∙ absent

  -- What a request that is answered leaves in the manager.
  pub call-saves :
      (c : SessionConfig) (k : Circumstances) (cookies : Option (Option Text)) (inner : Inner J B E)
      (m : SessionManagerAgent J) (id : SessionId) (s : SessionData J) (is_new : Bool)
      (sent : List (ℕ × Message J)) (response : Response J B)
      → load_or_create k (extract_session_id parses cookies c.cookie_name) m ≡ (id, s, is_new)
      → inner id s ≡ (sent, ok response)
      → (call parses is_header_value c k cookies inner m).0
        ≡ save id (final_session_data response s) (run sent m)
  unfolding call finish
  call-saves c k cookies inner m id s is_new sent response loaded answered =
      ap (λ t. (finish is_header_value c t (run (inner t.0 t.1).0 m) (inner t.0 t.1).1).0) loaded
      ∙ ap (λ r. (finish is_header_value c (id, s, is_new) (run r.0 m) r.1).0) answered

  -- A request neither finds nor plants a session under an id that the manager does not have and does
  -- not generate, whatever cookies it sends: if no message saves one under that id while the next
  -- service runs, there is none after the request.
  pub call-plants_no_session :
      (c : SessionConfig) (k : Circumstances) (cookies : Option (Option Text)) (inner : Inner J B E)
      (m : SessionManagerAgent J) (j : SessionId)
      → j ≢ k.generated
      → Dict.lookup string_discrete j m.sessions ≡ none
      → ((id : SessionId) (s : SessionData J) → All (SavesOther j) (inner id s).0)
      → Dict.lookup string_discrete j (call parses is_header_value c k cookies inner m).0.sessions
        ≡ none
  unfolding call finish
  call-plants_no_session c k cookies inner m j other absent spared =
      let existing = extract_session_id parses cookies c.cookie_name in
      let s = load_or_create k existing m in
      finish-absent c s (run (inner s.0 s.1).0 m) (inner s.0 s.1).1 j
        (load_or_create-missing k existing j m other absent)
        (run-SavesOther j (inner s.0 s.1).0 m (spared s.0 s.1) absent)

  -- The session of a request is that of the client's next one: it is loaded with what was saved, touched
  -- for 24 hours. This holds if the client sends the cookie of that session among its cookies, in time for
  -- its expiry, the manager answers in time, and in between come no messages about the session and no
  -- cleanup.
  pub call-continues :
      (c : SessionConfig) (k k' : Circumstances) (cookies : Option (Option Text))
      (inner : Inner J B E) (m : SessionManagerAgent J) (id : SessionId) (s : SessionData J)
      (is_new : Bool) (sent between : List (ℕ × Message J)) (response : Response J B)
      (others after : List Text)
      → load_or_create k (extract_session_id parses cookies c.cookie_name) m ≡ (id, s, is_new)
      → inner id s ≡ (sent, ok response)
      → All (Spares id) between
      → k'.in_time ≡ true
      → k'.now ≤ (final_session_data response s).expires_at
      → IsToken c.cookie_name
      → IsToken (codes id)
      → parses id ≡ true
      → All (Lacks b';') others
      → All (Lacks b';') after
      → All (IsForeign parses c.cookie_name) others
      → load_or_create k'
          (extract_session_id parses
            (some (some (header (others ++ kept (cookie_value c id) ∷ after))))
            c.cookie_name)
          (run between (call parses is_header_value c k cookies inner m).0)
        ≡ (id, touch k'.later hours_24 (final_session_data response s), false)
  unfolding call finish
  call-continues c k k' cookies inner m id s is_new sent between response others after loaded
        answered spared in_time fresh name token valid plain plain' foreign =
      let final = final_session_data response s in
      let m' = (call parses is_header_value c k cookies inner m).0 in
      let called : m' ≡ save id final (run sent m) =
        call-saves c k cookies inner m id s is_new sent response loaded answered in
      let there : Dict.lookup string_discrete id (run between m').sessions ≡ some final =
        run-Spares id between m' spared
        ∙ ap (λ x. Dict.lookup string_discrete id x.sessions) called
        ∙ lookup-save id final (run sent m) in
      ap (λ e. load_or_create k' e (run between m'))
        (extract_session_id-cookie_value parses c id others after name token valid plain plain'
          foreign)
      ∙ load_or_create-loaded k' id (touch k'.later hours_24 final) (run between m') in_time
          (load-found k'.now k'.later id final (run between m') there fresh)
