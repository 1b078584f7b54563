-- ===== src/Middleware/Session/Remote/Ids.antt =====
-- The ids of the service and those of the application.
use acton_dx.Prelude.{
  ℕ, ◌≡◌, ◌≢◌, refl, Bool, false, none, some, List, String, All, Result, ok, err, Bool-cases, inl,
  inr,
}
use acton_dx.Prelude.Text.{Text}
use acton_dx.Prelude.Time.{ℤ}
use acton_dx.Auth.Session.{SessionId, SessionData, try_from_string}
use acton_dx.Services.Sessions.{SessionManagerAgent, Message, new, in_range, create, load, run}
use acton_dx.Services.Sessions.Service as Service
use acton_dx.Middleware.Session.{SessionConfig, Response, extract_session_id, final_session_data}
use acton_dx.Middleware.Session.Remote.{
  Call, answered, unanswered, undelivered, Json, Circumstances, Inner, id_or, validated, ttl_of,
  created_by, created, load_or_create, saved_by, save, or_local, finish, call,
  session_data_to_hashmap,
}
use acton_dx.Middleware.Session.Remote.Absence.{
  CreatesOther, IsAbsent, create-IsAbsent, update-IsAbsent, run-IsAbsent, is_resumed,
}

id_or-foreign :
    (parses : String → Bool) (generated : SessionId) (id : String)
    → parses id ≡ false
    → id_or parses generated id ≡ generated
unfolding id_or try_from_string
id_or-foreign parses generated id foreign = rw (id_or, try_from_string, foreign) refl

module _ {J : Type 0} (parses : String → Bool) (json : Json J) where
  -- A new session of the service under an id that does not parse.
  created_by-foreign :
      (k : Circumstances) (call : Call) (ttl : ℤ) (m : SessionManagerAgent)
      → parses k.service_id ≡ false
      → (or_local k
          (created_by parses json k call m (
            Service.create_session Service.arrives k.now k.service_id k.service_csrf ttl none
              m)).1).0
        ≡ k.generated
  unfolding created_by Service.create_session create new Service.session_data_to_proto
  created_by-foreign k undelivered ttl m foreign = refl
  created_by-foreign k unanswered ttl m foreign = refl
  created_by-foreign k answered ttl m foreign =
      elim (Bool-cases (in_range k.now (Service.ttl_or_hour ttl))) [
        | inl fits ↦ rw (new, fits) (id_or-foreign parses k.generated k.service_id foreign)
        | inr panics ↦ rw (new, panics) refl
      ]

  created_by-IsAbsent :
      (k : Circumstances) (call : Call) (id : SessionId) (m : SessionManagerAgent)
      (r : SessionManagerAgent × Result Service.ProtoSession Service.Status)
      → IsAbsent id m
      → IsAbsent id r.0
      → IsAbsent id (created_by parses json k call m r).0
  unfolding created_by
  created_by-IsAbsent k undelivered id m (m', reply) h h' = h
  created_by-IsAbsent k unanswered id m (m', reply) h h' = h'
  created_by-IsAbsent k answered id m (m', err e) h h' = h'
  created_by-IsAbsent k answered id m (m', ok proto) h h' = h'

  created_by-new :
      (k : Circumstances) (call : Call) (m : SessionManagerAgent)
      (r : SessionManagerAgent × Result Service.ProtoSession Service.Status)
      → is_resumed (created_by parses json k call m r).1 ≡ false
  unfolding created_by
  created_by-new k undelivered m (m', reply) = refl
  created_by-new k unanswered m (m', reply) = refl
  created_by-new k answered m (m', err e) = refl
  created_by-new k answered m (m', ok proto) = refl

  validated-IsAbsent :
      (call : Call) (now : ℕ) (id : SessionId) (m : SessionManagerAgent)
      → IsAbsent id m
      → validated call now (some id) m ≡ none
  unfolding validated Service.validate_session Service.valid_session load
  validated-IsAbsent answered now id m absent = rw absent refl
  validated-IsAbsent unanswered now id m absent = refl
  validated-IsAbsent undelivered now id m absent = refl

  load_or_create-absent :
      (k : Circumstances) (id : SessionId) (ttl : ℤ) (m : SessionManagerAgent)
      → IsAbsent id m
      → is_resumed (load_or_create parses json k (some id) ttl m).1 ≡ false
  unfolding load_or_create created
  load_or_create-absent k id ttl m absent = elim (Bool-cases k.configured) [
    | inr alone ↦ rw (load_or_create, alone) refl
    | inl served ↦
        rw (load_or_create, served, validated-IsAbsent k.validating k.now id m absent)
          (created_by-new k k.creating m
            (Service.create_session Service.arrives k.now k.service_id k.service_csrf ttl none m))
  ]

  saved_by-IsAbsent :
      (call : Call) (id : SessionId) (m m' : SessionManagerAgent)
      → IsAbsent id m
      → IsAbsent id m'
      → IsAbsent id (saved_by call m m')
  unfolding saved_by
  saved_by-IsAbsent answered id m m' h h' = h'
  saved_by-IsAbsent unanswered id m m' h h' = h'
  saved_by-IsAbsent undelivered id m m' h h' = h

  save-IsAbsent :
      (k : Circumstances) (id : SessionId) (j : SessionId) (s : SessionData J)
      (m : SessionManagerAgent)
      → IsAbsent id m
      → IsAbsent id (save json k j s m)
  unfolding save Service.update_session
  save-IsAbsent k id j s m absent = elim (Bool-cases k.configured) [
    | inr alone ↦ rw (save, alone) absent
    | inl served ↦
        rw (save, served)
          (saved_by-IsAbsent k.saving id m _ absent
            (update-IsAbsent id j (session_data_to_hashmap json s) s.user_id m absent))
  ]

  -- What a client without a cookie gets.
  load_or_create-foreign :
      (k : Circumstances) (ttl : ℤ) (m : SessionManagerAgent)
      → parses k.service_id ≡ false
      → k.service_id ≢ k.generated
      → IsAbsent k.generated m
      → ((or_local k (load_or_create parses json k none ttl m).1).0 ≡ k.generated)
        × IsAbsent k.generated (load_or_create parses json k none ttl m).0
  unfolding load_or_create created Service.create_session created_by
  load_or_create-foreign k ttl m foreign other absent = elim (Bool-cases k.configured) [
    | inr alone ↦ rw (load_or_create, alone) (refl, absent)
    | inl served ↦
        rw (load_or_create, served)
          (
            created_by-foreign k k.creating ttl m foreign,
            created_by-IsAbsent k k.creating k.generated m
                (Service.create_session Service.arrives k.now k.service_id k.service_csrf ttl none
                  m)
                absent
                (create-IsAbsent k.generated k.now k.service_id k.service_csrf
                  (Service.ttl_or_hour ttl) none m other absent),
          )
  ]

module _ {J B E : Type 0} (parses : String → Bool) (json : Json J) where
  finish-IsAbsent :
      (is_header_value : Text → Bool) (c : SessionConfig) (k : Circumstances)
      (s : SessionId × SessionData J × Bool) (id : SessionId) (m : SessionManagerAgent)
      (answer : Result (Response J B) E)
      → IsAbsent id m
      → IsAbsent id (finish is_header_value json c k s m answer).0
  unfolding finish
  finish-IsAbsent is_header_value c k s id m (err e) absent = absent
  finish-IsAbsent is_header_value c k (j, loaded, is_new) id m (ok response) absent =
      save-IsAbsent parses json k id j (final_session_data response loaded) m absent

  call-IsAbsent :
      (is_header_value : Text → Bool) (c : SessionConfig) (k : Circumstances) (inner : Inner J B E)
      (m : SessionManagerAgent)
      → ((id : SessionId) (s : SessionData J) → All (CreatesOther k.generated) (inner id s).0)
      → IsAbsent k.generated (load_or_create parses json k none (ttl_of c.max_age_secs) m).0
      → IsAbsent k.generated (call parses is_header_value json c k none inner m).0
  unfolding call extract_session_id
  call-IsAbsent is_header_value c k inner m spared absent =
      let r = load_or_create parses json k none (ttl_of c.max_age_secs) m in
      let s = or_local k r.1 in
      finish-IsAbsent is_header_value c k s k.generated (run (inner s.0 s.1).0 r.0)
        (inner s.0 s.1).1 (run-IsAbsent k.generated (inner s.0 s.1).0 r.0 (spared s.0 s.1) absent)

  -- A session of a client without a cookie, from a service whose ids do not parse as session ids, is not
  -- found again: the client's session has the generated id, and no later request under that id is given
  -- an old session. The generated id is not one of the service before, and the service does not use it
  -- for another session.
  pub call-forgets :
      (is_header_value : Text → Bool) (c : SessionConfig) (k k' : Circumstances)
      (inner : Inner J B E) (m : SessionManagerAgent) (between : List (ℕ × Message))
      → parses k.service_id ≡ false
      → k.service_id ≢ k.generated
      → IsAbsent k.generated m
      → ((id : SessionId) (s : SessionData J) → All (CreatesOther k.generated) (inner id s).0)
      → All (CreatesOther k.generated) between
      → ((or_local k (load_or_create parses json k none (ttl_of c.max_age_secs) m).1).0
          ≡ k.generated)
        × (is_resumed
              (load_or_create parses json k'
                (some k.generated)
                (ttl_of c.max_age_secs)
                (run between (call parses is_header_value json c k none inner m).0)).1
            ≡ false)
  call-forgets is_header_value c k k' inner m between foreign other absent spared spared' =
      let ttl = ttl_of c.max_age_secs in
      let first = load_or_create-foreign parses json k ttl m foreign other absent in
      let m' = (call parses is_header_value json c k none inner m).0 in
      let served : IsAbsent k.generated m' =
        call-IsAbsent is_header_value c k inner m spared first.1 in
      (
        first.0,
        load_or_create-absent parses json k' k.generated ttl (run between m')
            (run-IsAbsent k.generated between m' spared' served),
      )
