-- ===== src/Agents/SessionManager/Expiry.antt =====
-- The cleanup of expired sessions.
use acton_dx.Prelude.{
  ℕ, ◌≡◌, ◌≤◌, ◌<◌, inl, inr, refl, true, none, some, List, [], ◌∷◌, string_discrete, arith,
  if◌then◌else◌, dec_le, Bool-cases, Option-cases, subst,
}
use acton_dx.Prelude.Dict
use acton_dx.Prelude.Set
use acton_dx.Auth.Session.{SessionId, SessionData}
use acton_dx.Agents.SessionManager.{
  SessionManagerAgent, Message, push, pop_due, remove_all, empty, save, take_flashes, delete,
  cleanup_expired, add_flash, with_flash, without_flashes, save_session, take_flash_messages,
  delete_session, cleanup, add_flash_message, step, run,
}
use acton_dx.Agents.SessionManager.DueQueue.{
  Queued, IsSorted, push-IsSorted, Queued-push_self, Queued-push, pop_due-IsSorted, pop_due-due,
  pop_due-later,
}

module _ {J : Type 0} where
  pub remove_all-lookup :
      (id : SessionId) (ids : List SessionId) (sessions : List (SessionId × SessionData J))
      → Dict.lookup string_discrete id (remove_all ids sessions) ≡ (
          if Set.contains string_discrete id ids
          then none
          else Dict.lookup string_discrete id sessions)
  unfolding remove_all Set.contains
  remove_all-lookup id [] sessions = refl
  remove_all-lookup id (j ∷ ids) sessions = ground (
    arith,
    remove_all-lookup id ids (Dict.remove string_discrete j sessions),
    Dict.lookup-remove string_discrete id j sessions,
  )

-- The queue is in order, and each stored session stands in it with its expiry.
pub record IsValid {J : Type 0} (m : SessionManagerAgent J) : Type 0 where
  pub sorted : IsSorted m.expiry_queue
  pub tracked :
      (id : SessionId) (s : SessionData J)
      → Dict.lookup string_discrete id m.sessions ≡ some s
      → Queued s.expires_at id m.expiry_queue

module _ {J : Type 0} where
  empty-IsValid : IsValid (empty {J = J})
  unfolding empty Dict.lookup
  empty-IsValid = record { sorted = tt; tracked = λ id s e. cc }

  save-IsValid :
      (id : SessionId) (s : SessionData J) (m : SessionManagerAgent J)
      → IsValid m
      → IsValid (save id s m)
  unfolding save
  save-IsValid id s m v = record {
    sorted = push-IsSorted (s.expires_at, id) m.expiry_queue v.sorted;
    tracked = λ j t e. elim (string_discrete id j) [
      | yes same ↦
          let ex : s.expires_at ≡ t.expires_at =
            ground (arith, Dict.lookup-insert string_discrete j id s m.sessions) in
          subst (λ x. Queued x j (push (s.expires_at, id) m.expiry_queue)) ex
            (subst (λ y. Queued s.expires_at y (push (s.expires_at, id) m.expiry_queue)) same
              (Queued-push_self (s.expires_at, id) m.expiry_queue))
      | no other ↦
          Queued-push t.expires_at j (s.expires_at, id) m.expiry_queue
            (v.tracked j t (ground (arith, Dict.lookup-insert string_discrete j id s m.sessions)))
    ];
  }

  delete-IsValid : (id : SessionId) (m : SessionManagerAgent J) → IsValid m → IsValid (delete id m)
  unfolding delete
  delete-IsValid id m v = record {
    sorted = v.sorted;
    tracked =
        λ j t e. v.tracked j t (ground (arith, Dict.lookup-remove string_discrete j id m.sessions));
  }

  lookup_before_modify :
      (id j : SessionId) (f : SessionData J → SessionData J)
      (sessions : List (SessionId × SessionData J)) (t : SessionData J)
      → ((s : SessionData J) → (f s).expires_at ≡ s.expires_at)
      → Dict.lookup string_discrete j (Dict.modify string_discrete id f sessions) ≡ some t
      → (s : SessionData J) × (Dict.lookup string_discrete j sessions ≡ some s)
        × (s.expires_at ≡ t.expires_at)
  lookup_before_modify id j f sessions t same e =
      elim (Option-cases (Dict.lookup string_discrete j sessions)) [
        | inl absent ↦ absurd (ground (arith, Dict.lookup-modify string_discrete j id f sessions))
        | inr (s, present) ↦
            (s, present, ground (arith, same s, Dict.lookup-modify string_discrete j id f sessions))
      ]

  modify-IsValid :
      (id : SessionId) (f : SessionData J → SessionData J) (m : SessionManagerAgent J)
      → ((s : SessionData J) → (f s).expires_at ≡ s.expires_at)
      → IsValid m
      → IsValid (record m { sessions = Dict.modify string_discrete id f m.sessions })
  modify-IsValid id f m same v = record {
    sorted = v.sorted;
    tracked = λ j t e.
        let (s, present, ex) = lookup_before_modify id j f m.sessions t same e in
        subst (λ x. Queued x j m.expiry_queue) ex (v.tracked j s present);
  }

  -- A session that a cleanup leaves was stored before, and its queue entry is not due.
  lookup_before_cleanup :
      (now : ℕ) (j : SessionId) (t : SessionData J) (m : SessionManagerAgent J)
      → IsValid m
      → Dict.lookup string_discrete j (cleanup_expired now m).sessions ≡ some t
      → (Dict.lookup string_discrete j m.sessions ≡ some t) × (now < t.expires_at)
  unfolding cleanup_expired
  lookup_before_cleanup now j t m v e =
      let due = (pop_due now m.expiry_queue).0 in
      let split = remove_all-lookup j due m.sessions in
      elim (Bool-cases (Set.contains string_discrete j due)) [
        | inl dropped ↦ absurd (ground arith)
        | inr kept ↦
            let stored : Dict.lookup string_discrete j m.sessions ≡ some t = ground arith in
            elim (dec_le t.expires_at now) [
              | yes over ↦ absurd (
                  ground (
                    arith,
                    pop_due-due now t.expires_at j m.expiry_queue v.sorted (v.tracked j t stored)
                        over,
                  ))
              | no fresh ↦ (stored, omega arith)
            ]
      ]

  cleanup_expired-IsValid :
      (now : ℕ) (m : SessionManagerAgent J) → IsValid m → IsValid (cleanup_expired now m)
  unfolding cleanup_expired
  cleanup_expired-IsValid now m v = record {
    sorted = pop_due-IsSorted now m.expiry_queue v.sorted;
    tracked = λ j t e.
        let (stored, fresh) = lookup_before_cleanup now j t m v e in
        pop_due-later now t.expires_at j m.expiry_queue (v.tracked j t stored) fresh;
  }

  -- Every message keeps the queue in order and each stored session in it.
  step-IsValid : (c : ℕ × Message J) (m : SessionManagerAgent J) → IsValid m → IsValid (step c m)
  unfolding step take_flashes add_flash
  step-IsValid (now, save_session id s) m v = save-IsValid id s m v
  step-IsValid (now, take_flash_messages id) m v = modify-IsValid id without_flashes m (λ s. refl) v
  step-IsValid (now, delete_session id) m v = delete-IsValid id m v
  step-IsValid (now, cleanup) m v = cleanup_expired-IsValid now m v
  step-IsValid (now, add_flash_message id f) m v = modify-IsValid id (with_flash f) m (λ s. refl) v

  run-IsValid :
      (cs : List (ℕ × Message J)) (m : SessionManagerAgent J) → IsValid m → IsValid (run cs m)
  unfolding run
  run-IsValid [] m v = v
  run-IsValid (c ∷ cs) m v = run-IsValid cs (step c m) (step-IsValid c m v)

  -- After any messages to a new manager, a cleanup at `now` leaves no session whose expiry is at
  -- or before `now`, and what it leaves was stored before.
  pub cleanup_leaves_fresh :
      (cs : List (ℕ × Message J)) (now : ℕ) (id : SessionId) (s : SessionData J)
      → Dict.lookup string_discrete id (cleanup_expired now (run cs empty)).sessions ≡ some s
      → (Dict.lookup string_discrete id (run cs empty).sessions ≡ some s) × (now < s.expires_at)
  cleanup_leaves_fresh cs now id s e =
      lookup_before_cleanup now id s (run cs empty) (run-IsValid cs empty empty-IsValid) e

  -- After any messages to a new manager, a stored session that is saved again is dropped by a
  -- cleanup at or after the expiry it had before, however late the new expiry is.
  pub cleanup_drops_renewed :
      (cs : List (ℕ × Message J)) (now : ℕ) (id : SessionId) (old new : SessionData J)
      → Dict.lookup string_discrete id (run cs empty).sessions ≡ some old
      → old.expires_at ≤ now
      → Dict.lookup string_discrete id (cleanup_expired now (save id new (run cs empty))).sessions
        ≡ none
  unfolding cleanup_expired save
  cleanup_drops_renewed cs now id old new e over =
      let m = run cs empty in
      let v = run-IsValid cs empty empty-IsValid in
      let q = push (new.expires_at, id) m.expiry_queue in
      let due : Set.contains string_discrete id (pop_due now q).0 ≡ true =
        pop_due-due now old.expires_at id q
          (push-IsSorted (new.expires_at, id) m.expiry_queue v.sorted)
          (Queued-push old.expires_at id (new.expires_at, id) m.expiry_queue (v.tracked id old e))
          over in
      rw (
        remove_all-lookup id (pop_due now q).0 (Dict.insert string_discrete id new m.sessions),
        due,
      )
