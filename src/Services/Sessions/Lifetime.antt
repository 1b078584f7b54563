-- ===== src/Services/Sessions/Lifetime.antt =====
-- A session of the service lives for the time it was created with, whatever is asked about it.
use acton_dx.Prelude.{
  ℕ, ◌+◌, ◌*◌, ◌-◌, min, ◌≡◌, ◌≢◌, ◌≤◌, ◌<◌, ◌^◌, inl, inr, refl, ap, ◌∙◌, not, Option, none, some,
  List, [], ◌∷◌, String, string_discrete, All, arith, ok, is_some, leb, true, Bool-cases, if_pos,
  if_neg,
}
use acton_dx.Prelude.Dict
use acton_dx.Prelude.Dict.{option_map, option_filter}
use acton_dx.Prelude.Time.{ℤ, second}
use acton_dx.Services.Sessions.{
  SessionData, SessionManagerAgent, Message, create_session, update_session, delete_session,
  add_flash_message, take_flash_messages, cleanup, new, opened, in_range, max_seconds, max_utc,
  is_expired, empty, create, load, updated, with_flash, without_flashes, modified, update, delete,
  add_flash, take_flashes, cleanup_expired, step, run,
}
use acton_dx.Services.Sessions.Service.{arrives, valid_session, validate_session, map_ok}

-- Each id stands once.
abbrev pub IsValid : SessionManagerAgent → Type 0
IsValid m = Dict.Distinct string_discrete m.sessions

module _ (id : String) (now : ℕ) where
  -- A message up to a time that neither creates nor deletes a session of this id.
  abbrev pub Keeps : ℕ × Message → Type 0
  Keeps (t, create_session j csrf ttl user_id) = (j ≢ id) × (t ≤ now)
  Keeps (t, update_session j new_entries user_id) = t ≤ now
  Keeps (t, delete_session j) = (j ≢ id) × (t ≤ now)
  Keeps (t, add_flash_message j f) = t ≤ now
  Keeps (t, take_flash_messages j) = t ≤ now
  Keeps (t, cleanup) = t ≤ now

  -- There with this expiry, or gone because of it.
  abbrev LivesUntil : ℕ → Option SessionData → Type 0
  LivesUntil e none = e < now
  LivesUntil e (some s) = s.expires_at ≡ e

  LivesUntil-map :
      (e : ℕ) (f : SessionData → SessionData) (o : Option SessionData)
      → ((s : SessionData) → (f s).expires_at ≡ s.expires_at)
      → LivesUntil e o
      → LivesUntil e (option_map f o)
  LivesUntil-map e f none keeps h = h
  LivesUntil-map e f (some s) keeps h = keeps s ∙ h

  LivesUntil-filter :
      (e t : ℕ) (o : Option SessionData)
      → t ≤ now
      → LivesUntil e o
      → LivesUntil e (option_filter (λ s. not (is_expired t s)) o)
  unfolding is_expired
  LivesUntil-filter e t none b h = h
  LivesUntil-filter e t (some s) b h = elim (Bool-cases (is_expired t s)) [
    | inl gone ↦ rw gone (ground arith)
    | inr there ↦ rw there h
  ]

  abbrev found : SessionManagerAgent → Option SessionData
  found m = Dict.lookup string_discrete id m.sessions

  modified-LivesUntil :
      (e : ℕ) (j : String) (f : SessionData → SessionData) (m : SessionManagerAgent)
      → ((s : SessionData) → (f s).expires_at ≡ s.expires_at)
      → LivesUntil e (found m)
      → LivesUntil e (found (modified j f m))
  modified-LivesUntil e j f m keeps h =
      rw (Dict.lookup-modify string_discrete id j f m.sessions) (elim (string_discrete j id) [
        | yes same ↦ rw (if_pos (string_discrete j id) same) (LivesUntil-map e f (found m) keeps h)
        | no other ↦ rw (if_neg (string_discrete j id) other) h
      ])

  create-LivesUntil_other :
      (e t : ℕ) (j csrf : String) (ttl : ℕ) (user_id : Option ℤ) (m : SessionManagerAgent)
      → j ≢ id
      → LivesUntil e (found m)
      → LivesUntil e (found (create t j csrf ttl user_id m).0)
  unfolding create new
  create-LivesUntil_other e t j csrf ttl user_id m other h = elim (Bool-cases (in_range t ttl)) [
    | inl fits ↦
        rw
          (
            create,
            new,
            fits,
            Dict.lookup-insert string_discrete id j (opened t j csrf ttl user_id) m.sessions,
            if_neg (string_discrete j id) other,
          )
          h
    | inr panics ↦ rw (create, new, panics) h
  ]

  step-LivesUntil :
      (e : ℕ) (c : ℕ × Message) (m : SessionManagerAgent)
      → IsValid m
      → Keeps c
      → LivesUntil e (found m)
      → LivesUntil e (found (step c m))
  unfolding step update delete add_flash take_flashes cleanup_expired
  step-LivesUntil e (t, create_session j csrf ttl user_id) m v k h =
      create-LivesUntil_other e t j csrf ttl user_id m k.0 h
  step-LivesUntil e (t, update_session j new_entries user_id) m v k h =
      modified-LivesUntil e j (updated new_entries user_id) m (λ s. refl) h
  step-LivesUntil e (t, delete_session j) m v k h =
      rw (Dict.lookup-remove string_discrete id j m.sessions, if_neg (string_discrete j id) k.0) h
  step-LivesUntil e (t, add_flash_message j f) m v k h =
      modified-LivesUntil e j (with_flash f) m (λ s. refl) h
  step-LivesUntil e (t, take_flash_messages j) m v k h =
      modified-LivesUntil e j without_flashes m (λ s. refl) h
  step-LivesUntil e (t, cleanup) m v k h =
      rw (Dict.lookup-retain string_discrete id (λ s. not (is_expired t s)) m.sessions v)
        (LivesUntil-filter e t (found m) k h)

create-IsValid :
    (t : ℕ) (j csrf : String) (ttl : ℕ) (user_id : Option ℤ) (m : SessionManagerAgent)
    → IsValid m
    → IsValid (create t j csrf ttl user_id m).0
unfolding create new
create-IsValid t j csrf ttl user_id m v = elim (Bool-cases (in_range t ttl)) [
  | inl fits ↦
      rw (create, new, fits)
        (Dict.Distinct-insert string_discrete j (opened t j csrf ttl user_id) m.sessions v)
  | inr panics ↦ rw (create, new, panics) v
]

step-IsValid : (c : ℕ × Message) (m : SessionManagerAgent) → IsValid m → IsValid (step c m)
unfolding step update delete add_flash take_flashes cleanup_expired
step-IsValid (t, create_session j csrf ttl user_id) m v = create-IsValid t j csrf ttl user_id m v
step-IsValid (t, update_session j new_entries user_id) m v =
    Dict.Distinct-modify string_discrete j (updated new_entries user_id) m.sessions v
step-IsValid (t, delete_session j) m v = Dict.Distinct-remove string_discrete j m.sessions v
step-IsValid (t, add_flash_message j f) m v =
    Dict.Distinct-modify string_discrete j (with_flash f) m.sessions v
step-IsValid (t, take_flash_messages j) m v =
    Dict.Distinct-modify string_discrete j without_flashes m.sessions v
step-IsValid (t, cleanup) m v =
    Dict.Distinct-retain string_discrete (λ s. not (is_expired t s)) m.sessions v

run-IsValid : (cs : List (ℕ × Message)) (m : SessionManagerAgent) → IsValid m → IsValid (run cs m)
unfolding run
run-IsValid [] m v = v
run-IsValid (c ∷ cs) m v = run-IsValid cs (step c m) (step-IsValid c m v)

run-LivesUntil :
    (id : String) (now e : ℕ) (cs : List (ℕ × Message)) (m : SessionManagerAgent)
    → IsValid m
    → All (Keeps id now) cs
    → LivesUntil id now e (found id now m)
    → LivesUntil id now e (found id now (run cs m))
unfolding run
run-LivesUntil id now e [] m v k h = h
run-LivesUntil id now e (c ∷ cs) m v k h =
    run-LivesUntil id now e cs (step c m) (step-IsValid c m v) k.1
      (step-LivesUntil id now e c m v k.0 h)

valid_session-LivesUntil :
    (id : String) (now e : ℕ) (o : Option SessionData)
    → LivesUntil id now e o
    → is_some (valid_session now o) ≡ leb now e
unfolding valid_session is_expired
valid_session-LivesUntil id now e none h = ground arith
valid_session-LivesUntil id now e (some s) h = ground arith

-- The times of a session that is created can be computed.
abbrev pub IsInRange : (created ttl : ℕ) → Type 0
IsInRange created ttl = (ttl ≤ max_seconds) × (created + ttl * second ≤ max_utc)

-- A message that does not panic.
abbrev pub Returns : ℕ × Message → Type 0
Returns (t, create_session j csrf ttl user_id) = IsInRange t ttl
Returns (t, update_session j new_entries user_id) = Unit
Returns (t, delete_session j) = Unit
Returns (t, add_flash_message j f) = Unit
Returns (t, take_flash_messages j) = Unit
Returns (t, cleanup) = Unit

in_range-IsInRange : (now ttl : ℕ) → IsInRange now ttl → in_range now ttl ≡ true
unfolding in_range
in_range-IsInRange now ttl (small, before_end) = ground arith

create-LivesUntil :
    (now t : ℕ) (id csrf : String) (ttl : ℕ) (user_id : Option ℤ) (m : SessionManagerAgent)
    → IsInRange t ttl
    → LivesUntil id now (t + ttl * second) (found id now (create t id csrf ttl user_id m).0)
unfolding create new
create-LivesUntil now t id csrf ttl user_id m fits =
    rw
      (
        create,
        new,
        in_range-IsInRange t ttl fits,
        Dict.lookup-insert string_discrete id id (opened t id csrf ttl user_id) m.sessions,
        if_pos (string_discrete id id) refl,
      )
      (ap (λ n. t + n * second) {x = min ttl (2 ^ 63 - 1)} {y = ttl} (omega (arith, fits.0)))

-- A session that the service created is valid up to the end of its time to live, and not after: whatever
-- sessions are created, updated, deleted and cleaned up in between, as long as none is created under its
-- id and it is not deleted. Updates do not make it live longer. The times of it and of every other session
-- that is created are in the range of chrono, so that no handler panics.
pub validate_session-create :
    (before after : List (ℕ × Message)) (created now : ℕ) (id csrf : String) (ttl : ℕ)
    (user_id : Option ℤ)
    → IsInRange created ttl
    → All Returns before
    → All Returns after
    → All (Keeps id now) after
    → map_ok is_some (
        validate_session arrives now id
          (run after (create created id csrf ttl user_id (run before empty)).0))
      ≡ ok (leb now (created + ttl * second))
unfolding validate_session load step empty
validate_session-create before after created now id csrf ttl user_id fits calm calm' kept =
    let m = run before empty in
    let m' = (create created id csrf ttl user_id m).0 in
    let e = created + ttl * second in
    let valid : IsValid m = run-IsValid before empty tt in
    let valid' : IsValid m' = step-IsValid (created, create_session id csrf ttl user_id) m valid in
    let there : LivesUntil id now e (found id now m') =
      create-LivesUntil now created id csrf ttl user_id m fits in
    ap ok (
      valid_session-LivesUntil id now e (found id now (run after m'))
        (run-LivesUntil id now e after m' valid' kept there))
