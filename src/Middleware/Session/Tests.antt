-- ===== src/Middleware/Session/Tests.antt =====
-- Requests of a client that keeps its cookie, with numbers for the JSON values and the bodies.
use acton_dx.Prelude.{
  ◌+◌, ◌*◌, ℕ, ◌≡◌, ◌≢◌, ◌≤◌, refl, sym, ap, Bool, true, false, Option, none, some, List, [], ◌∷◌,
  ◌++◌, String, string_discrete, arith, Result, ok, err, All,
}
use text.Mathlib.TextEquality.{eq_iff}
use acton_dx.Prelude.Dict
use acton_dx.Prelude.Time.{hours_24}
use acton_dx.Prelude.Text.{Text, codes, Lacks, text_eq, split_once}
use acton_dx.Prelude.Parts.{trim, trim_start, trim_end}
use acton_dx.Auth.Session.{SessionData, FlashMessage, touch, flash, info}
use acton_dx.Auth.Session as Session
use acton_dx.Agents.SessionManager.{
  Message, empty, load, save, run, take_flashes, take_flash_messages, save_session,
}
use acton_dx.Middleware.Session.{
  SessionConfig, lax, Response, Circumstances, Inner, find_session_id, session_id_or,
  extract_session_id, cookie_value, load_or_create, final_session_data, call,
}
use acton_dx.Middleware.Session.Cookies.{
  kept, header, IsToken, IsForeign, extract_session_id-cookie_value,
}
use acton_dx.Middleware.Session.Continuity.{call-plants_no_session, call-continues}
use acton_dx.Middleware.Session.Flashes.{take_flashes-call}

-- In these tests, every text is taken for a UUID and for the value of a header.
abbrev any : {A : Type 0} → A → Bool
any x = true

abbrev c : SessionConfig
c = record {
  cookie_name = codes "sid";
  cookie_path = codes "/";
  http_only = true;
  secure = false;
  same_site = lax;
  max_age_secs = 86_400;
  agent_timeout_ms = 100;
}

abbrev at : ℕ → String → Circumstances
at t id = record { in_time = true; now = t; later = t; created = t; generated = id }

-- A handler that takes the flash messages through the manager, and answers with a body.
abbrev handler : Inner ℕ ℕ ℕ
handler id s =
    ((5, take_flash_messages id) ∷ [], ok (record { session = none; set_cookie = []; body = 7 }))

abbrev answer : Response ℕ ℕ
answer = record { session = none; set_cookie = []; body = 7 }

abbrev theme : List Text
theme = codes "t=d" ∷ []

name_IsToken : IsToken (codes "sid")
name_IsToken = record {
  no_space = (refl, (refl, (refl, tt)));
  no_equals = (refl, (refl, (refl, tt)));
  no_semicolon = (refl, (refl, (refl, tt)));
}

id_IsToken : IsToken (codes "a1")
id_IsToken = record {
  no_space = (refl, (refl, tt));
  no_equals = (refl, (refl, tt));
  no_semicolon = (refl, (refl, tt));
}

theme_IsForeign : IsForeign any (codes "sid") (codes "t=d")
unfolding split_once trim trim_start trim_end text_eq
theme_IsForeign n v e =
    ap (λ o. elim o [ none ↦ true | some q ↦ text_eq (trim q.0) (codes "sid") ]) (sym e)

sent_back : header (theme ++ kept (cookie_value c "a1") ∷ []) ≡ codes "t=d; sid=a1"
unfolding kept cookie_value split_once
sent_back = refl

theme_plain : All (Lacks b';') theme
theme_plain = ((refl, (refl, (refl, tt))), tt)

extract_session_id-cookie_value_example :
    extract_session_id any
      (some (some (header (theme ++ kept (cookie_value c "a1") ∷ []))))
      (codes "sid")
    ≡ some "a1"
extract_session_id-cookie_value_example =
    extract_session_id-cookie_value any c "a1" theme [] name_IsToken id_IsToken refl theme_plain tt
      (theme_IsForeign, tt)

-- The first request has no cookie, and is answered at 5. Then another client's session is saved.
abbrev others_saved : List (ℕ × Message ℕ)
others_saved = (6, save_session "b2" (Session.new 6)) ∷ []

b2_ne_a1 : ◌≢◌ {A = String} "b2" "a1"
b2_ne_a1 = ground (arith, eq_iff "b2" "a1")

first_is_new :
    load_or_create (at 5 "a1") (extract_session_id any none (codes "sid")) empty
    ≡ ("a1", Session.new {J = ℕ} 5, true)
unfolding load_or_create extract_session_id
first_is_new = refl

in_a_day : 9 ≤ (final_session_data answer (Session.new 5)).expires_at
unfolding final_session_data Session.new
in_a_day = omega arith

call-continues_example :
    load_or_create
      (at 9 "c3")
      (extract_session_id any
        (some (some (header (theme ++ kept (cookie_value c "a1") ∷ []))))
        (codes "sid"))
      (run others_saved (call any any c (at 5 "a1") none handler empty).0)
    ≡ ("a1", touch 9 hours_24 (Session.new 5), false)
unfolding Session.new final_session_data
call-continues_example =
    call-continues any any c (at 5 "a1") (at 9 "c3") none handler empty "a1" (Session.new 5) true
      ((5, take_flash_messages "a1") ∷ []) others_saved answer theme [] first_is_new refl
      (b2_ne_a1, tt) refl in_a_day name_IsToken id_IsToken refl theme_plain tt (theme_IsForeign, tt)

-- A client makes up the id "b2".
b2_ne_c3 : ◌≢◌ {A = String} "b2" "c3"
b2_ne_c3 = ground (arith, eq_iff "b2" "c3")

no_b2 : Dict.lookup string_discrete "b2" (empty {J = ℕ}).sessions ≡ none
unfolding empty Dict.lookup
no_b2 = refl

call-plants_no_session_example :
    Dict.lookup string_discrete "b2"
      (call any any c (at 5 "c3") (some (some (codes "sid=b2"))) handler empty).0.sessions
    ≡ none
call-plants_no_session_example =
    call-plants_no_session any any c (at 5 "c3") (some (some (codes "sid=b2"))) handler empty "b2"
      b2_ne_c3 no_b2 (λ id s. (tt, tt))

-- A session with a message: the handler takes it, and it is there again after the request.
abbrev greeted : SessionData ℕ
greeted = record (Session.new 0) { flash_messages = flash info "hello" ∷ [] }

greeted_loaded :
    load_or_create
      (at 5 "c3")
      (extract_session_id any (some (some (codes "sid=a1"))) (codes "sid"))
      (save "a1" greeted empty)
    ≡ ("a1", touch 5 hours_24 greeted, false)
unfolding load_or_create extract_session_id find_session_id acton_dx.Prelude.Parts.split
    session_id_or split_once trim trim_end trim_start text_eq Session.try_from_string load
    Dict.lookup save Dict.insert empty string_discrete Session.new
greeted_loaded = refl

take_flashes-call_example :
    (take_flashes "a1"
      (call any any c
        (at 5 "c3")
        (some (some (codes "sid=a1")))
        handler
        (save "a1" greeted empty)).0).1
    ≡ flash info "hello" ∷ []
unfolding final_session_data touch
take_flashes-call_example =
    take_flashes-call any any c (at 5 "c3") (some (some (codes "sid=a1"))) handler
      (save "a1" greeted empty) "a1" (touch 5 hours_24 greeted) false
      ((5, take_flash_messages "a1") ∷ []) answer greeted_loaded refl
