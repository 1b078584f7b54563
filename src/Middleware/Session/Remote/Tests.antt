-- ===== src/Middleware/Session/Remote/Tests.antt =====
-- A client of an application with the auth service: every text of an odd shape is no session id.
use acton_dx.Prelude.{
  ℕ, ◌≡◌, ◌≢◌, refl, Bool, true, false, not, none, some, [], ◌∷◌, String, arith, ok,
}
use text.Mathlib.Text.{◌==◌ as text_beq}
use text.Mathlib.TextEquality.{eq_iff}
use acton_dx.Prelude.Dict
use acton_dx.Services.Sessions.{cleanup, empty, run}
use acton_dx.Middleware.Session.{default}
use acton_dx.Middleware.Session.Remote.{
  answered, Json, Circumstances, Inner, ttl_of, load_or_create, or_local, call,
}
use acton_dx.Middleware.Session.Remote.Absence.{is_resumed, IsAbsent}
use acton_dx.Middleware.Session.Remote.Ids.{call-forgets}

abbrev json : Json String
json = record { to_value = λ s. ok s; as_str = λ s. some s; to_string = λ s. some s }

-- The ids of the service are told from the ids of sessions.
abbrev parses : String → Bool
parses s = not (text_beq s "SsPl_v4")

abbrev all_well : String → Circumstances
all_well generated = record {
  configured = true;
  validating = answered;
  creating = answered;
  saving = answered;
  now = 1;
  local_now = 1;
  service_id = "SsPl_v4";
  service_csrf = "t";
  generated = generated;
}

abbrev handler : Inner String ℕ ℕ
handler id s = ([], ok (record { session = none; set_cookie = []; body = 7 }))

foreign : parses "SsPl_v4" ≡ false
foreign = refl

other : ◌≢◌ {A = String} "SsPl_v4" "67e55044"
other = ground (arith, eq_iff "SsPl_v4" "67e55044")

absent : IsAbsent "67e55044" empty
unfolding empty Dict.lookup
absent = refl

call-forgets_example :
    ((or_local
        (all_well "67e55044")
        (load_or_create parses json (all_well "67e55044") none (ttl_of 86_400) empty).1).0
      ≡ "67e55044")
    × (is_resumed
          (load_or_create parses json (all_well "f9168c5e") (some "67e55044") (ttl_of 86_400) (
            run
              ((9, cleanup) ∷ [])
              (call parses
                (λ s. true)
                json
                (default true)
                (all_well "67e55044")
                none
                handler
                empty).0)).1
        ≡ false)
unfolding default
call-forgets_example =
    call-forgets parses json (λ s. true) (default true) (all_well "67e55044") (all_well "f9168c5e")
      handler empty ((9, cleanup) ∷ []) foreign other absent (λ id s. tt) (tt, tt)
