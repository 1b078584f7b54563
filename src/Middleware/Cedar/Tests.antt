-- ===== src/Middleware/Cedar/Tests.antt =====
-- An engine whose policies are a Boolean, and the paths of its requests.
use acton_dx.Prelude.{
  ℕ, ◌≡◌, ◌↔◌, refl, Bool, true, false, if◌then◌else◌, ◌||◌, Option, none, some, List, [], ◌∷◌,
  Result, ok, err, All,
}
use acton_dx.Prelude.Time.{pos}
use acton_dx.Prelude.Text.{Text, codes, text_eq, Lacks}
use acton_dx.Prelude.Parts.{behind}
use acton_dx.Middleware.Cedar.{
  CedarConfig, closed, opened, is_open, User, Engine, Request, action_text, middleware, can_perform,
}
use acton_dx.Middleware.Cedar.Paths.{normalize_path_generic, replace_numbers}
use acton_dx.Middleware.Cedar.Segments.{numbers_replaced, replace_numbers-behind}
use acton_dx.Middleware.Cedar.Decisions.{
  IsGuarded, IsPlain, decision, middleware-ok_iff, middleware-can_perform,
}

abbrev engine : Engine ℕ Bool Text Unit Text Unit
engine = record {
  parse = λ s. ok s;
  context_from_json = λ entries. ok tt;
  entities_from_json = λ uid attrs. ok tt;
  new_request = λ principal action resource context. ok action;
  is_authorized = λ request policies entities. policies;
}

abbrev strict : CedarConfig
strict = record { enabled = true; failure_mode = closed }

abbrev lenient : CedarConfig
lenient = record { enabled = true; failure_mode = opened }

abbrev user : User
user = record {
  id = pos 7;
  email = codes "a@b.c";
  roles = codes "user" ∷ [];
  permissions = [];
  email_verified = true;
}

abbrev request : Request
request = record {
  method = codes "GET";
  path = codes "/posts/12";
  matched_path = none;
  user = some user;
  headers = λ name. if text_eq name (codes "host") then some (some (codes "a.b")) else none;
}

guarded : (mode : CedarConfig) → mode.enabled ≡ true → IsGuarded mode request
unfolding acton_dx.Prelude.Text.text_eq
guarded mode e = record { enabled = e; not_health = refl; not_ready = refl }

-- The policies deny the request, and it passes in the open mode.
denied_passes : middleware engine lenient none 0 false request ≡ ok tt
unfolding middleware acton_dx.Prelude.Text.text_eq acton_dx.Middleware.Cedar.authorized
    acton_dx.Middleware.Cedar.decide acton_dx.Middleware.Cedar.build_principal
    acton_dx.Middleware.Cedar.build_action acton_dx.Middleware.Cedar.build_resource
    acton_dx.Middleware.Cedar.build_entities acton_dx.Middleware.Cedar.handle_decision
denied_passes = refl

middleware-ok_iff_example : (middleware engine lenient none 0 false request ≡ ok tt) ↔ (
    (u : User) × (allowed : Bool) × (request.user ≡ some u)
    × (decision engine lenient none 0 false request u ≡ ok allowed)
    × ((allowed || is_open opened) ≡ true))
middleware-ok_iff_example =
    middleware-ok_iff engine lenient none 0 false request (guarded lenient refl)

-- The host is no header that the context is extended by.
request_plain : IsPlain request
unfolding acton_dx.Prelude.Text.text_eq
request_plain = record {
  forwarded_for = refl;
  real_ip = refl;
  request_id = refl;
  user_agent = refl;
}

middleware-can_perform_example :
    (middleware engine strict none 0 true request ≡ ok tt)
    ↔ (can_perform engine strict 0 true user (action_text none request) ≡ true)
middleware-can_perform_example =
    middleware-can_perform engine strict none 0 true request user (guarded strict refl) refl refl
      request_plain

abbrev adjacent : List Text
adjacent = codes "p" ∷ codes "1" ∷ codes "2" ∷ []

adjacent_plain : All (Lacks b'/') adjacent
adjacent_plain = ((refl, tt), ((refl, tt), ((refl, tt), tt)))

replace_numbers-behind_example :
    replace_numbers 0 (behind b'/' adjacent) ≡ behind b'/' (numbers_replaced false adjacent)
replace_numbers-behind_example = replace_numbers-behind adjacent adjacent_plain

second_number_left : normalize_path_generic (codes "/p/1/2") ≡ codes "/p/{id}/2"
unfolding normalize_path_generic replace_numbers acton_dx.Middleware.Cedar.Paths.replace_uuids
    acton_dx.Middleware.Cedar.Paths.starts_with_uuid acton_dx.Middleware.Cedar.Paths.dash_hex
    acton_dx.Middleware.Cedar.Paths.hex acton_dx.Middleware.Cedar.Paths.digits_at
second_number_left = refl

uuid_replaced :
    normalize_path_generic (codes "/p/550e8400-e29b-41d4-a716-446655440000/456/c")
    ≡ codes "/p/{id}/{id}/c"
unfolding normalize_path_generic replace_numbers acton_dx.Middleware.Cedar.Paths.replace_uuids
    acton_dx.Middleware.Cedar.Paths.starts_with_uuid acton_dx.Middleware.Cedar.Paths.dash_hex
    acton_dx.Middleware.Cedar.Paths.hex acton_dx.Middleware.Cedar.Paths.digits_at
uuid_replaced = refl
