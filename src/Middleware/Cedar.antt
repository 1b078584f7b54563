-- ===== src/Middleware/Cedar.antt =====
-- acton-dx/src/htmx/middleware/cedar.rs: whether a request is let through. The policy engine is a parameter,
-- with the reading of the clock that the context has. The call of the next service is the outcome `ok`. The
-- pages of the errors are left out.
pub mod Paths
pub mod Segments
pub mod Decisions
mod Tests
use acton_dx.Prelude.{
  ℕ, suc, Bool, true, false, not, ◌||◌, Option, none, some, List, [], ◌∷◌, ◌++◌, String, Result, ok,
  err, and_then, map_err, if◌then◌else◌,
}
use acton_dx.Prelude.Time.{ℤ, pos, negsuc}
use acton_dx.Prelude.Text.{Text, codes, text_eq, show}
use acton_dx.Prelude.Parts.{trim, split}
use acton_dx.Middleware.Cedar.Paths.{normalize_path_generic}

-- The errors of reading the policies and of their task are shown as texts.
pub data CedarError : Type 0 where
  config policy_file policy_parsing forbidden unauthorized internal io join_error :
      Text → CedarError

-- The status of the answer to an error, and its header `HX-Redirect`.
unfoldable pub into_response : CedarError → ℕ × Option Text
into_response (forbidden e) = (403, none)
into_response (unauthorized e) = (401, some (codes "/auth/login"))
into_response _ = (500, none)

pub data FailureMode : Type 0 where
  closed opened : FailureMode

abbrev pub is_open : FailureMode → Bool
is_open closed = false
is_open opened = true

-- What is read of the configuration and of a user.
pub record CedarConfig : Type 0 where
  pub enabled : Bool
  pub failure_mode : FailureMode

pub record User : Type 0 where
  pub id : ℤ
  pub email : Text
  pub roles : List Text
  pub permissions : List Text
  pub email_verified : Bool

-- JSON as far as it is built; `T` is the reading of the clock.
pub data Value (T : Type 0) : Type 0 where
  text : Text → Value T
  texts : List Text → Value T
  number : ℤ → Value T
  boolean : Bool → Value T
  time : T → Value T

-- The policies `P`, entity ids `U`, contexts `C`, requests `Q` and entities `E` of the engine. Its errors are
-- shown as texts.
pub record Engine (T P U C Q E : Type 0) : Type 0 where
  pub parse : Text → Result U Text
  pub context_from_json : List (Text × Value T) → Result C Text
  pub entities_from_json : (uid : Text × Text) → (attrs : List (Text × Value T)) → Result E Text
  pub new_request : U → U → U → C → Result Q Text
  pub is_authorized : Q → P → E → Bool

-- A header is absent, or a value that may not be visible ASCII. The matched path and the user are
-- extensions of the request.
pub record Request : Type 0 where
  pub method : Text
  pub path : Text
  pub matched_path : Option Text
  pub user : Option User
  pub headers : Text → Option (Option Text)

unfoldable pub show_int : ℤ → Text
show_int (pos n) = show n
show_int (negsuc n) = b'-' ∷ show (suc n)

-- `r#"kind::"{}""#`
abbrev uid_text : Text → Text → Text
uid_text kind id = kind ++ codes "::\"" ++ id ++ codes "\""

-- The value of a header, if it is there and visible ASCII.
abbrev pub visible : Option (Option Text) → Option Text
visible none = none
visible (some v) = v

abbrev first_part : List Text → Option Text
first_part [] = none
first_part (part ∷ parts) = some (trim part)

unfoldable pub extract_client_ip : Request → Option Text
extract_client_ip r = elim (visible (r.headers (codes "x-forwarded-for"))) [
  | some xff ↦ first_part (split b',' xff)
  | none ↦ visible (r.headers (codes "x-real-ip"))
]

abbrev pub entry_of : {T : Type 0} → Text → Option Text → List (Text × Value T)
entry_of key none = []
entry_of key (some v) = (key, text v) ∷ []

-- The entries of the context that are the user's, and the time.
unfoldable pub build_context_for_user : {T : Type 0} → T → User → List (Text × Value T)
build_context_for_user now u =
    (codes "roles", texts u.roles)
    ∷ (codes "permissions", texts u.permissions)
    ∷ (codes "email", text u.email)
    ∷ (codes "user_id", number u.id)
    ∷ (codes "verified", boolean u.email_verified)
    ∷ (codes "timestamp", time now)
    ∷ []

unfoldable pub build_context_http : {T : Type 0} → T → Request → User → List (Text × Value T)
unfolding extract_client_ip build_context_for_user
build_context_http now r u =
    build_context_for_user now u
    ++ entry_of (codes "ip") (extract_client_ip r)
    ++ entry_of (codes "requestId") (visible (r.headers (codes "x-request-id")))
    ++ entry_of (codes "userAgent") (visible (r.headers (codes "user-agent")))

abbrev normalized : Option (Text → Text) → Text → Text
normalized none path = normalize_path_generic path
normalized (some normalizer) path = normalizer path

abbrev path_of : Option (Text → Text) → Request → Option Text → Text
path_of normalizer r none = normalized normalizer r.path
path_of normalizer r (some matched) = matched

-- The text of the action of a request.
unfoldable pub action_text : Option (Text → Text) → Request → Text
action_text normalizer r = r.method ++ b' ' ∷ path_of normalizer r r.matched_path

-- What follows the decision.
unfoldable pub handle_decision : FailureMode → Bool → Result Unit CedarError
handle_decision mode allowed =
    if allowed
    then ok tt
    else if is_open mode
    then ok tt
    else err (forbidden (codes "Access denied by policy"))

abbrev pub is_allow : Result Bool CedarError → Bool
is_allow (ok allowed) = allowed
is_allow (err e) = false

module _ {T P U C Q E : Type 0} (engine : Engine T P U C Q E) where
  unfoldable pub build_principal : User → Result U CedarError
  build_principal u =
      map_err (λ e. internal (codes "Invalid principal: " ++ e))
        (engine.parse (uid_text (codes "User") (show_int u.id)))

  unfoldable pub build_resource : Result U CedarError
  build_resource =
      map_err (λ e. internal (codes "Failed to parse resource: " ++ e))
        (engine.parse (uid_text (codes "Resource") (codes "default")))

  unfoldable pub build_entities : User → Result E CedarError
  build_entities u =
      map_err (λ e. internal (codes "Failed to build entities: " ++ e))
        (engine.entities_from_json (codes "User", show_int u.id)
          ((codes "email", text u.email)
            ∷ (codes "roles", texts u.roles)
            ∷ (codes "permissions", texts u.permissions)
            ∷ (codes "id", number u.id)
            ∷ (codes "verified", boolean u.email_verified)
            ∷ []))

  -- `build_action_http` and `parse_action_string`, up to the text of the error.
  unfoldable pub build_action : Text → Result U CedarError
  build_action action =
      map_err (λ e. internal (codes "Invalid action: " ++ e))
        (engine.parse (uid_text (codes "Action") action))

  -- The decision on a user, an action and the entries of a context.
  unfoldable pub decide : P → User → Text → List (Text × Value T) → Result Bool CedarError
  decide policies u action entries = and_then (build_principal u) (λ principal.
      and_then (build_action action) (λ action_uid.
        and_then
          (map_err (λ e. internal (codes "Failed to build context: " ++ e))
            (engine.context_from_json entries))
          (λ context. and_then build_resource (λ resource.
            and_then
              (map_err (λ e. internal (codes "Failed to build Cedar request: " ++ e))
                (engine.new_request principal action_uid resource context))
              (λ request.
                and_then (build_entities u)
                  (λ entities. ok (engine.is_authorized request policies entities)))))))

  -- A request that is not skipped.
  unfoldable pub authorized :
      CedarConfig → Option (Text → Text) → T → P → Request → Option User → Result Unit CedarError
  authorized c normalizer now policies r none = err (
      unauthorized
        (codes "Missing user session. Ensure session middleware runs before Cedar middleware."))
  authorized c normalizer now policies r (some u) =
      and_then (decide policies u (action_text normalizer r) (build_context_http now r u))
        (handle_decision c.failure_mode)

  -- `CedarAuthz::middleware`
  unfoldable pub middleware :
      CedarConfig → Option (Text → Text) → T → P → Request → Result Unit CedarError
  middleware c normalizer now policies r =
      if not c.enabled
      then ok tt
      else if text_eq r.path (codes "/health") || text_eq r.path (codes "/ready")
      then ok tt
      else authorized c normalizer now policies r r.user

  -- `CedarAuthz::can_perform`
  unfoldable pub can_perform : CedarConfig → T → P → User → Text → Bool
  can_perform c now policies u action =
      if not c.enabled
      then true
      else is_allow (decide policies u action (build_context_for_user now u))

  -- `can_update`, `can_delete`, `can_create` and `can_read`
  unfoldable pub can_update : CedarConfig → T → P → User → Text → Bool
  can_update c now policies u path = can_perform c now policies u (codes "PUT " ++ path)

  unfoldable pub can_delete : CedarConfig → T → P → User → Text → Bool
  can_delete c now policies u path = can_perform c now policies u (codes "DELETE " ++ path)

  unfoldable pub can_create : CedarConfig → T → P → User → Text → Bool
  can_create c now policies u path = can_perform c now policies u (codes "POST " ++ path)

  unfoldable pub can_read : CedarConfig → T → P → User → Text → Bool
  can_read c now policies u path = can_perform c now policies u (codes "GET " ++ path)
