-- ===== src/Middleware/Cedar/Decisions.antt =====
-- Who passes the middleware, and what the programmatic check says of it.
use acton_dx.Prelude.{
  ◌≡◌, ◌↔◌, refl, sym, ap, ◌∙◌, Bool, true, false, ◌||◌, Option, none, some, Result, ok, err,
  and_then, arith,
}
use acton_dx.Prelude.Text.{Text, codes, text_eq}
use acton_dx.Middleware.Cedar.{
  CedarConfig, CedarError, FailureMode, closed, opened, is_open, User, Engine, Request,
  extract_client_ip, build_context_for_user, build_context_http, action_text, decide,
  handle_decision, authorized, middleware, can_perform, is_allow, visible,
}

-- The middleware is on, and the path is not one that it skips.
pub record IsGuarded (c : CedarConfig) (r : Request) : Type 0 where
  pub enabled : c.enabled ≡ true
  pub not_health : text_eq r.path (codes "/health") ≡ false
  pub not_ready : text_eq r.path (codes "/ready") ≡ false

handle_decision-ok :
    (m : FailureMode) (allowed : Bool)
    → handle_decision m allowed ≡ ok tt
    → (allowed || is_open m) ≡ true
unfolding handle_decision
handle_decision-ok m true h = refl
handle_decision-ok opened false h = refl
handle_decision-ok closed false h = absurd (ground arith)

ok-handle_decision :
    (m : FailureMode) (allowed : Bool)
    → (allowed || is_open m) ≡ true
    → handle_decision m allowed ≡ ok tt
unfolding handle_decision
ok-handle_decision m true h = refl
ok-handle_decision opened false h = refl
ok-handle_decision closed false h = absurd (ground arith)

-- The outcome for a user with a decision.
passed :
    (m : FailureMode) (d : Result Bool CedarError)
    → and_then d (handle_decision m) ≡ ok tt
    → (allowed : Bool) × (d ≡ ok allowed) × ((allowed || is_open m) ≡ true)
passed m (ok allowed) h = (allowed, refl, handle_decision-ok m allowed h)
passed m (err e) h = absurd (ground arith)

closed-is_allow :
    (d : Result Bool CedarError)
    → (and_then d (handle_decision closed) ≡ ok tt) ↔ (is_allow d ≡ true)
unfolding handle_decision
closed-is_allow (ok true) = (λ h. refl, λ h. refl)
closed-is_allow (ok false) = (λ h. absurd (ground arith), λ h. absurd (ground arith))
closed-is_allow (err e) = (λ h. absurd (ground arith), λ h. absurd (ground arith))

-- None of the four headers that the context is extended by; a request may have any others.
pub record IsPlain (r : Request) : Type 0 where
  pub forwarded_for : visible (r.headers (codes "x-forwarded-for")) ≡ none
  pub real_ip : visible (r.headers (codes "x-real-ip")) ≡ none
  pub request_id : visible (r.headers (codes "x-request-id")) ≡ none
  pub user_agent : visible (r.headers (codes "user-agent")) ≡ none

build_context_http-IsPlain :
    {T : Type 0} (now : T) (r : Request) (u : User)
    → IsPlain r
    → build_context_http now r u ≡ build_context_for_user now u
unfolding build_context_http extract_client_ip build_context_for_user
build_context_http-IsPlain now r u plain =
    rw
      (
        build_context_http, extract_client_ip, plain.forwarded_for, plain.real_ip, plain.request_id,
        plain.user_agent,
      )
      refl

module _ {T P U C Q E : Type 0} (engine : Engine T P U C Q E) (c : CedarConfig)
    (normalizer : Option (Text → Text)) (now : T) (policies : P) (r : Request) where
  middleware-authorized :
      IsGuarded c r
      → middleware engine c normalizer now policies r
        ≡ authorized engine c normalizer now policies r r.user
  unfolding middleware
  middleware-authorized g = rw (middleware, g.enabled, g.not_health, g.not_ready) refl

  -- The decision on the request of a user.
  abbrev pub decision : User → Result Bool CedarError
  decision u = decide engine policies u (action_text normalizer r) (build_context_http now r u)

  authorized-passed :
      (user : Option User)
      → authorized engine c normalizer now policies r user ≡ ok tt
      → (u : User) × (allowed : Bool) × (user ≡ some u)
        × (decision u ≡ ok allowed)
        × ((allowed || is_open c.failure_mode) ≡ true)
  unfolding authorized
  authorized-passed none h = absurd (ground arith)
  authorized-passed (some u) h =
      let (allowed, decided, may) = passed c.failure_mode (decision u) h in
      (u, allowed, refl, decided, may)

  -- A request on a path that is not skipped passes exactly if it has a user for whom there is a decision, and
  -- the decision is to allow it or the failure mode is the open one. So an error of the engine lets no
  -- request pass, and in the open mode a denial does.
  pub middleware-ok_iff :
      IsGuarded c r
      → (middleware engine c normalizer now policies r ≡ ok tt) ↔ (
          (u : User) × (allowed : Bool) × (r.user ≡ some u)
          × (decision u ≡ ok allowed)
          × ((allowed || is_open c.failure_mode) ≡ true))
  unfolding authorized
  middleware-ok_iff g = (
    λ h. authorized-passed r.user (sym (middleware-authorized g) ∙ h),
    λ (u, allowed, there, decided, may).
        middleware-authorized g
        ∙ ap (authorized engine c normalizer now policies r) there
        ∙ ap (λ d. and_then d (handle_decision c.failure_mode)) decided
        ∙ ok-handle_decision c.failure_mode allowed may,
  )

  -- Where the middleware is enabled, in the closed mode, on a path that is not skipped, for a request of a
  -- user that has none of the headers
  -- `x-forwarded-for`, `x-real-ip`, `x-request-id` and `user-agent` with a visible value, whatever its
  -- other headers are, the programmatic check on its action says whether the request passes.
  pub middleware-can_perform :
      (u : User)
      → IsGuarded c r
      → c.failure_mode ≡ closed
      → r.user ≡ some u
      → IsPlain r
      → (middleware engine c normalizer now policies r ≡ ok tt)
        ↔ (can_perform engine c now policies u (action_text normalizer r) ≡ true)
  unfolding authorized can_perform
  middleware-can_perform u g mode there plain =
      let d = decide engine policies u (action_text normalizer r) (build_context_for_user now u) in
      let served : middleware engine c normalizer now policies r
          ≡ and_then d (handle_decision closed) =
        middleware-authorized g
        ∙ ap (authorized engine c normalizer now policies r) there
        ∙ ap
            (λ x.
              and_then (decide engine policies u (action_text normalizer r) x)
                (handle_decision c.failure_mode))
            (build_context_http-IsPlain now r u plain)
        ∙ ap (λ m. and_then d (handle_decision m)) mode in
      let asked : can_perform engine c now policies u (action_text normalizer r) ≡ is_allow d =
        rw (can_perform, g.enabled) refl in
      (
        λ h. asked ∙ (closed-is_allow d).0 (sym served ∙ h),
        λ h. served ∙ (closed-is_allow d).1 (sym asked ∙ h),
      )
