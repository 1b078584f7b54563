-- ===== src/Middleware/Csrf/Once.antt =====
-- A token lets one request pass.
use acton_dx.Prelude.{
  ℕ, ◌≡◌, ◌≢◌, Bool, true, false, Option, none, some, List, string_discrete, arith, All, refl, sym,
  ap, ◌∙◌,
}
use acton_dx.Prelude.Set
use acton_dx.Auth.Session.{SessionId}
use acton_dx.Agents.CsrfManager.{
  CsrfToken, CsrfManagerAgent, Message, empty, is_valid_token, validate_and_rotate_token, run,
}
use acton_dx.Agents.CsrfManager.SingleUse.{GeneratesOther, accepted_once}
use acton_dx.Middleware.Csrf.{
  CsrfConfig, Request, passed, forbidden, not_validated, is_method_safe, extract_csrf_token,
  validated, checked, call,
}

-- A request that changes something, on a path that is not skipped.
pub record IsGuarded (c : CsrfConfig) (r : Request) : Type 0 where
  pub unsafe : is_method_safe r.method ≡ false
  pub not_skipped : Set.contains string_discrete r.path c.skip_paths ≡ false

call-checked :
    (c : CsrfConfig) (in_time : Bool) (now later : ℕ) (fresh : CsrfToken) (r : Request)
    (m : CsrfManagerAgent)
    → IsGuarded c r
    → call c in_time now later fresh r m
      ≡ checked in_time now later fresh r.session_id (extract_csrf_token r c) m
unfolding call
call-checked c in_time now later fresh r m g = rw (call, g.unsafe, g.not_skipped) refl

-- What a request that passes has.
checked-passed :
    (in_time : Bool) (now later : ℕ) (fresh : CsrfToken) (session : Option SessionId)
    (token : Option CsrfToken) (m : CsrfManagerAgent)
    → (checked in_time now later fresh session token m).1 ≡ passed
    → (id : SessionId) × (t : CsrfToken) × (session ≡ some id)
      × (token ≡ some t)
      × (is_valid_token now id t m ≡ true)
unfolding checked validated validate_and_rotate_token
checked-passed in_time now later fresh none token m h = absurd (ground arith)
checked-passed in_time now later fresh (some id) none m h = absurd (ground arith)
checked-passed in_time now later fresh (some id) (some t) m h = (id, t, refl, refl, ground arith)

-- A guarded request passes only with a session, and with a token in its header that is valid for it.
call-passed :
    (c : CsrfConfig) (in_time : Bool) (now later : ℕ) (fresh : CsrfToken) (r : Request)
    (m : CsrfManagerAgent)
    → IsGuarded c r
    → (call c in_time now later fresh r m).1 ≡ passed
    → (id : SessionId) × (t : CsrfToken) × (r.session_id ≡ some id)
      × (extract_csrf_token r c ≡ some t)
      × (is_valid_token now id t m ≡ true)
call-passed c in_time now later fresh r m g h =
    checked-passed in_time now later fresh r.session_id (extract_csrf_token r c) m
      (sym (ap (λ p. p.1) (call-checked c in_time now later fresh r m g)) ∙ h)

call-state :
    (c : CsrfConfig) (in_time : Bool) (now later : ℕ) (fresh t : CsrfToken) (id : SessionId)
    (r : Request) (m : CsrfManagerAgent)
    → IsGuarded c r
    → r.session_id ≡ some id
    → extract_csrf_token r c ≡ some t
    → call c in_time now later fresh r m ≡ validated in_time now later fresh id t m
unfolding checked
call-state c in_time now later fresh t id r m g session held =
    call-checked c in_time now later fresh r m g
    ∙ ap (λ s. checked in_time now later fresh s (extract_csrf_token r c) m) session
    ∙ ap (λ h. checked in_time now later fresh (some id) h m) held

validated-refused :
    (in_time : Bool) (now later : ℕ) (fresh t : CsrfToken) (id : SessionId) (m : CsrfManagerAgent)
    → is_valid_token now id t m ≡ false
    → (validated in_time now later fresh id t m).1 ≡ forbidden not_validated
unfolding validated validate_and_rotate_token
validated-refused true now later fresh t id m h = rw h refl
validated-refused false now later fresh t id m h = refl

validated-valid :
    (in_time : Bool) (now later : ℕ) (fresh t : CsrfToken) (id : SessionId) (m : CsrfManagerAgent)
    → (validated in_time now later fresh id t m).1 ≡ passed
    → is_valid_token now id t m ≡ true
unfolding validated validate_and_rotate_token
validated-valid in_time now later fresh t id m h = ground arith

-- A token that let a guarded request pass lets no later one of its session pass, whatever messages the
-- manager gets in between, as long as the manager does not generate that token again.
pub call-passes_once :
    (c : CsrfConfig) (before after : List (ℕ × ℕ × Message)) (in_time in_time' : Bool)
    (now later now' later' : ℕ) (fresh fresh' t : CsrfToken) (id : SessionId) (r r' : Request)
    → IsGuarded c r
    → IsGuarded c r'
    → (r.session_id ≡ some id) × (r'.session_id ≡ some id)
    → (extract_csrf_token r c ≡ some t) × (extract_csrf_token r' c ≡ some t)
    → (call c in_time now later fresh r (run before empty)).1 ≡ passed
    → fresh ≢ t
    → All (GeneratesOther t) after
    → (call c in_time' now' later' fresh' r'
        (run after (call c in_time now later fresh r (run before empty)).0)).1
      ≡ forbidden not_validated
unfolding validated validate_and_rotate_token
call-passes_once c before after in_time in_time' now later now' later' fresh fresh' t id r r' g g'
      session held pass other others =
    let m = run before empty in
    let first : call c in_time now later fresh r m ≡ validated in_time now later fresh id t m =
      call-state c in_time now later fresh t id r m g session.0 held.0 in
    let valid : is_valid_token now id t m ≡ true =
      validated-valid in_time now later fresh t id m (sym (ap (λ p. p.1) first) ∙ pass) in
    let m' = run after (call c in_time now later fresh r m).0 in
    let spent : is_valid_token now' id t m' ≡ false =
      ap (λ p. is_valid_token now' id t (run after p.0)) first
      ∙ accepted_once before after now later now' fresh t id valid other others in
    ap (λ p. p.1) (call-state c in_time' now' later' fresh' t id r' m' g' session.1 held.1)
    ∙ validated-refused in_time' now' later' fresh' t id m' spent
