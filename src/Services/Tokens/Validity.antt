-- ===== src/Services/Tokens/Validity.antt =====
-- When a token of the CSRF service is valid.
use Prim.Native.String.{len}
use acton_dx.Prelude.{
  ℕ, ◌+◌, ◌*◌, ◌==◌, subst, ◌≡◌, ◌≢◌, ◌≤◌, ◌<◌, ◌↔◌, refl, sym, ap, ◌∙◌, Bool, true, false, Option,
  none, some, List, [], ◌∷◌, String, string_discrete, All, arith, ltb, leb, if_pos, if_neg,
  Bool-cases, inl, inr, ok,
}
use acton_dx.Prelude.Dict
use acton_dx.Prelude.Time.{second}
use acton_dx.Services.Tokens.{
  CsrfToken, CsrfServiceImpl, is_empty, entry_of, with_token, with_config, generate_token, accepts,
  validate_token, cleanup_expired, Call, generate, cleanup, step, run,
}

-- What the documentation of `ConstantTimeEq` says.
abbrev pub Compares : (String → String → Bool) → Type 0
Compares ct_eq = (s t : String) → (ct_eq s t ≡ true) ↔ (s ≡ t)

-- Each id stands once.
abbrev pub IsValid : CsrfServiceImpl → Type 0
IsValid s = Dict.Distinct string_discrete s.tokens

module _ (id : String) (now : ℕ) where
  -- A call up to a time that makes no token of this id.
  abbrev pub Keeps : ℕ × Call → Type 0
  Keeps (t, generate random j) = (j ≢ id) × (t ≤ now)
  Keeps (t, cleanup) = t ≤ now

  -- The entry is there, or gone because it expired.
  abbrev LivesUntil : CsrfToken → Option CsrfToken → Type 0
  LivesUntil entry none = entry.expires_at ≤ now
  LivesUntil entry (some e) = e ≡ entry

  abbrev found : CsrfServiceImpl → Option CsrfToken
  found s = Dict.lookup string_discrete id s.tokens

  LivesUntil-filter :
      (entry : CsrfToken) (t : ℕ) (o : Option CsrfToken)
      → t ≤ now
      → LivesUntil entry o
      → LivesUntil entry (Dict.option_filter (λ e. ltb t e.expires_at) o)
  LivesUntil-filter entry t none b h = h
  LivesUntil-filter entry t (some e) b h = elim (Bool-cases (ltb t e.expires_at)) [
    | inl there ↦ rw there h
    | inr gone ↦
        let same : e.expires_at ≡ entry.expires_at = ap (λ x. x.expires_at) h in
        let past : e.expires_at ≤ t = ground arith in rw gone (omega (arith, same, past, b))
  ]

  with_token-LivesUntil :
      (entry new_entry : CsrfToken) (j : String) (s : CsrfServiceImpl)
      → j ≢ id
      → LivesUntil entry (found s)
      → LivesUntil entry (found (with_token j new_entry s))
  with_token-LivesUntil entry new_entry j s other h =
      rw
        (
          Dict.lookup-insert string_discrete id j new_entry s.tokens,
          if_neg (string_discrete j id) other,
        )
        h

  step-LivesUntil :
      (entry : CsrfToken) (c : ℕ × Call) (s : CsrfServiceImpl)
      → IsValid s
      → Keeps c
      → LivesUntil entry (found s)
      → LivesUntil entry (found (step c s))
  unfolding step generate_token cleanup_expired
  step-LivesUntil entry (t, generate random j) s v k h = elim (Bool-cases (is_empty j)) [
    | inl nameless ↦ rw (step, generate_token, nameless) h
    | inr named ↦
        rw (step, generate_token, named)
          (with_token-LivesUntil entry (entry_of t random s) j s k.0 h)
  ]
  step-LivesUntil entry (t, cleanup) s v k h =
      rw (Dict.lookup-retain string_discrete id (λ e. ltb t e.expires_at) s.tokens v)
        (LivesUntil-filter entry t (found s) k h)

step-IsValid : (c : ℕ × Call) (s : CsrfServiceImpl) → IsValid s → IsValid (step c s)
unfolding step generate_token cleanup_expired
step-IsValid (t, generate random j) s v = elim (Bool-cases (is_empty j)) [
  | inl nameless ↦ rw (step, generate_token, nameless) v
  | inr named ↦
      rw (step, generate_token, named)
        (Dict.Distinct-insert string_discrete j (entry_of t random s) s.tokens v)
]
step-IsValid (t, cleanup) s v =
    Dict.Distinct-retain string_discrete (λ e. ltb t e.expires_at) s.tokens v

step-token_ttl : (c : ℕ × Call) (s : CsrfServiceImpl) → (step c s).token_ttl ≡ s.token_ttl
unfolding step generate_token cleanup_expired
step-token_ttl (t, generate random j) s = elim (Bool-cases (is_empty j)) [
  | inl nameless ↦ rw (step, generate_token, nameless) refl
  | inr named ↦ rw (step, generate_token, named) refl
]
step-token_ttl (t, cleanup) s = refl

run-IsValid :
    (cs : List (ℕ × Call)) (s : CsrfServiceImpl)
    → IsValid s
    → IsValid (run cs s) × ((run cs s).token_ttl ≡ s.token_ttl)
unfolding run
run-IsValid [] s v = (v, refl)
run-IsValid (c ∷ cs) s v =
    let rest = run-IsValid cs (step c s) (step-IsValid c s v) in
    (rest.0, rest.1 ∙ step-token_ttl c s)

run-LivesUntil :
    (id : String) (now : ℕ) (entry : CsrfToken) (cs : List (ℕ × Call)) (s : CsrfServiceImpl)
    → IsValid s
    → All (Keeps id now) cs
    → LivesUntil id now entry (found id now s)
    → LivesUntil id now entry (found id now (run cs s))
unfolding run
run-LivesUntil id now entry [] s v k h = h
run-LivesUntil id now entry (c ∷ cs) s v k h =
    run-LivesUntil id now entry cs (step c s) (step-IsValid c s v) k.1
      (step-LivesUntil id now entry c s v k.0 h)

with_token-found :
    (id : String) (now : ℕ) (entry : CsrfToken) (s : CsrfServiceImpl)
    → LivesUntil id now entry (found id now (with_token id entry s))
with_token-found id now entry s =
    rw
      (Dict.lookup-insert string_discrete id id entry s.tokens, if_pos (string_discrete id id) refl)
      refl

accepts-entry :
    (ct_eq : String → String → Bool) (now : ℕ) (token : String) (entry : CsrfToken)
    → Compares ct_eq
    → (accepts ct_eq now token (some entry) ≡ true)
      ↔ ((token ≡ entry.token) × (now < entry.expires_at))
unfolding accepts
accepts-entry ct_eq now token entry law = (
  λ h.
      let same : ct_eq entry.token token ≡ true = ground arith in
      let live : leb entry.expires_at now ≡ false = ground arith in
      (sym ((law entry.token token).0 same), ground arith),
  λ (same, before).
      let live : leb entry.expires_at now ≡ false = ground arith in
      let lengths : (len entry.token == len token) ≡ true = ground (arith, ap len same) in
      rw (accepts, live, lengths, (law entry.token token).1 (sym same)) refl,
)

accepts-LivesUntil :
    (ct_eq : String → String → Bool) (id : String) (now : ℕ) (token : String) (entry : CsrfToken)
    (o : Option CsrfToken)
    → Compares ct_eq
    → LivesUntil id now entry o
    → (accepts ct_eq now token o ≡ true) ↔ ((token ≡ entry.token) × (now < entry.expires_at))
unfolding accepts
accepts-LivesUntil ct_eq id now token entry none law h =
    (λ a. absurd (ground arith), λ b. absurd (omega (arith, b.1, h)))
accepts-LivesUntil ct_eq id now token entry (some e) law h =
    subst
      (λ x. (accepts ct_eq now token (some e) ≡ true) ↔ ((token ≡ x.token) × (now < x.expires_at)))
      h (accepts-entry ct_eq now token e law)

-- A token that the service made for an id is valid for it until its time to live is over, any number of
-- times, and no other token is: whatever other ids get tokens and whatever is cleaned up in between, up to
-- the next token of that id.
pub validate_token-generate_token :
    (ct_eq : String → String → Bool) (before after : List (ℕ × Call)) (ttl bytes made now : ℕ)
    (id random token : String)
    → Compares ct_eq
    → is_empty id ≡ false
    → is_empty token ≡ false
    → All (Keeps id now) after
    → (valid : Bool) × (validate_token ct_eq now id token
          (run after (generate_token made random id (run before (with_config ttl bytes))).0)
        ≡ ok valid)
      × ((valid ≡ true) ↔ ((token ≡ random) × (now < made + ttl * second)))
unfolding validate_token generate_token with_config
validate_token-generate_token ct_eq before after ttl bytes made now id random token law named filled
      kept =
    let s = run before (with_config ttl bytes) in
    let (valid, same_ttl) = run-IsValid before (with_config ttl bytes) tt in
    let entry = entry_of made random s in
    let s' = with_token id entry s in
    let valid' : IsValid s' = Dict.Distinct-insert string_discrete id entry s.tokens valid in
    let there : LivesUntil id now entry (found id now s') = with_token-found id now entry s in
    let lives = run-LivesUntil id now entry after s' valid' kept there in
    let o = found id now (run after s') in
    (
      accepts ct_eq now token o,
      rw (validate_token, generate_token, named, filled) refl,
      subst (λ n. (accepts ct_eq now token o ≡ true) ↔ ((token ≡ random) × (now < made + n)))
          same_ttl (accepts-LivesUntil ct_eq id now token entry o law lives),
    )
