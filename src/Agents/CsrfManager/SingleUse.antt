-- ===== src/Agents/CsrfManager/SingleUse.antt =====
-- A token is accepted for its session, and once.
use acton_dx.Prelude.{
  ℕ, ◌≡◌, ◌≢◌, ◌≤◌, true, false, not, some, inl, inr, List, [], ◌∷◌, string_discrete, arith, All,
  Bool-cases, Option-cases, sym, ◌∙◌,
}
use acton_dx.Prelude.Dict
use acton_dx.Prelude.Dict.{option_filter-some}
use acton_dx.Auth.Session.{SessionId}
use acton_dx.Agents.CsrfManager.{
  CsrfToken, CsrfTokenData, CsrfManagerAgent, Message, get_or_create, validate, delete, cleanup,
  token_data, store, is_expired, empty, get_or_create_token, is_valid_token,
  validate_and_rotate_token, delete_token, cleanup_expired, step, run,
}

-- The token that is handed out for a session is valid for it at that time, if the clock did not
-- run back within the call; asking again at that time changes nothing and gives the same token.
get_or_create_token-is_valid_token :
    (now later : ℕ) (fresh other : CsrfToken) (id : SessionId) (m : CsrfManagerAgent)
    → now ≤ later
    → let r = get_or_create_token now later fresh id m in
      (is_valid_token now id r.1 r.0 ≡ true)
      × (get_or_create_token now later other id r.0 ≡ (r.0, r.1))
unfolding get_or_create_token is_valid_token
get_or_create_token-is_valid_token now later fresh other id m h =
    ground (arith, Dict.lookup-insert string_discrete id id (token_data later fresh) m.tokens)

-- Validation for one session leaves the token of every other session as it is.
validate_and_rotate_token-other :
    (now later : ℕ) (fresh token : CsrfToken) (id j : SessionId) (m : CsrfManagerAgent)
    → id ≢ j
    → Dict.lookup string_discrete j (validate_and_rotate_token now later fresh id token m).0.tokens
      ≡ Dict.lookup string_discrete j m.tokens
unfolding validate_and_rotate_token
validate_and_rotate_token-other now later fresh token id j m h =
    ground (arith, Dict.lookup-insert string_discrete j id (token_data later fresh) m.tokens)

-- What a message generates, if it generates a token, is another token than `t`.
abbrev pub GeneratesOther : CsrfToken → ℕ × ℕ × Message → Type 0
GeneratesOther t (now, later, get_or_create id fresh) = fresh ≢ t
GeneratesOther t (now, later, validate id token fresh) = fresh ≢ t
GeneratesOther t (now, later, delete id) = Unit
GeneratesOther t (now, later, cleanup) = Unit

-- The token `t` is not the one of session `id`.
record IsSpent (t : CsrfToken) (id : SessionId) (m : CsrfManagerAgent) : Type 0 where
  pub distinct : Dict.Distinct string_discrete m.tokens
  pub not_held :
      (d : CsrfTokenData) → Dict.lookup string_discrete id m.tokens ≡ some d → d.token ≢ t

module _ (t : CsrfToken) (id : SessionId) where
  store-IsSpent :
      (later : ℕ) (fresh : CsrfToken) (j : SessionId) (m : CsrfManagerAgent)
      → fresh ≢ t
      → IsSpent t id m
      → IsSpent t id (store later fresh j m)
  store-IsSpent later fresh j m other v = record {
    distinct = Dict.Distinct-insert string_discrete j (token_data later fresh) m.tokens v.distinct;
    not_held = λ d e. elim (string_discrete j id) [
      | yes same ↦
          unfold token_data in
          ground (arith, Dict.lookup-insert string_discrete id j (token_data later fresh) m.tokens)
      | no apart ↦ v.not_held d (
          ground (arith, Dict.lookup-insert string_discrete id j (token_data later fresh) m.tokens))
    ];
  }

  get_or_create_token-IsSpent :
      (now later : ℕ) (fresh : CsrfToken) (j : SessionId) (m : CsrfManagerAgent)
      → fresh ≢ t
      → IsSpent t id m
      → IsSpent t id (get_or_create_token now later fresh j m).0
  unfolding get_or_create_token
  get_or_create_token-IsSpent now later fresh j m other v =
      elim (Option-cases (Dict.lookup string_discrete j m.tokens)) [
        | inl absent ↦ rw (absent, get_or_create_token) (store-IsSpent later fresh j m other v)
        | inr (d, present) ↦ elim (Bool-cases (is_expired now d)) [
          | inl over ↦
              rw (present, get_or_create_token, over) (store-IsSpent later fresh j m other v)
          | inr usable ↦ rw (present, get_or_create_token, usable) v
        ]
      ]

  step-IsSpent :
      (c : ℕ × ℕ × Message) (m : CsrfManagerAgent)
      → GeneratesOther t c
      → IsSpent t id m
      → IsSpent t id (step c m)
  unfolding step get_or_create_token validate_and_rotate_token delete_token cleanup_expired
  step-IsSpent (now, later, get_or_create j fresh) m other v =
      get_or_create_token-IsSpent now later fresh j m other v
  step-IsSpent (now, later, validate j token fresh) m other v =
      elim (Bool-cases (is_valid_token now j token m)) [
        | inl accepted ↦ rw accepted (store-IsSpent later fresh j m other v)
        | inr refused ↦ rw refused v
      ]
  step-IsSpent (now, later, delete j) m other v = record {
    distinct = Dict.Distinct-remove string_discrete j m.tokens v.distinct;
    not_held =
        λ d e. v.not_held d (ground (arith, Dict.lookup-remove string_discrete id j m.tokens));
  }
  step-IsSpent (now, later, cleanup) m other v = record {
    distinct = Dict.Distinct-retain string_discrete _ m.tokens v.distinct;
    not_held = λ d e. v.not_held d (
        option_filter-some (λ x. not (is_expired now x)) _
          (sym (Dict.lookup-retain string_discrete id _ m.tokens v.distinct) ∙ e));
  }

  run-IsSpent :
      (cs : List (ℕ × ℕ × Message)) (m : CsrfManagerAgent)
      → All (GeneratesOther t) cs
      → IsSpent t id m
      → IsSpent t id (run cs m)
  unfolding run
  run-IsSpent [] m others v = v
  run-IsSpent (c ∷ cs) m others v = run-IsSpent cs (step c m) others.1 (step-IsSpent c m others.0 v)

  spent_refused :
      (now : ℕ) (m : CsrfManagerAgent) → IsSpent t id m → is_valid_token now id t m ≡ false
  unfolding is_valid_token
  spent_refused now m v = elim (Option-cases (Dict.lookup string_discrete id m.tokens)) [
    | inl absent ↦ rw absent
    | inr (d, present) ↦ rw present (ground (arith, v.not_held d present))
  ]

-- Each message keeps one token for a session.
step-Distinct :
    (c : ℕ × ℕ × Message) (m : CsrfManagerAgent)
    → Dict.Distinct string_discrete m.tokens
    → Dict.Distinct string_discrete (step c m).tokens
unfolding step get_or_create_token validate_and_rotate_token delete_token cleanup_expired
step-Distinct (now, later, get_or_create j fresh) m v =
    ground (arith, Dict.Distinct-insert string_discrete j (token_data later fresh) m.tokens v)
step-Distinct (now, later, validate j token fresh) m v =
    ground (arith, Dict.Distinct-insert string_discrete j (token_data later fresh) m.tokens v)
step-Distinct (now, later, delete j) m v = Dict.Distinct-remove string_discrete j m.tokens v
step-Distinct (now, later, cleanup) m v = Dict.Distinct-retain string_discrete _ m.tokens v

pub run-Distinct :
    (cs : List (ℕ × ℕ × Message)) (m : CsrfManagerAgent)
    → Dict.Distinct string_discrete m.tokens
    → Dict.Distinct string_discrete (run cs m).tokens
unfolding run
run-Distinct [] m v = v
run-Distinct (c ∷ cs) m v = run-Distinct cs (step c m) (step-Distinct c m v)

pub empty-Distinct : Dict.Distinct string_discrete empty.tokens
unfolding empty
empty-Distinct = tt

stored-IsSpent :
    (later : ℕ) (fresh t : CsrfToken) (id : SessionId) (m : CsrfManagerAgent)
    → fresh ≢ t
    → Dict.Distinct string_discrete m.tokens
    → IsSpent t id (store later fresh id m)
unfolding token_data
stored-IsSpent later fresh t id m other v = record {
  distinct = Dict.Distinct-insert string_discrete id (token_data later fresh) m.tokens v;
  not_held = λ d e.
      ground (arith, Dict.lookup-insert string_discrete id id (token_data later fresh) m.tokens);
}

-- In any history of a manager, a token that was accepted for a session is refused for it ever
-- after, as long as neither its replacement nor what a later message generates is that token
-- again.
pub accepted_once :
    (before after : List (ℕ × ℕ × Message)) (now later afterwards : ℕ) (fresh t : CsrfToken)
    (id : SessionId)
    → is_valid_token now id t (run before empty) ≡ true
    → fresh ≢ t
    → All (GeneratesOther t) after
    → is_valid_token afterwards id t
        (run after (validate_and_rotate_token now later fresh id t (run before empty)).0)
      ≡ false
unfolding validate_and_rotate_token
accepted_once before after now later afterwards fresh t id accepted other others =
    let m = run before empty in
    rw accepted (
      spent_refused t id afterwards (run after (store later fresh id m)) (
        run-IsSpent t id after (store later fresh id m) others
          (stored-IsSpent later fresh t id m other (run-Distinct before empty empty-Distinct))))
