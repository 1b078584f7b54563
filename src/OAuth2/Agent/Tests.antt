-- ===== src/OAuth2/Agent/Tests.antt =====
-- Two logins, one of which is finished.
use acton_dx.Prelude.{
  ℕ, ◌≡◌, refl, not, ◌&&◌, none, some, List, [], ◌∷◌, arith, ltb, string_discrete,
}
use acton_dx.Prelude.Dict
use acton_dx.Prelude.Dict.{option_filter}
use acton_dx.OAuth2.Agent.{
  Message, generates, validates, removes, google, github, run, empty, validate_state, generate,
  step, generate_state, cleanup_expired, remove_state, is_expired,
}
use acton_dx.OAuth2.Agent.Tokens.{issued, validate_state-issued}

abbrev logins : List (ℕ × ℕ × Message)
logins =
    (1, 2, generates "a" google)
    ∷ (3, 4, generates "b" github)
    ∷ (5, 6, validates "a")
    ∷ (7, 8, removes "a")
    ∷ []

validate_state-issued_example :
    (validate_state 9 10 "a" (run logins empty)).1
    ≡ option_filter (λ s. ltb 9 s.expires_at && not (ltb s.expires_at 10)) (issued "a" logins none)
validate_state-issued_example =
    validate_state-issued logins 9 10 "a"
      (omega arith, (omega arith, (omega arith, (omega arith, tt))))

b_accepted : (validate_state 9 10 "b" (run logins empty)).1 ≡ some (generate 4 "b" github)
unfolding validate_state run step generate_state cleanup_expired generate remove_state is_expired
    empty Dict.lookup Dict.insert Dict.retain Dict.remove string_discrete
b_accepted = refl
