-- ===== src/OAuth2/Agent.antt =====
-- acton-dx/src/htmx/oauth2/agent.rs and `OAuthState` of oauth2/types.rs: the state tokens that guard a
-- login against forged requests. The random tokens are arguments, and so is each reading of the
-- clock.
pub mod Tokens
mod Tests
use acton_dx.Prelude.{
  ℕ, ◌+◌, ◌*◌, ◌≡◌, Bool, true, false, Option, none, some, List, [], ◌∷◌, String, string_discrete,
  ltb, if◌then◌else◌,
}
use acton_dx.Prelude.Dict
use acton_dx.Prelude.Time.{second}

pub data OAuthProvider : Type 0 where
  google github oidc : OAuthProvider

pub record OAuthState : Type 0 where
  pub token : String
  pub provider : OAuthProvider
  pub expires_at : ℕ

-- `OAuthState::generate`
unfoldable pub generate : ℕ → String → OAuthProvider → OAuthState
generate now fresh provider = record {
  token = fresh;
  provider = provider;
  expires_at = now + 600 * second;
}

unfoldable pub is_expired : ℕ → OAuthState → Bool
is_expired now s = ltb s.expires_at now

pub record OAuth2Agent : Type 0 where
  pub states : List (String × OAuthState)

unfoldable pub empty : OAuth2Agent
empty = record { states = [] }

-- `cleanup_expired`, and the handler of `CleanupExpired`.
unfoldable pub cleanup_expired : ℕ → OAuth2Agent → OAuth2Agent
cleanup_expired now m = record {
  states = Dict.retain string_discrete (λ s. ltb now s.expires_at) m.states;
}

-- `GenerateState`: the clock is read for the cleanup, and again for the new token.
unfoldable pub generate_state :
    ℕ → ℕ → String → OAuthProvider → OAuth2Agent → OAuth2Agent × OAuthState
unfolding cleanup_expired generate
generate_state now later fresh provider m =
    let state = generate later fresh provider in
    let cleaned = cleanup_expired now m in
    (record { states = Dict.insert string_discrete state.token state cleaned.states }, state)

-- `ValidateState`: the token stays in the model.
unfoldable pub validate_state : ℕ → ℕ → String → OAuth2Agent → OAuth2Agent × Option OAuthState
unfolding cleanup_expired is_expired
validate_state now later token m =
    let cleaned = cleanup_expired now m in
    (
      cleaned,
      elim (Dict.lookup string_discrete token cleaned.states) [
        | none ↦ none
        | some state ↦ if is_expired later state then none else some state
      ],
    )

-- `RemoveState`
unfoldable pub remove_state : String → OAuth2Agent → OAuth2Agent
remove_state token m = record { states = Dict.remove string_discrete token m.states }

-- The messages; the one that generates a token carries it.
pub data Message : Type 0 where
  generates : String → OAuthProvider → Message
  validates removes : String → Message
  cleans : Message

-- One message, with the two readings of the clock.
unfoldable pub step : ℕ × ℕ × Message → OAuth2Agent → OAuth2Agent
step (now, later, generates fresh provider) m = (generate_state now later fresh provider m).0
step (now, later, validates token) m = (validate_state now later token m).0
step (now, later, removes token) m = remove_state token m
step (now, later, cleans) m = cleanup_expired now m

unfoldable pub run : List (ℕ × ℕ × Message) → OAuth2Agent → OAuth2Agent
run [] m = m
run (c ∷ cs) m = run cs (step c m)
