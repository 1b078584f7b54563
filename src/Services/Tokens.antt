-- ===== src/Services/Tokens.antt =====
-- services/auth-service/src/services/csrf.rs: the CSRF service. The random tokens and the clock are
-- arguments, and the comparison in constant time is a parameter.
pub mod Validity
mod Tests
use Prim.Native.String.{len}
use acton_dx.Prelude.{
  ℕ, ◌+◌, ◌*◌, ◌-◌, ◌==◌, Bool, true, false, not, Option, none, some, List, [], ◌∷◌, String,
  string_discrete, ltb, leb, length, if◌then◌else◌, Result, ok, err,
}
use acton_dx.Prelude.Dict
use acton_dx.Prelude.Time.{second}

pub record CsrfToken : Type 0 where
  pub token : String
  pub expires_at : ℕ

pub record CsrfServiceImpl : Type 0 where
  pub tokens : List (String × CsrfToken)
  pub token_ttl : ℕ
  pub token_bytes : ℕ

unfoldable pub with_config : (token_ttl_seconds token_bytes : ℕ) → CsrfServiceImpl
with_config token_ttl_seconds token_bytes = record {
  tokens = [];
  token_ttl = token_ttl_seconds * second;
  token_bytes = token_bytes;
}

unfoldable pub new : CsrfServiceImpl
unfolding with_config
new = with_config 3_600 32

pub data Status : Type 0 where
  invalid_argument : Status

abbrev pub is_empty : String → Bool
is_empty s = len s == 0

abbrev pub entry_of : ℕ → String → CsrfServiceImpl → CsrfToken
entry_of now random s = record { token = random; expires_at = now + s.token_ttl }

abbrev pub with_token : String → CsrfToken → CsrfServiceImpl → CsrfServiceImpl
with_token id entry s = record s { tokens = Dict.insert string_discrete id entry s.tokens }

-- `generate_token`; `random` is the token of `create_random_token`.
unfoldable pub generate_token :
    ℕ → (random : String) → String → CsrfServiceImpl → CsrfServiceImpl × Result String Status
generate_token now random id s =
    if is_empty id
    then (s, err invalid_argument)
    else (with_token id (entry_of now random s) s, ok random)

-- Whether an entry is for this token, and still valid.
unfoldable pub accepts : (String → String → Bool) → ℕ → String → Option CsrfToken → Bool
accepts ct_eq now token none = false
accepts ct_eq now token (some entry) =
    if leb entry.expires_at now
    then false
    else if not (len entry.token == len token)
    then false
    else ct_eq entry.token token

unfoldable pub validate_token :
    (String → String → Bool) → ℕ → String → String → CsrfServiceImpl → Result Bool Status
validate_token ct_eq now id token s =
    if is_empty id
    then err invalid_argument
    else if is_empty token
    then err invalid_argument
    else ok (accepts ct_eq now token (Dict.lookup string_discrete id s.tokens))

-- With the number of the tokens that are dropped.
unfoldable pub cleanup_expired : ℕ → CsrfServiceImpl → CsrfServiceImpl × ℕ
cleanup_expired now s =
    let kept = Dict.retain string_discrete (λ entry. ltb now entry.expires_at) s.tokens in
    (record s { tokens = kept }, length s.tokens - length kept)

-- The calls that change the tokens.
pub data Call : Type 0 where
  generate : (random id : String) → Call
  cleanup : Call

unfoldable pub step : ℕ × Call → CsrfServiceImpl → CsrfServiceImpl
step (now, generate random id) s = (generate_token now random id s).0
step (now, cleanup) s = (cleanup_expired now s).0

unfoldable pub run : List (ℕ × Call) → CsrfServiceImpl → CsrfServiceImpl
run [] s = s
run (c ∷ cs) s = run cs (step c s)
