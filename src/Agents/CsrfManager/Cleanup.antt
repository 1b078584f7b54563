-- ===== src/Agents/CsrfManager/Cleanup.antt =====
-- A cleanup is not noticed by a validation.
use acton_dx.Prelude.{ℕ, ◌≡◌, ◌≤◌, not, List, string_discrete, arith}
use acton_dx.Prelude.Dict
use acton_dx.Auth.Session.{SessionId}
use acton_dx.Agents.CsrfManager.{
  CsrfToken, Message, is_valid_token, is_expired, cleanup_expired, run, empty,
}
use acton_dx.Agents.CsrfManager.SingleUse.{run-Distinct, empty-Distinct}

-- In any history of a manager, a cleanup changes no answer of a validation at its time or later:
-- it drops tokens that are refused anyhow.
is_valid_token-cleanup_expired :
    (cs : List (ℕ × ℕ × Message)) (now afterwards : ℕ) (id : SessionId) (t : CsrfToken)
    → now ≤ afterwards
    → is_valid_token afterwards id t (cleanup_expired now (run cs empty))
      ≡ is_valid_token afterwards id t (run cs empty)
unfolding is_valid_token cleanup_expired is_expired
is_valid_token-cleanup_expired cs now afterwards id t h = ground (
  arith,
  Dict.lookup-retain string_discrete id (λ d. not (is_expired now d)) (run cs empty).tokens
      (run-Distinct cs empty empty-Distinct),
)
