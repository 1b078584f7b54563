-- ===== src/Agents/CsrfManager/Tests.antt =====
-- The CSRF manager on concrete tokens.
use acton_dx.Prelude.{ℕ, ◌≡◌, ◌≢◌, refl, true, false, List, [], ◌∷◌, String, string_discrete, arith}
use acton_dx.Prelude.Dict
use text.Mathlib.TextEquality.{eq_iff}
use acton_dx.Agents.CsrfManager.{
  Message, get_or_create, cleanup, empty, run, step, get_or_create_token, is_valid_token,
  validate_and_rotate_token,
}
use acton_dx.Agents.CsrfManager.SingleUse.{accepted_once}

a_ne_b : ◌≢◌ {A = String} "a" "b"
a_ne_b = ground (arith, eq_iff "a" "b")

c_ne_a : ◌≢◌ {A = String} "c" "a"
c_ne_a = ground (arith, eq_iff "c" "a")

-- Session "s" has the token "a".
abbrev first_token : List (ℕ × ℕ × Message)
first_token = (0, 0, get_or_create "s" "a") ∷ []

first_token_valid : is_valid_token 5 "s" "a" (run first_token empty) ≡ true
unfolding is_valid_token run step empty get_or_create_token Dict.lookup Dict.insert string_discrete
first_token_valid = refl

accepted_once_example :
    is_valid_token 9 "s" "a" (
      run
        ((7, 7, cleanup) ∷ [])
        (validate_and_rotate_token 5 6 "c" "s" "a" (run first_token empty)).0)
    ≡ false
accepted_once_example =
    accepted_once first_token ((7, 7, cleanup) ∷ []) 5 6 9 "c" "a" "s" first_token_valid c_ne_a
      (tt, tt)
