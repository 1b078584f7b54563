-- ===== src/Middleware/Csrf/Tests.antt =====
-- Two posts of one session with one token.
use acton_dx.Prelude.{ℕ, ◌≡◌, ◌≢◌, refl, true, some, List, [], ◌∷◌, String, string_discrete, arith}
use text.Mathlib.TextEquality.{eq_iff}
use acton_dx.Prelude.Dict
use acton_dx.Prelude.Set
use acton_dx.Agents.CsrfManager.{
  Message, get_or_create, cleanup, empty, run, step, get_or_create_token, validate_and_rotate_token,
}
use acton_dx.Middleware.Csrf.{
  Request, passed, forbidden, not_validated, default, post, call, checked, validated,
  is_method_safe, extract_csrf_token,
}
use acton_dx.Middleware.Csrf.Once.{IsGuarded, call-passes_once}

c_ne_a : ◌≢◌ {A = String} "c" "a"
c_ne_a = ground (arith, eq_iff "c" "a")

-- Session "s" has the token "a".
abbrev first_token : List (ℕ × ℕ × Message)
first_token = (0, 0, get_or_create "s" "a") ∷ []

abbrev posted : Request
posted = record {
  method = post;
  path = "/order";
  session_id = some "s";
  headers = λ name. some (some "a");
}

guarded : IsGuarded default posted
unfolding is_method_safe default Set.contains
guarded = record { unsafe = refl; not_skipped = refl }

first_passes : (call default true 5 6 "c" posted (run first_token empty)).1 ≡ passed
unfolding call is_method_safe Set.contains default checked extract_csrf_token validated
    validate_and_rotate_token Dict.lookup run step get_or_create_token empty Dict.insert
    string_discrete
first_passes = refl

call-passes_once_example :
    (call default true 8 9 "d" posted
      (run ((7, 7, cleanup) ∷ []) (call default true 5 6 "c" posted (run first_token empty)).0)).1
    ≡ forbidden not_validated
unfolding extract_csrf_token
call-passes_once_example =
    call-passes_once default first_token ((7, 7, cleanup) ∷ []) true true 5 6 8 9 "c" "d" "a" "s"
      posted posted guarded guarded (refl, refl) (refl, refl) first_passes c_ne_a (tt, tt)
