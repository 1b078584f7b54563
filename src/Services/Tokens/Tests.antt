-- ===== src/Services/Tokens/Tests.antt =====
-- A token of an hour.
use acton_dx.Prelude.{
  ℕ, ◌+◌, ◌*◌, ◌≡◌, ◌≢◌, ◌<◌, ◌↔◌, refl, Bool, true, List, [], ◌∷◌, String, arith, ok,
}
use text.Mathlib.Text.{◌==◌ as text_beq}
use text.Mathlib.TextEquality.{eq_iff}
use acton_dx.Prelude.Time.{second}
use acton_dx.Services.Tokens.{
  Call, generate, cleanup, run, with_config, generate_token, validate_token,
}
use acton_dx.Services.Tokens.Validity.{Compares, validate_token-generate_token}

text_beq-Compares : Compares (λ s t. text_beq s t)
text_beq-Compares s t = eq_iff s t

b_ne_a : ◌≢◌ {A = String} "b" "a"
b_ne_a = ground (arith, eq_iff "b" "a")

abbrev later : List (ℕ × Call)
later = (5, generate "u" "b") ∷ (7, cleanup) ∷ []

validate_token-generate_token_example :
    (valid : Bool) × (validate_token
        (λ s t. text_beq s t)
        9
        "a"
        "t"
        (run later (generate_token 0 "t" "a" (run [] (with_config 3_600 32))).0)
      ≡ ok valid)
    × ((valid ≡ true) ↔ (◌≡◌ {A = String} "t" "t" × (9 < 0 + 3_600 * second)))
validate_token-generate_token_example =
    validate_token-generate_token (λ s t. text_beq s t) [] later 3_600 32 0 9 "a" "t" "t"
      text_beq-Compares refl refl ((b_ne_a, omega arith), (omega arith, tt))
