-- ===== src/Prelude/Strings.antt =====
-- From the texts that the code walks, as lists of code points, back to the `String`s that it keeps.
use Prim.Native.Nat.{ℕ, Ordering, compare}
use Prim.Native.Char.{Char, char, code, nul, IsLt, IsScalar}
use Prim.Native.String.{String}
use mathlib.Core.Path.{◌≡◌, refl, ap, ◌∙◌}
use mathlib.Core.List.{[], ◌∷◌}
use text.Mathlib.TextEquality.{Char-path}
use acton_dx.Prelude.Text.{Text, codes}

-- `IsScalar`, on the three comparisons that it makes.
abbrev IsScalarAbove : Ordering → Ordering → Type 0
IsScalarAbove Ordering.lt o = IsLt o
IsScalarAbove Ordering.eq _ = ⊥
IsScalarAbove Ordering.gt _ = ⊥

abbrev IsScalarBy : Ordering → Ordering → Ordering → Type 0
IsScalarBy Ordering.lt _ _ = Unit
IsScalarBy Ordering.eq o p = IsScalarAbove o p
IsScalarBy Ordering.gt o p = IsScalarAbove o p

abbrev less : (o : Ordering) → Dec (IsLt o)
less Ordering.lt = yes tt
less Ordering.eq = no (λ e. e)
less Ordering.gt = no (λ e. e)

abbrev decide_both : (o p : Ordering) → Dec (IsScalarAbove o p)
decide_both Ordering.lt p = less p
decide_both Ordering.eq p = no (λ e. e)
decide_both Ordering.gt p = no (λ e. e)

abbrev decide_scalar : (o p q : Ordering) → Dec (IsScalarBy o p q)
decide_scalar Ordering.lt p q = yes tt
decide_scalar Ordering.eq p q = decide_both p q
decide_scalar Ordering.gt p q = decide_both p q

abbrev is_scalar : (n : ℕ) → Dec (IsScalar n)
is_scalar n = decide_scalar (compare n 55296) (compare 57343 n) (compare n 1114112)

abbrev char_or_nul : (n : ℕ) → Dec (IsScalar n) → Char
char_or_nul n (yes p) = char n p
char_or_nul n (no p) = nul

-- The character of a code point; a number that is none gives U+0000.
abbrev pub of_code : ℕ → Char
of_code n = char_or_nul n (is_scalar n)

-- `to_string`
abbrev pub to_string : Text → String
to_string [] = String.[]
to_string (c ∷ s) = String.◌∷◌ (of_code c) (to_string s)

char_or_nul-code : (c : Char) (d : Dec (IsScalar (code c))) → char_or_nul (code c) d ≡ c
char_or_nul-code (char n p) (yes q) = Char-path (char n q) (char n p) refl
char_or_nul-code (char n p) (no q) = absurd (q p)

-- A text read from a `String` is written back as that `String`.
pub to_string-codes : (s : String) → to_string (codes s) ≡ s
to_string-codes String.[] = refl
to_string-codes (String.◌∷◌ c s) =
    ap (λ d. String.◌∷◌ d (to_string (codes s))) (char_or_nul-code c (is_scalar (code c)))
    ∙ ap (λ t. String.◌∷◌ c t) (to_string-codes s)
