-- ===== src/Prelude/Text.antt =====
-- Texts that the code walks, as lists of code points, and what the standard library does to them. The
-- code points are those of ASCII where letters, digits or spaces are told apart.
use Prim.Native.Nat.{ℕ, zero, suc, ◌+◌, ◌-◌, ◌*◌, ◌/◌, ◌%◌, ◌^◌, ◌<◌}
use Prim.Native.Char.{code}
use Prim.Native.String.{String}
use mathlib.Core.Path.{◌≡◌, refl, ap, ◌∙◌}
use mathlib.Core.Bool.{Bool, true, false, ◌&&◌}
use mathlib.Core.Option.{Option, none, some}
use mathlib.Core.List.{List, [], ◌∷◌, ◌++◌}
use native.Mathlib.Omega.{arith}
use mathlib.Core.Logic.{◌≢◌, inl, inr}
use acton_dx.Prelude.Tests.{ltb, leb, ◌==◌, if◌then◌else◌, Bool-cases, ltb→lt, lt→ltb, decide_by}
use acton_dx.Prelude.Lists.{All}

abbrev pub Text : Type 0
Text = List ℕ

abbrev pub codes : String → Text
codes String.[] = []
codes (String.◌∷◌ c s) = code c ∷ codes s

unfoldable pub text_eq : Text → Text → Bool
text_eq [] [] = true
text_eq [] (d ∷ t) = false
text_eq (c ∷ s) [] = false
text_eq (c ∷ s) (d ∷ t) = c == d && text_eq s t

pub text_eq_refl : (s : Text) → text_eq s s ≡ true
unfolding text_eq
text_eq_refl [] = refl
text_eq_refl (c ∷ s) = ground (arith, text_eq_refl s)

pub eq_of_text_eq : (s t : Text) → text_eq s t ≡ true → s ≡ t
unfolding text_eq
eq_of_text_eq [] [] h = refl
eq_of_text_eq [] (d ∷ t) h = absurd (ground arith)
eq_of_text_eq (c ∷ s) [] h = absurd (ground arith)
eq_of_text_eq (c ∷ s) (d ∷ t) h = ground (arith, eq_of_text_eq s t)

-- `strip_prefix`
unfoldable pub strip_prefix : Text → Text → Option Text
strip_prefix [] s = some s
strip_prefix (p ∷ ps) [] = none
strip_prefix (p ∷ ps) (c ∷ s) = if p == c then strip_prefix ps s else none

pub strip_prefix-append : (p s : Text) → strip_prefix p (p ++ s) ≡ some s
unfolding strip_prefix
strip_prefix-append [] s = refl
strip_prefix-append (c ∷ p) s = ground (arith, strip_prefix-append p s)

-- `split_once` at a character
unfoldable pub split_once : ℕ → Text → Option (Text × Text)
split_once d [] = none
split_once d (c ∷ s) =
    let rest = split_once d s in
    if c == d then some ([], s) else elim rest [ none ↦ none | some (a, b) ↦ some (c ∷ a, b) ]

-- No character of the text is `d`.
abbrev pub Lacks : ℕ → Text → Type 0
Lacks d = All (λ c. (c == d) ≡ false)

pub split_once-append : (d : ℕ) (a b : Text) → Lacks d a → split_once d (a ++ d ∷ b) ≡ some (a, b)
unfolding split_once
split_once-append d [] b l = ground arith
split_once-append d (c ∷ a) b l = ground (arith, split_once-append d a b l.1)

abbrev pub is_digit : ℕ → Bool
is_digit c = leb b'0' c && leb c b'9'

-- Decimal digits onto a text: `fuel` above the number is enough.
unfoldable pub show_onto : ℕ → ℕ → Text → Text
show_onto zero n s = s
show_onto (suc fuel) n s =
    let rest = show_onto fuel (n / 10) ((b'0' + n % 10) ∷ s) in
    if ltb n 10 then (b'0' + n) ∷ s else rest

-- `format!("{n}")`
unfoldable pub show : ℕ → Text
unfolding show_onto
show n = show_onto (suc n) n []

-- The digits of `parse::<usize>()`, with its overflow checks.
unfoldable pub parse_digits : ℕ → Text → Option ℕ
parse_digits n [] = some n
parse_digits n (c ∷ s) =
    if is_digit c && ltb (n * 10 + (c - b'0')) (2 ^ 64)
    then parse_digits (n * 10 + (c - b'0')) s
    else none

-- `parse::<usize>()`: a sign `+` is taken, and an empty text is refused.
unfoldable pub parse_usize : Text → Option ℕ
unfolding parse_digits
parse_usize [] = none
parse_usize (c ∷ []) = parse_digits 0 (c ∷ [])
parse_usize (c ∷ d ∷ s) = if c == b'+' then parse_digits 0 (d ∷ s) else parse_digits 0 (c ∷ d ∷ s)

parse_digits_lem :
    (n d : ℕ) (s : Text)
    → d < 10
    → n * 10 + d < 2 ^ 64
    → parse_digits n ((b'0' + d) ∷ s) ≡ parse_digits (n * 10 + d) s
unfolding parse_digits
parse_digits_lem n d s h fits =
    let digit : is_digit (b'0' + d) ≡ true = ground arith in
    let value : b'0' + d - b'0' ≡ d = omega arith in
    rw (digit, value, lt→ltb (n * 10 + d) (2 ^ 64) fits)

parse_digits-show_onto :
    (fuel n : ℕ) (s : Text)
    → n < fuel
    → n < 2 ^ 64
    → parse_digits 0 (show_onto fuel n s) ≡ parse_digits n s
unfolding show_onto
parse_digits-show_onto zero n s h fits = absurd (omega arith)
parse_digits-show_onto (suc fuel) n s h fits = elim (Bool-cases (ltb n 10)) [
  | inl small ↦ rw small (
      parse_digits_lem 0 n s (ltb→lt n 10 small) (omega arith)
      ∙ ap (λ k. parse_digits k s) (omega arith))
  | inr large ↦
      let shorter : n / 10 < fuel = ground arith in
      rw large (
        parse_digits-show_onto fuel (n / 10) ((b'0' + n % 10) ∷ s) shorter (omega arith)
        ∙ parse_digits_lem (n / 10) (n % 10) s (omega arith) (omega arith)
        ∙ ap (λ k. parse_digits k s) (omega arith))
]

abbrev pub Digits : Text → Type 0
Digits = All (λ c. is_digit c ≡ true)

show_onto-Digits : (fuel n : ℕ) (s : Text) → n < fuel → Digits s → Digits (show_onto fuel n s)
unfolding show_onto
show_onto-Digits zero n s h d = d
show_onto-Digits (suc fuel) n s h d = elim (Bool-cases (ltb n 10)) [
  | inl small ↦ rw small (ground arith, d)
  | inr large ↦
      rw large
        (show_onto-Digits fuel (n / 10) ((b'0' + n % 10) ∷ s) (ground arith) (ground arith, d))
]

pub show-Digits : (n : ℕ) → Digits (show n)
unfolding show
show-Digits n = show_onto-Digits (suc n) n [] (omega arith) tt

Digits-Lacks : (d : ℕ) (s : Text) → is_digit d ≡ false → Digits s → Lacks d s
Digits-Lacks d [] h ds = tt
Digits-Lacks d (c ∷ s) h ds = (ground arith, Digits-Lacks d s h ds.1)

pub show-Lacks_dash : (n : ℕ) → Lacks b'-' (show n)
show-Lacks_dash n = Digits-Lacks b'-' (show n) refl (show-Digits n)

parse_usize-Digits : (s : Text) → s ≢ [] → Digits s → parse_usize s ≡ parse_digits 0 s
unfolding parse_usize
parse_usize-Digits [] ne d = absurd (ne refl)
parse_usize-Digits (c ∷ []) ne d = refl
parse_usize-Digits (c ∷ d ∷ s) ne ds = ground arith

show_onto-ne-nil : (fuel n c : ℕ) (s : Text) → show_onto fuel n (c ∷ s) ≢ []
unfolding show_onto
show_onto-ne-nil zero n c s = λ e. cc
show_onto-ne-nil (suc fuel) n c s = elim (Bool-cases (ltb n 10)) [
  | inl small ↦ rw small (λ e. cc)
  | inr large ↦ rw large (show_onto-ne-nil fuel (n / 10) (b'0' + n % 10) (c ∷ s))
]

pub show-ne-nil : (n : ℕ) → show n ≢ []
unfolding show show_onto
show-ne-nil n = elim (Bool-cases (ltb n 10)) [
  | inl small ↦ rw small (λ e. cc)
  | inr large ↦ rw large (show_onto-ne-nil n (n / 10) (b'0' + n % 10) [])
]

-- A number that fits is read as it is written.
pub parse_usize-show : (n : ℕ) → n < 2 ^ 64 → parse_usize (show n) ≡ some n
unfolding show parse_digits
parse_usize-show n fits =
    parse_usize-Digits (show n) (show-ne-nil n) (show-Digits n)
    ∙ parse_digits-show_onto (suc n) n [] (omega arith) fits

unfoldable pub text_discrete : (s t : Text) → Dec (s ≡ t)
unfolding decide_by
text_discrete s t = decide_by (text_eq s t) (eq_of_text_eq s t, λ e. rw e (text_eq_refl t))

-- `replace` of a character by a text
unfoldable pub replace : ℕ → Text → Text → Text
replace d new [] = []
replace d new (c ∷ s) = if c == d then new ++ replace d new s else c ∷ replace d new s

-- The texts that `push_str` appends, one after the other.
unfoldable pub concat : List Text → Text
concat [] = []
concat (s ∷ rest) = s ++ concat rest
