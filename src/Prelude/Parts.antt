-- ===== src/Prelude/Parts.antt =====
-- What the code uses of the standard library to cut texts into parts, for ASCII.
use Prim.Native.Nat.{ℕ, suc, ◌+◌, ◌≤◌}
use mathlib.Core.Path.{◌≡◌, refl}
use mathlib.Core.Bool.{Bool, false, ◌&&◌, ◌||◌}
use mathlib.Core.Logic.{inl, inr}
use mathlib.Core.List.{List, [], ◌∷◌, ◌++◌, map}
use native.Mathlib.Omega.{arith}
use acton_dx.Prelude.Tests.{leb, ◌==◌, if◌then◌else◌, Bool-cases}
use acton_dx.Prelude.Lists.{All, length}
use acton_dx.Prelude.Text.{Text, is_digit, Lacks}

abbrev pub is_uppercase : ℕ → Bool
is_uppercase c = leb b'A' c && leb c b'Z'

abbrev pub is_alphabetic : ℕ → Bool
is_alphabetic c = is_uppercase c || (leb b'a' c && leb c b'z')

abbrev pub is_alphanumeric : ℕ → Bool
is_alphanumeric c = is_alphabetic c || is_digit c

abbrev pub is_whitespace : ℕ → Bool
is_whitespace c = c == b' ' || (leb 9 c && leb c 13)

unfoldable pub to_lowercase : Text → Text
to_lowercase = map (λ c. if is_uppercase c then c + 32 else c)

unfoldable pub trim_start : Text → Text
trim_start [] = []
trim_start (c ∷ s) = if is_whitespace c then trim_start s else c ∷ s

unfoldable pub trim_end : Text → Text
trim_end [] = []
trim_end (c ∷ s) = keep c (trim_end s)
  where
    keep : ℕ → Text → Text
    keep c [] = if is_whitespace c then [] else c ∷ []
    keep c (d ∷ s) = c ∷ d ∷ s

unfoldable pub trim : Text → Text
trim s = trim_end (trim_start s)

-- A character in front of the first part: every text has one.
abbrev push : ℕ → List Text → List Text
push c [] = []
push c (w ∷ ws) = (c ∷ w) ∷ ws

-- `split` at a character
unfoldable pub split : ℕ → Text → List Text
split d [] = [] ∷ []
split d (c ∷ s) = if c == d then [] ∷ split d s else push c (split d s)

-- Each text behind a separator.
unfoldable pub behind : ℕ → List Text → Text
behind d [] = []
behind d (w ∷ ws) = d ∷ (w ++ behind d ws)

-- `join` with a character
unfoldable pub join : ℕ → List Text → Text
join d [] = []
join d (w ∷ ws) = w ++ behind d ws

-- A part ends where the character stands.
pub split-append : (d : ℕ) (w s : Text) → Lacks d w → split d (w ++ d ∷ s) ≡ w ∷ split d s
unfolding split
split-append d [] s h = ground arith
split-append d (c ∷ w) s h = rw (split, split-append d w s h.1, h.0) refl

-- A text without the character is one part.
pub split_lem : (d : ℕ) (w : Text) → Lacks d w → split d w ≡ w ∷ []
unfolding split
split_lem d [] h = refl
split_lem d (c ∷ w) h = rw (split, split_lem d w h.1, h.0) refl

abbrev pub NoSpace : Text → Type 0
NoSpace = All (λ c. is_whitespace c ≡ false)

trim_end_lem : (s : Text) → NoSpace s → trim_end s ≡ s
unfolding trim_end
trim_end_lem [] h = refl
trim_end_lem (c ∷ []) h = ground arith
trim_end_lem (c ∷ d ∷ s) h = rw (trim_end, trim_end_lem (d ∷ s) h.1) refl

pub trim_lem : (s : Text) → NoSpace s → trim s ≡ s
unfolding trim trim_start
trim_lem [] h = trim_end_lem [] h
trim_lem (c ∷ s) h = rw (trim, trim_start, h.0) (trim_end_lem (c ∷ s) h)

push-length :
    (d c : ℕ) (ws : List Text) → length (behind d (push c ws)) ≤ suc (length (behind d ws))
unfolding behind
push-length d c [] = omega arith
push-length d c (w ∷ ws) = omega arith

pub split-length : (d : ℕ) (s : Text) → length (behind d (split d s)) ≤ suc (length s)
unfolding split behind
split-length d [] = omega arith
split-length d (c ∷ s) = elim (Bool-cases (c == d)) [
  | inl here ↦ rw (split, here) (omega (arith, split-length d s))
  | inr there ↦ rw (split, there) (omega (arith, split-length d s, push-length d c (split d s)))
]

pub join-length : (d : ℕ) (ws : List Text) → length (join d ws) ≤ length (behind d ws)
unfolding join behind
join-length d [] = omega arith
join-length d (w ∷ ws) = omega arith
