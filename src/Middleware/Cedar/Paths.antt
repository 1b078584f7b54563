-- ===== src/Middleware/Cedar/Paths.antt =====
-- acton-dx/src/htmx/middleware/cedar.rs: `normalize_path_generic`, whose two replacements by regular
-- expressions are written out as the leftmost matches that do not overlap. The digits are those of ASCII,
-- as the path of a URI has no others.
use acton_dx.Prelude.{
  ℕ, zero, suc, ◌==◌, Bool, true, false, not, ◌&&◌, ◌||◌, Option, none, some, [], ◌∷◌, ◌++◌, leb,
  if◌then◌else◌, is_some,
}
use acton_dx.Prelude.Text.{Text, codes, is_digit}

abbrev is_hex : ℕ → Bool
is_hex c = is_digit c || (leb b'a' c && leb c b'f')

-- What is behind so many hexadecimal digits.
unfoldable pub hex : ℕ → Text → Option Text
hex zero s = some s
hex (suc n) [] = none
hex (suc n) (c ∷ s) = if is_hex c then hex n s else none

-- What is behind a dash and so many hexadecimal digits.
unfoldable pub dash_hex : ℕ → Option Text → Option Text
dash_hex n none = none
dash_hex n (some []) = none
dash_hex n (some (c ∷ s)) = if c == b'-' then hex n s else none

-- Whether the first expression matches at the start of a text.
unfoldable pub starts_with_uuid : Text → Bool
starts_with_uuid s = is_some (dash_hex 12 (dash_hex 4 (dash_hex 4 (dash_hex 4 (hex 8 s)))))

-- The first `skip` characters belong to a match.
unfoldable pub replace_uuids : (skip : ℕ) → Text → Text
replace_uuids skip [] = []
replace_uuids (suc skip) (c ∷ s) = replace_uuids skip s
replace_uuids zero (c ∷ s) = elim (starts_with_uuid (c ∷ s)) [
  | true ↦ codes "{id}" ++ replace_uuids 35 s
  | false ↦ c ∷ replace_uuids zero s
]

-- Behind a slash: how many digits there are up to a slash or the end, and whether it is a slash.
unfoldable pub digits_at : (seen : ℕ) → Text → Option (ℕ × Bool)
digits_at seen [] = if seen == 0 then none else some (seen, false)
digits_at seen (c ∷ s) =
    let rest = digits_at (suc seen) s in
    if is_digit c then rest else if c == b'/' && not (seen == 0) then some (seen, true) else none

unfoldable pub replace_numbers : (skip : ℕ) → Text → Text
replace_numbers skip [] = []
replace_numbers (suc skip) (c ∷ s) = replace_numbers skip s
replace_numbers zero (c ∷ s) =
    let matched = if c == b'/' then digits_at 0 s else none in
    elim matched [
      | none ↦ c ∷ replace_numbers zero s
      | some (n, false) ↦ codes "/{id}" ++ replace_numbers n s
      | some (n, true) ↦ codes "/{id}/" ++ replace_numbers (suc n) s
    ]

unfoldable pub normalize_path_generic : Text → Text
normalize_path_generic path = replace_numbers 0 (replace_uuids 0 path)
