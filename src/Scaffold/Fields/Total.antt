-- ===== src/Scaffold/Fields/Total.antt =====
-- Every text is read or refused.
use acton_dx.Prelude.{
  ℕ, zero, suc, ◌+◌, ◌<◌, ◌≤◌, ◌≡◌, refl, some, inl, inr, List, [], ◌∷◌, length, Result, ok, err,
  arith, Option-cases, Bool-cases, length-append,
}
use acton_dx.Prelude.Text.{Text, codes, strip_prefix}
use acton_dx.Prelude.Parts.{trim, split, join, behind, split-length, join-length}
use acton_dx.Scaffold.Types.{FieldType, FieldDefinition, array}
use acton_dx.Scaffold.Fields.{
  ParseError, too_few_parts, empty_name, invalid_name, is_valid_name, is_modifier, split_modifiers,
  parse_element, parse_type, with_modifiers, parse_named, parse_parts, parse,
}

split_modifiers-length :
    (d : ℕ) (ps : List Text) → length (behind d (split_modifiers ps).0) ≤ length (behind d ps)
unfolding split_modifiers behind
split_modifiers-length d [] = omega arith
split_modifiers-length d (p ∷ ps) = elim (Bool-cases (is_modifier p)) [
  | inl here ↦ rw (split_modifiers, here) (omega arith)
  | inr there ↦
      rw (split_modifiers, there)
        (omega (
          arith,
          split_modifiers-length d ps,
          length-append p (behind d (split_modifiers ps).0),
          length-append p (behind d ps),
        ))
]

module _ (to_pascal_case : Text → Text) where
  strip_prefix-length : (p s t : Text) → strip_prefix p s ≡ some t → length s ≡ length p + length t
  unfolding strip_prefix
  strip_prefix-length [] s t h = grind arith
  strip_prefix-length (c ∷ p) [] t h = absurd (ground arith)
  strip_prefix-length (c ∷ p) (d ∷ s) t h = grind (arith, strip_prefix-length p s t)

  parse_type-returns :
      (fuel : ℕ) (name s : Text)
      → length s < fuel
      → (r : Result FieldType ParseError) × (parse_type to_pascal_case fuel name s ≡ some r)
  unfolding parse_type
  parse_type-returns zero name s enough = absurd (omega arith)
  parse_type-returns (suc fuel) name s enough =
      elim (Option-cases (strip_prefix (codes "array:") s)) [
        | inl element ↦ (parse_element to_pascal_case name s, rw (parse_type, element) refl)
        | inr (inner, is_array) ↦
            let shorter : length inner < fuel =
              omega (arith, enough, strip_prefix-length (codes "array:") s inner is_array) in
            array-returns fuel name s inner is_array (parse_type-returns fuel name inner shorter)
      ]
    where
      array-returns :
          (fuel : ℕ) (name s inner : Text)
          → strip_prefix (codes "array:") s ≡ some inner
          → (r : Result FieldType ParseError) × (parse_type to_pascal_case fuel name inner ≡ some r)
          → (r : Result FieldType ParseError) × (parse_type to_pascal_case (suc fuel) name s
              ≡ some r)
      array-returns fuel name s inner is_array (err e, h) =
          (err e, rw (parse_type, is_array, h) refl)
      array-returns fuel name s inner is_array (ok t, h) =
          (ok (array t), rw (parse_type, is_array, h) refl)

  parse_named-returns :
      (fuel : ℕ) (name : Text) (parts : List Text)
      → length (behind b':' parts) < fuel
      → (r : Result FieldDefinition ParseError) × (parse_named to_pascal_case fuel name parts
          ≡ some r)
  unfolding parse_named
  parse_named-returns fuel [] parts enough = (err empty_name, refl)
  parse_named-returns fuel (c ∷ name) parts enough = elim (Bool-cases (is_valid_name (c ∷ name))) [
    | inl valid ↦
        let types = (split_modifiers parts).0 in
        let (t, h) =
          parse_type-returns fuel (c ∷ name) (join b':' types)
            (omega (arith, enough, join-length b':' types, split_modifiers-length b':' parts)) in
        (
          with_modifiers to_pascal_case (c ∷ name) t (split_modifiers parts).1,
          rw (parse_named, valid, h) refl,
        )
    | inr invalid ↦ (err invalid_name, rw (parse_named, invalid) refl)
  ]

  parse_parts-returns :
      (fuel : ℕ) (parts : List Text)
      → length (behind b':' parts) ≤ fuel
      → (r : Result FieldDefinition ParseError) × (parse_parts to_pascal_case fuel parts ≡ some r)
  unfolding parse_parts behind
  parse_parts-returns fuel [] enough = (err too_few_parts, refl)
  parse_parts-returns fuel (name ∷ []) enough = (err too_few_parts, refl)
  parse_parts-returns fuel (name ∷ p ∷ ps) enough =
      parse_named-returns fuel (trim name) (p ∷ ps)
        (omega (arith, enough, length-append name (behind b':' (p ∷ ps))))

  -- `parse` reads or refuses every text: the length of the text is fuel enough for the arrays in it.
  pub parse-returns :
      (s : Text) → (r : Result FieldDefinition ParseError) × (parse to_pascal_case s ≡ some r)
  unfolding parse
  parse-returns s = parse_parts-returns (suc (length s)) (split b':' s) (split-length b':' s)
