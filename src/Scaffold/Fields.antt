-- ===== src/Scaffold/Fields.antt =====
-- acton-dx/src/cli/htmx/scaffold/field_type.rs: the definition of a field, read. The name of
-- an enum's type in Rust is made by `to_pascal_case` of another package, a parameter.
pub mod RoundTrip
pub mod Total
mod Tests
use acton_dx.Prelude.{
  ℕ, zero, suc, ◌+◌, ◌==◌, Bool, true, false, not, ◌&&◌, ◌||◌, Option, none, some, List, [], ◌∷◌,
  ◌++◌, length, if◌then◌else◌, Result, ok, err, map,
}
use acton_dx.Prelude.Dict
use acton_dx.Prelude.Text.{Text, codes, text_eq, text_discrete, strip_prefix}
use acton_dx.Scaffold.Types.{
  FieldType, FieldDefinition, string, text, integer, big_int, boolean, float, double, decimal, date,
  date_time, timestamp, json, uuid, reference, array, enum_of,
}
use acton_dx.Prelude.Parts.{
  is_alphabetic, is_alphanumeric, is_uppercase, to_lowercase, trim, split, join,
}

pub data ParseError : Type 0 where
  too_few_parts empty_name invalid_name no_variants : ParseError
  invalid_variant unknown_type unknown_modifier : Text → ParseError

unfoldable pub any_in : Text → List Text → Bool
any_in s [] = false
any_in s (t ∷ ts) = text_eq s t || any_in s ts

unfoldable pub all_alphanumeric : Bool → Text → Bool
all_alphanumeric underscore [] = true
all_alphanumeric underscore (c ∷ s) =
    (is_alphanumeric c || (underscore && c == b'_')) && all_alphanumeric underscore s

unfoldable pub is_valid_name : Text → Bool
is_valid_name [] = false
is_valid_name (c ∷ s) = is_alphabetic c && all_alphanumeric true (c ∷ s)

unfoldable pub is_valid_variant : Text → Bool
is_valid_variant [] = false
is_valid_variant (c ∷ s) = is_uppercase c && all_alphanumeric false (c ∷ s)

-- The types that are one word.
abbrev primitives : List (Text × FieldType)
primitives =
    (codes "string", string)
    ∷ (codes "text", text)
    ∷ (codes "integer", integer)
    ∷ (codes "int", integer)
    ∷ (codes "i32", integer)
    ∷ (codes "bigint", big_int)
    ∷ (codes "biginteger", big_int)
    ∷ (codes "i64", big_int)
    ∷ (codes "boolean", boolean)
    ∷ (codes "bool", boolean)
    ∷ (codes "float", float)
    ∷ (codes "f32", float)
    ∷ (codes "double", double)
    ∷ (codes "f64", double)
    ∷ (codes "decimal", decimal)
    ∷ (codes "date", date)
    ∷ (codes "datetime", date_time)
    ∷ (codes "timestamp", timestamp)
    ∷ (codes "json", json)
    ∷ (codes "jsonb", json)
    ∷ (codes "uuid", uuid)
    ∷ []

unfoldable pub parse_primitive : Text → Result FieldType ParseError
parse_primitive s = elim (Dict.lookup text_discrete (to_lowercase s) primitives) [
  | none ↦ err (unknown_type (to_lowercase s))
  | some t ↦ ok t
]

-- The variants without those that are blank.
unfoldable pub variants_of : List Text → List Text
variants_of [] = []
variants_of (v ∷ vs) = elim (trim v) [ [] ↦ variants_of vs | c ∷ s ↦ (c ∷ s) ∷ variants_of vs ]

unfoldable pub first_invalid : List Text → Option Text
first_invalid [] = none
first_invalid (v ∷ vs) = if is_valid_variant v then first_invalid vs else some v

unfoldable pub is_modifier : Text → Bool
is_modifier s =
    any_in (to_lowercase (trim s))
      (codes "optional" ∷ codes "unique" ∷ codes "indexed" ∷ codes "index" ∷ [])

-- The parts before the first modifier, and the others.
unfoldable pub split_modifiers : List Text → List Text × List Text
split_modifiers [] = ([], [])
split_modifiers (p ∷ ps) =
    let (types, modifiers) = split_modifiers ps in
    if is_modifier p then ([], p ∷ ps) else (p ∷ types, modifiers)

-- The loop over the modifiers, from the flags `optional`, `unique` and `indexed` so far.
unfoldable pub parse_modifiers :
    Bool → Bool → Bool → List Text → Result (Bool × Bool × Bool) ParseError
parse_modifiers o u i [] = ok (o, u, i)
parse_modifiers o u i (p ∷ ps) =
    let modifier = to_lowercase (trim p) in
    if text_eq modifier (codes "optional")
    then parse_modifiers true u i ps
    else if text_eq modifier (codes "unique")
    then parse_modifiers o true i ps
    else if any_in modifier (codes "indexed" ∷ codes "index" ∷ [])
    then parse_modifiers o u true ps
    else err (unknown_modifier modifier)

module _ (to_pascal_case : Text → Text) where
  unfoldable pub parse_enum : Text → Text → Result FieldType ParseError
  parse_enum field_name variants_str =
      let variants = variants_of (split b',' variants_str) in
      elim variants [
        | [] ↦ err no_variants
        | v ∷ vs ↦ elim (first_invalid (v ∷ vs)) [
          | some bad ↦ err (invalid_variant bad)
          | none ↦ ok (enum_of (to_pascal_case field_name) (v ∷ vs))
        ]
      ]

  -- `parse_type` of what is no array.
  unfoldable pub parse_element : Text → Text → Result FieldType ParseError
  parse_element field_name s = elim (strip_prefix (codes "enum:") s) [
    | some variants_str ↦ parse_enum field_name variants_str
    | none ↦ elim (strip_prefix (codes "references:") s) [
      | some model ↦ ok (reference (trim model))
      | none ↦ elim (strip_prefix (codes "belongs_to:") s) [
        | some model ↦ ok (reference (trim model))
        | none ↦ parse_primitive s
      ]
    ]
  ]

  -- `parse_type`; `none` means that the fuel ran out.
  unfoldable pub parse_type : ℕ → Text → Text → Option (Result FieldType ParseError)
  parse_type zero field_name s = none
  parse_type (suc fuel) field_name s = elim (strip_prefix (codes "array:") s) [
    | none ↦ some (parse_element field_name s)
    | some element ↦ elim (parse_type fuel field_name element) [
      | none ↦ none
      | some (err e) ↦ some (err e)
      | some (ok t) ↦ some (ok (array t))
    ]
  ]

  -- The end of `parse`, with the type and the parts behind it.
  unfoldable pub with_modifiers :
      Text → Result FieldType ParseError → List Text → Result FieldDefinition ParseError
  with_modifiers name (err e) modifiers = err e
  with_modifiers name (ok t) modifiers = elim (parse_modifiers false false false modifiers) [
    | err e ↦ err e
    | ok (o, u, i) ↦
        ok (record { name = name; field_type = t; optional = o; unique = u; indexed = i })
  ]

  -- `parse` of a definition with a name that is trimmed.
  unfoldable pub parse_named : ℕ → Text → List Text → Option (Result FieldDefinition ParseError)
  parse_named fuel [] parts = some (err empty_name)
  parse_named fuel (c ∷ name) parts =
      let (types, modifiers) = split_modifiers parts in
      if not (is_valid_name (c ∷ name))
      then some (err invalid_name)
      else elim (parse_type fuel (c ∷ name) (join b':' types)) [
        | none ↦ none
        | some t ↦ some (with_modifiers (c ∷ name) t modifiers)
      ]

  unfoldable pub parse_parts : ℕ → List Text → Option (Result FieldDefinition ParseError)
  parse_parts fuel [] = some (err too_few_parts)
  parse_parts fuel (name ∷ []) = some (err too_few_parts)
  parse_parts fuel (name ∷ p ∷ ps) = parse_named fuel (trim name) (p ∷ ps)

  -- `FieldDefinition::parse`, with the length of its input as the fuel.
  unfoldable pub parse : Text → Option (Result FieldDefinition ParseError)
  parse s = parse_parts (suc (length s)) (split b':' s)
