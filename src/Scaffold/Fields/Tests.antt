-- ===== src/Scaffold/Fields/Tests.antt =====
-- Definitions of fields, read and written.
use acton_dx.Prelude.{◌≡◌, refl, true, false, some, Result, ok}
use acton_dx.Prelude.Text.{Text, codes, text_eq}
use acton_dx.Prelude.Parts.{to_lowercase, trim, trim_start, trim_end}
use acton_dx.Scaffold.Types.{
  FieldDefinition, array, reference, show_type, show_modifiers, show_definition,
}
use acton_dx.Scaffold.Fields.{
  ParseError, is_valid_name, all_alphanumeric, is_modifier, any_in, parse,
}
use acton_dx.Scaffold.Fields.RoundTrip.{parse-show_definition}
use acton_dx.Scaffold.Fields.Total.{parse-returns}

-- For a name that is one word.
abbrev capital : Text → Text
capital s = s

abbrev authors : FieldDefinition
authors = record {
  name = codes "authors";
  field_type = array (reference (codes "User"));
  optional = true;
  unique = false;
  indexed = true;
}

shown : show_definition authors ≡ codes "authors:array:references:User:optional:indexed"
unfolding show_definition show_type show_modifiers
shown = refl

parse-show_definition_example :
    parse capital (codes "authors:array:references:User:optional:indexed") ≡ some (ok authors)
unfolding show_definition show_type show_modifiers is_valid_name all_alphanumeric is_modifier any_in
    to_lowercase trim trim_start trim_end text_eq
parse-show_definition_example =
    parse-show_definition capital authors refl ((refl, (refl, (refl, (refl, tt)))), refl, refl)

parse-returns_example :
    (r : Result FieldDefinition ParseError) × (parse capital (codes "a:array:array:x") ≡ some r)
parse-returns_example = parse-returns capital (codes "a:array:array:x")
