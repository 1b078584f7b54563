-- ===== src/Scaffold/Fields/RoundTrip.antt =====
-- Definitions that are written are read back.
use acton_dx.Prelude.{
  ℕ, zero, suc, ◌<◌, ◌==◌, ◌≡◌, refl, ap, ◌∙◌, Bool, true, false, not, ◌&&◌, some, List, [], ◌∷◌,
  ◌++◌, length, if◌then◌else◌, ok, arith, length-append,
}
use mathlib.Core.List.{append-nil}
use acton_dx.Prelude.Dict
use acton_dx.Prelude.Text.{Text, codes, text_eq, text_discrete, strip_prefix, Lacks}
use acton_dx.Prelude.Parts.{
  to_lowercase, trim, trim_start, trim_end, split, join, behind, split-append, split_lem, trim_lem,
  NoSpace,
}
use acton_dx.Scaffold.Types.{
  FieldType, FieldDefinition, string, text, integer, big_int, boolean, float, double, decimal, date,
  date_time, timestamp, json, uuid, reference, array, enum_of, show_type, show_modifiers,
  show_definition,
}
use acton_dx.Scaffold.Fields.{
  any_in, all_alphanumeric, is_valid_name, is_modifier, split_modifiers, parse_modifiers,
  parse_primitive, parse_element, parse_type, with_modifiers, parse_named, parse_parts, parse,
}

-- The types that the text of a definition can hold: a model's name is trimmed, has no colon and is no
-- modifier, and there is no enum.
abbrev pub IsPlain : FieldType → Type 0
IsPlain (reference model) = Lacks b':' model × (trim model ≡ model) × (is_modifier model ≡ false)
IsPlain (array t) = IsPlain t
IsPlain (enum_of name variants) = ⊥
IsPlain t = Unit

-- The parts of a type's text, the first and the others.
unfoldable first_part : FieldType → Text
first_part (reference model) = codes "references"
first_part (array t) = codes "array"
first_part string = codes "string"
first_part text = codes "text"
first_part integer = codes "integer"
first_part big_int = codes "bigint"
first_part boolean = codes "boolean"
first_part float = codes "float"
first_part double = codes "double"
first_part decimal = codes "decimal"
first_part date = codes "date"
first_part date_time = codes "datetime"
first_part timestamp = codes "timestamp"
first_part json = codes "json"
first_part uuid = codes "uuid"
first_part (enum_of name variants) = []

unfoldable more_parts : FieldType → List Text
more_parts (reference model) = model ∷ []
more_parts (array t) = first_part t ∷ more_parts t
more_parts _ = []

-- The text `s` begins where a part ends: what splits into `ms` behind any part.
abbrev Follows : Text → List Text → Type 0
Follows s ms = (w : Text) → Lacks b':' w → split b':' (w ++ s) ≡ w ∷ ms

abbrev modifier_parts : Bool → Bool → Bool → List Text
modifier_parts o u i =
    (if o then codes "optional" ∷ [] else [])
    ++ ((if u then codes "unique" ∷ [] else []) ++ (if i then codes "indexed" ∷ [] else []))

show_modifiers-Follows : (o u i : Bool) → Follows (show_modifiers o u i) (modifier_parts o u i)
unfolding show_modifiers split
show_modifiers-Follows false false false w h =
    rw (show_modifiers, append-nil w) (split_lem b':' w h)
show_modifiers-Follows true true true w h = split-append b':' w _ h
show_modifiers-Follows true true false w h = split-append b':' w _ h
show_modifiers-Follows true false true w h = split-append b':' w _ h
show_modifiers-Follows true false false w h = split-append b':' w _ h
show_modifiers-Follows false true true w h = split-append b':' w _ h
show_modifiers-Follows false true false w h = split-append b':' w _ h
show_modifiers-Follows false false true w h = split-append b':' w _ h

-- Whether a written text lacks a character.
lacks : ℕ → Text → Bool
lacks d [] = true
lacks d (c ∷ s) = not (c == d) && lacks d s

lacks-Lacks : (d : ℕ) (s : Text) → lacks d s ≡ true → Lacks d s
unfolding lacks
lacks-Lacks d [] h = tt
lacks-Lacks d (c ∷ s) h = (ground arith, lacks-Lacks d s (ground arith))

show_type-parts :
    (t : FieldType) (s : Text) (ms : List Text)
    → IsPlain t
    → Follows s ms
    → split b':' (show_type t ++ s) ≡ first_part t ∷ (more_parts t ++ ms)
unfolding show_type first_part more_parts lacks
show_type-parts (reference model) s ms plain f =
    split-append b':' (codes "references") (model ++ s) (lacks-Lacks b':' (codes "references") refl)
    ∙ ap (◌∷◌ (codes "references")) (f model plain.0)
show_type-parts (array t) s ms plain f =
    split-append b':' (codes "array") (show_type t ++ s) (lacks-Lacks b':' (codes "array") refl)
    ∙ ap (◌∷◌ (codes "array")) (show_type-parts t s ms plain f)
show_type-parts (enum_of name variants) s ms plain f = absurd plain
show_type-parts t s ms plain f = f (first_part t) (lacks-Lacks b':' (first_part t) refl)

-- The parts of a type, joined, are its text.
join-parts : (t : FieldType) → IsPlain t → join b':' (first_part t ∷ more_parts t) ≡ show_type t
unfolding join behind show_type first_part more_parts
join-parts (reference model) plain = ap (λ m. codes "references:" ++ m) (append-nil model)
join-parts (array t) plain = ap (λ s. codes "array:" ++ s) (join-parts t plain)
join-parts (enum_of name variants) plain = absurd plain
join-parts t plain = refl

split_modifiers-parts :
    (t : FieldType) (ms : List Text)
    → IsPlain t
    → split_modifiers ms ≡ ([], ms)
    → split_modifiers (first_part t ∷ (more_parts t ++ ms)) ≡ (first_part t ∷ more_parts t, ms)
unfolding split_modifiers first_part more_parts is_modifier any_in to_lowercase trim trim_start
    trim_end text_eq
split_modifiers-parts (reference model) ms plain h = rw (split_modifiers, plain.2, h) refl
split_modifiers-parts (array t) ms plain h =
    rw (split_modifiers, split_modifiers-parts t ms plain h) refl
split_modifiers-parts (enum_of name variants) ms plain h = absurd plain
split_modifiers-parts t ms plain h = rw (split_modifiers, h) refl

split_modifiers-modifiers :
    (o u i : Bool) → split_modifiers (modifier_parts o u i) ≡ ([], modifier_parts o u i)
unfolding split_modifiers is_modifier any_in to_lowercase trim trim_start trim_end text_eq
split_modifiers-modifiers true u i = refl
split_modifiers-modifiers false true i = refl
split_modifiers-modifiers false false true = refl
split_modifiers-modifiers false false false = refl

parse_modifiers-modifiers :
    (o u i : Bool) → parse_modifiers false false false (modifier_parts o u i) ≡ ok (o, u, i)
unfolding parse_modifiers any_in to_lowercase trim trim_start trim_end text_eq
parse_modifiers-modifiers true true true = refl
parse_modifiers-modifiers true true false = refl
parse_modifiers-modifiers true false true = refl
parse_modifiers-modifiers true false false = refl
parse_modifiers-modifiers false true true = refl
parse_modifiers-modifiers false true false = refl
parse_modifiers-modifiers false false true = refl
parse_modifiers-modifiers false false false = refl

-- A name that is valid has no colon, and no space around it.
alphanumeric-Lacks : (s : Text) → all_alphanumeric true s ≡ true → Lacks b':' s
unfolding all_alphanumeric
alphanumeric-Lacks [] h = tt
alphanumeric-Lacks (c ∷ s) h = (ground arith, alphanumeric-Lacks s (ground arith))

alphanumeric-NoSpace : (s : Text) → all_alphanumeric true s ≡ true → NoSpace s
unfolding all_alphanumeric
alphanumeric-NoSpace [] h = tt
alphanumeric-NoSpace (c ∷ s) h = (ground arith, alphanumeric-NoSpace s (ground arith))

is_valid_name-alphanumeric : (s : Text) → is_valid_name s ≡ true → all_alphanumeric true s ≡ true
unfolding is_valid_name
is_valid_name-alphanumeric [] h = absurd (ground arith)
is_valid_name-alphanumeric (c ∷ s) h = ground arith

module _ (to_pascal_case : Text → Text) where
  parse_type-show_type :
      (t : FieldType) (fuel : ℕ) (name : Text)
      → IsPlain t
      → length (show_type t) < fuel
      → parse_type to_pascal_case fuel name (show_type t) ≡ some (ok t)
  unfolding parse_type parse_element parse_primitive show_type strip_prefix to_lowercase Dict.lookup
      text_discrete text_eq
  parse_type-show_type t zero name plain enough = absurd (omega arith)
  parse_type-show_type (reference model) (suc fuel) name plain enough = rw plain.1 refl
  parse_type-show_type (array t) (suc fuel) name plain enough =
      rw (parse_type, parse_type-show_type t fuel name plain (omega (arith, enough))) refl
  parse_type-show_type (enum_of n variants) (suc fuel) name plain enough = absurd plain
  parse_type-show_type t (suc fuel) name plain enough = refl

  parse_named-parts :
      (fuel : ℕ) (name : Text) (t : FieldType) (o u i : Bool)
      → is_valid_name name ≡ true
      → IsPlain t
      → length (show_type t) < fuel
      → parse_named to_pascal_case fuel name (first_part t ∷ (more_parts t ++ modifier_parts o u i))
        ≡ some (ok (record { name = name; field_type = t; optional = o; unique = u; indexed = i }))
  unfolding parse_named with_modifiers is_valid_name
  parse_named-parts fuel [] t o u i valid plain enough = absurd (ground arith)
  parse_named-parts fuel (c ∷ name) t o u i valid plain enough =
      let parted : split_modifiers (first_part t ∷ (more_parts t ++ modifier_parts o u i))
          ≡ (first_part t ∷ more_parts t, modifier_parts o u i) =
        split_modifiers-parts t (modifier_parts o u i) plain (split_modifiers-modifiers o u i) in
      rw
        (
          parse_named,
          parted,
          valid,
          join-parts t plain,
          parse_type-show_type t fuel (c ∷ name) plain enough,
          parted,
          with_modifiers,
          parse_modifiers-modifiers o u i,
        )
        refl

  -- A definition that is written is read back as it was, if its name is valid, its type holds no enum,
  -- and the model of a reference is trimmed, has no colon and is no modifier.
  pub parse-show_definition :
      (d : FieldDefinition)
      → is_valid_name d.name ≡ true
      → IsPlain d.field_type
      → parse to_pascal_case (show_definition d) ≡ some (ok d)
  unfolding parse show_definition parse_parts
  parse-show_definition d valid plain =
      let word : all_alphanumeric true d.name ≡ true = is_valid_name-alphanumeric d.name valid in
      let follows = show_modifiers-Follows d.optional d.unique d.indexed in
      let typed : split b':'
            (show_type d.field_type ++ show_modifiers d.optional d.unique d.indexed)
          ≡ first_part d.field_type
            ∷ (more_parts d.field_type ++ modifier_parts d.optional d.unique d.indexed) =
        show_type-parts d.field_type _ _ plain follows in
      rw
        (
          parse,
          show_definition,
          split-append b':' d.name
              (show_type d.field_type ++ show_modifiers d.optional d.unique d.indexed)
              (alphanumeric-Lacks d.name word),
          typed,
          parse_parts,
          trim_lem d.name (alphanumeric-NoSpace d.name word),
        )
        (parse_named-parts _ d.name d.field_type d.optional d.unique d.indexed valid plain (
          omega (
            arith,
            length-append d.name
                (b':' ∷ (show_type d.field_type ++ show_modifiers d.optional d.unique d.indexed)),
            length-append (show_type d.field_type) (show_modifiers d.optional d.unique d.indexed),
          )))
