-- ===== src/Forms/Attributes/Values.antt =====
-- What a reader of HTML gets from the attributes of a tag.
use acton_dx.Prelude.{
  ℕ, zero, suc, Bool, true, false, not, ◌&&◌, ltb, leb, ◌==◌, if◌then◌else◌, arith, ◌≡◌, refl, ap,
  ◌∙◌, Option, none, some, List, [], ◌∷◌, ◌++◌, length, All, map,
}
use mathlib.Core.List.{append_assoc}
use acton_dx.Prelude.Text.{Text, codes, concat, split_once, strip_prefix}
use acton_dx.Forms.Escape.{escape_attr}
use acton_dx.Forms.Escape.Reader.{decode, decode-escape_attr, split_once-escape_attr}
use acton_dx.Forms.Attributes.{write_attr, write_attrs, is_empty}

-- What may stand in the name of an attribute: no space or control character, none of `"`, `'`, `/`, `=`
-- and `>`, which end a name or are errors in it, and no capital letter, which a reader changes.
unfoldable pub is_name_code : ℕ → Bool
is_name_code c =
    ltb b' ' c
    && not (c == b'"')
    && not (c == b'\'')
    && not (c == b'/')
    && not (c == b'=')
    && not (c == b'>')
    && not (leb b'A' c && leb c b'Z')
    && not (leb 127 c && leb c 159)

unfoldable pub are_name_codes : Text → Bool
are_name_codes [] = true
are_name_codes (c ∷ s) = is_name_code c && are_name_codes s

-- A name up to its `=`, and the text after that.
unfoldable pub read_name : Text → Option (Text × Text)
read_name [] = none
read_name (c ∷ s) =
    let more = read_name s in
    if c == b'='
    then some ([], s)
    else if is_name_code c
    then elim more [ none ↦ none | some (name, t) ↦ some (c ∷ name, t) ]
    else none

-- An attribute with a name and a value in double quotes, and the text after it.
unfoldable pub read_attr : Text → Option ((Text × Text) × Text)
unfolding read_name is_empty
read_attr s = elim (strip_prefix (codes " ") s) [
  | none ↦ none
  | some t ↦ elim (read_name t) [
    | none ↦ none
    | some (name, u) ↦ if is_empty name then none else elim (strip_prefix (codes "\"") u) [
      | none ↦ none
      | some v ↦ elim (split_once b'"' v) [
        | none ↦ none
        | some (value, rest) ↦ some ((name, decode none value), rest)
      ]
    ]
  ]
]

-- `n` attributes.
unfoldable pub read_attrs : ℕ → Text → Option (List (Text × Text) × Text)
read_attrs zero s = some ([], s)
read_attrs (suc n) s = elim (read_attr s) [
  | none ↦ none
  | some (a, t) ↦ elim (read_attrs n t) [ none ↦ none | some (more, rest) ↦ some (a ∷ more, rest) ]
]

write_attr-pieces :
    (name value rest : Text)
    → write_attr name value ++ rest
      ≡ codes " " ++ (name ++ b'=' ∷ (codes "\"" ++ (escape_attr value ++ b'"' ∷ rest)))
unfolding write_attr concat
write_attr-pieces name value rest = ap (◌∷◌ b' ') (
    append_assoc name _ rest
    ∙ ap (λ t. name ++ b'=' ∷ b'"' ∷ t) (append_assoc (escape_attr value) _ rest))

-- A name of an attribute that is read as it stands.
abbrev pub IsAttrName : Text → Type 0
IsAttrName s = (are_name_codes s ≡ true) × (is_empty s ≡ false)

name_code-other : (c : ℕ) → is_name_code c ≡ true → (c == b'=') ≡ false
unfolding is_name_code
name_code-other c h = ground arith

read_name-append :
    (name t : Text) → are_name_codes name ≡ true → read_name (name ++ b'=' ∷ t) ≡ some (name, t)
unfolding read_name are_name_codes
read_name-append [] t h = refl
read_name-append (c ∷ name) t h =
    let rest : read_name (name ++ b'=' ∷ t) ≡ some (name, t) =
      read_name-append name t (ground arith) in
    let first : is_name_code c ≡ true = ground arith in
    let other : (c == b'=') ≡ false = name_code-other c first in
    rw (read_name, other, first, rest) refl

read_attr-write_attr :
    (name value rest : Text)
    → IsAttrName name
    → read_attr (write_attr name value ++ rest) ≡ some ((name, value), rest)
unfolding read_attr strip_prefix is_empty
read_attr-write_attr name value rest h =
    rw
      (
        write_attr-pieces name value rest,
        read_attr,
        strip_prefix,
        read_name-append name (codes "\"" ++ (escape_attr value ++ b'"' ∷ rest)) h.0,
        h.1,
        split_once-escape_attr value rest,
        decode-escape_attr value,
      )
      refl

-- The attributes with the prefix before their names.
abbrev pub prefixed : Text → List (Text × Text) → List (Text × Text)
prefixed prefix = map (λ a. (prefix ++ a.0, a.1))

-- `read_attrs`, which reads names of attributes and values in double quotes with their references, gets the
-- attributes that were written, in order, with their names and values. Each name with its prefix is not
-- empty and has only characters that a name may have: no space or control character, none of `"`, `'`,
-- `/`, `=` and `>`, and no capital letter. The values are any texts.
pub read_attrs-write_attrs :
    (prefix : Text) (attrs : List (Text × Text)) (rest : Text)
    → All (λ a. IsAttrName (prefix ++ a.0)) attrs
    → read_attrs (length attrs) (write_attrs prefix attrs ++ rest)
      ≡ some (prefixed prefix attrs, rest)
unfolding read_attrs write_attrs
read_attrs-write_attrs prefix [] rest h = refl
read_attrs-write_attrs prefix ((name, value) ∷ attrs) rest h =
    rw
      (
        read_attrs,
        append_assoc (write_attr (prefix ++ name) value) (write_attrs prefix attrs) rest,
        read_attr-write_attr (prefix ++ name) value (write_attrs prefix attrs ++ rest) h.0,
        read_attrs-write_attrs prefix attrs rest h.1,
      )
      refl
