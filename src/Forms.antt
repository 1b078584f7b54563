-- ===== src/Forms.antt =====
-- acton-dx/src/htmx/forms/field.rs, error.rs and builder.rs: fields, errors and forms. Texts are those
-- of Prelude/Text; the map of errors is an association list.
pub mod Escape
pub mod Attributes
pub mod Inputs
pub mod Render
mod Tests
use acton_dx.Prelude.{ℕ, Bool, Option, none, some, List, []}
use acton_dx.Prelude.Dict
use acton_dx.Prelude.Text.{Text, text_discrete}

pub record FieldFlags : Type 0 where
  pub required : Bool
  pub disabled : Bool
  pub readonly : Bool
  pub autofocus : Bool

pub data InputType : Type 0 where
  text email password number tel url search date time : InputType
  date_time_local month week color range hidden file : InputType

pub record SelectOption : Type 0 where
  pub value : Text
  pub label : Text
  pub disabled : Bool

pub data FieldKind : Type 0 where
  input : InputType → FieldKind
  textarea : Option ℕ → Option ℕ → FieldKind
  select : List SelectOption → Bool → FieldKind
  checkbox : Bool → FieldKind
  radio : List SelectOption → FieldKind

pub record HtmxFieldAttrs : Type 0 where
  pub get : Option Text
  pub post : Option Text
  pub put : Option Text
  pub delete : Option Text
  pub patch : Option Text
  pub target : Option Text
  pub swap : Option Text
  pub trigger : Option Text
  pub indicator : Option Text
  pub vals : Option Text
  pub validate : Bool

pub record FileFieldAttrs : Type 0 where
  pub accept : Option Text
  pub multiple : Bool
  pub max_size_mb : Option ℕ
  pub show_preview : Bool
  pub drag_drop : Bool
  pub progress_endpoint : Option Text

pub record FormField : Type 0 where
  pub name : Text
  pub kind : FieldKind
  pub label : Option Text
  pub placeholder : Option Text
  pub value : Option Text
  pub flags : FieldFlags
  pub autocomplete : Option Text
  pub min_length : Option ℕ
  pub max_length : Option ℕ
  pub min : Option Text
  pub max : Option Text
  pub step : Option Text
  pub pattern : Option Text
  pub class : Option Text
  pub id : Option Text
  pub help_text : Option Text
  pub htmx : HtmxFieldAttrs
  pub data_attrs : List (Text × Text)
  pub custom_attrs : List (Text × Text)
  pub file_attrs : FileFieldAttrs

unfoldable pub effective_id : FormField → Text
effective_id field = elim field.id [ none ↦ field.name | some id ↦ id ]

pub record FieldError : Type 0 where
  pub message : Text
  pub code : Option Text

abbrev pub ValidationErrors : Type 0
ValidationErrors = List (Text × List FieldError)

unfoldable pub for_field : Text → ValidationErrors → List FieldError
for_field name errors = elim (Dict.lookup text_discrete name errors) [
  | none ↦ []
  | some found ↦ found
]

pub record HtmxFormAttrs : Type 0 where
  pub get : Option Text
  pub post : Option Text
  pub put : Option Text
  pub delete : Option Text
  pub patch : Option Text
  pub target : Option Text
  pub swap : Option Text
  pub trigger : Option Text
  pub indicator : Option Text
  pub push_url : Option Text
  pub confirm : Option Text
  pub disabled_elt : Option Text

pub record FormBuilder : Type 0 where
  pub action : Text
  pub method : Text
  pub id : Option Text
  pub class : Option Text
  pub csrf_token : Option Text
  pub enctype : Option Text
  pub fields : List FormField
  pub submit_text : Option Text
  pub submit_class : Option Text
  pub errors : Option ValidationErrors
  pub htmx : HtmxFormAttrs
  pub custom_attrs : List (Text × Text)
  pub htmx_validate : Bool
  pub novalidate : Bool
