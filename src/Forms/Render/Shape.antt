-- ===== src/Forms/Render/Shape.antt =====
-- How a reader of HTML goes through a rendered form, and the tags that it meets.
use acton_dx.Prelude.{◌++◌, not, ◌&&◌, Option, none, some, List, [], ◌∷◌, if◌then◌else◌}
use acton_dx.Prelude.Text.{Text, codes, concat, Lacks}
use acton_dx.Forms.{FormField, FieldError, ValidationErrors, FormBuilder}
use acton_dx.Forms.Attributes.{FormRenderOptions}
use acton_dx.Forms.Inputs.Reading.{kind_tags}
use acton_dx.Forms.Render.{is_hidden_kind, is_checkbox_kind, field_errors}

-- The classes that the renderer writes as they are.
pub record IsQuoted (options : FormRenderOptions) : Type 0 where
  pub group_quoted : Lacks b'"' options.group_class
  pub label_quoted : Lacks b'"' options.label_class
  pub error_quoted : Lacks b'"' options.error_class
  pub help_quoted : Lacks b'"' options.help_class

-- The tags of an element that may be there.
abbrev tags_if {ℓ} : {A : Type ℓ} → Text → Option A → Text
tags_if element none = []
tags_if element (some a) = element

abbrev label_tags : Option Text → Text
label_tags = tags_if (codes "<label</label")

unfoldable pub errors_tags : List FieldError → Text
errors_tags [] = []
errors_tags (e ∷ es) = codes "<span</span" ++ errors_tags es

-- The tags of a field, found apart from the text: the label stands before the input, for a checkbox
-- behind it.
unfoldable pub field_tags : FormField → Option ValidationErrors → FormRenderOptions → Text
unfolding concat errors_tags
field_tags field errors options =
    let wrapped = options.wrap_fields && not (is_hidden_kind field.kind) in
    concat (
      (if wrapped then codes "<div" else [])
      ∷ (if not (is_hidden_kind field.kind) && not (is_checkbox_kind field.kind)
          then label_tags field.label
          else [])
      ∷ kind_tags field.kind
      ∷ (if is_checkbox_kind field.kind then label_tags field.label else [])
      ∷ errors_tags (field_errors errors field.name)
      ∷ tags_if (codes "<span</span") field.help_text
      ∷ (if wrapped then codes "</div" else [])
      ∷ [])

unfoldable pub fields_tags : List FormField → Option ValidationErrors → FormRenderOptions → Text
fields_tags [] errors options = []
fields_tags (f ∷ fs) errors options = field_tags f errors options ++ fields_tags fs errors options

unfoldable pub form_tags : FormBuilder → FormRenderOptions → Text
unfolding concat
form_tags form options = concat (
    codes "<form"
    ∷ tags_if (codes "<input") form.csrf_token
    ∷ (if form.htmx_validate then codes "<input" else [])
    ∷ fields_tags form.fields form.errors options
    ∷ tags_if (codes "<button</button") form.submit_text
    ∷ codes "</form"
    ∷ [])
