-- ===== src/Forms/Inputs.antt =====
-- acton-dx/src/htmx/forms/render.rs: the inputs, from `render_input` to `render_radio`, and
-- `InputType::as_str` of acton-dx/src/htmx/forms/field.rs. Each function returns the text that it appends.
pub mod Reading
use acton_dx.Prelude.{
  ℕ, zero, suc, ◌≡◌, ◌==◌, Bool, true, false, not, ◌&&◌, Option, none, some, List, [], ◌∷◌, ◌++◌,
  if◌then◌else◌,
}
use acton_dx.Prelude.Text.{Text, codes, text_eq, concat, show}
use acton_dx.Forms.{
  FieldFlags, InputType, SelectOption, FieldKind, HtmxFieldAttrs, FileFieldAttrs, FormField,
  FieldError, ValidationErrors, HtmxFormAttrs, FormBuilder, effective_id, for_field, text, email,
  password, number, tel, url, search, date, time, date_time_local, month, week, color, range,
  hidden, file, input, textarea, select, checkbox, radio,
}
use acton_dx.Forms.Escape.{escape_attr, escape_html}
use acton_dx.Forms.Attributes.{
  FormRenderOptions, write_attr, write_some, write_number, flag, write_attrs,
  write_htmx_field_attrs, write_class, write_file_attrs,
}

unfoldable pub as_str : InputType → Text
as_str text = codes "text"
as_str email = codes "email"
as_str password = codes "password"
as_str number = codes "number"
as_str tel = codes "tel"
as_str url = codes "url"
as_str search = codes "search"
as_str date = codes "date"
as_str time = codes "time"
as_str date_time_local = codes "datetime-local"
as_str month = codes "month"
as_str week = codes "week"
as_str color = codes "color"
as_str range = codes "range"
as_str hidden = codes "hidden"
as_str file = codes "file"

unfoldable pub is_file : InputType → Bool
is_file file = true
is_file _ = false

unfoldable pub is_hidden : InputType → Bool
is_hidden hidden = true
is_hidden _ = false

unfoldable pub render_input : FormField → InputType → Bool → FormRenderOptions → Text
render_input field input_type has_errors options = concat (
    (if is_hidden input_type then codes "  " else codes "    ")
    ∷ codes "<input"
    ∷ write_attr (codes "type") (as_str input_type)
    ∷ write_attr (codes "name") field.name
    ∷ write_attr (codes "id") (effective_id field)
    ∷ write_class field has_errors options
    ∷ write_some (codes "value") field.value
    ∷ write_some (codes "placeholder") field.placeholder
    ∷ flag (codes " required") field.flags.required
    ∷ flag (codes " disabled") field.flags.disabled
    ∷ flag (codes " readonly") field.flags.readonly
    ∷ flag (codes " autofocus") field.flags.autofocus
    ∷ write_some (codes "autocomplete") field.autocomplete
    ∷ write_number (codes "minlength") field.min_length
    ∷ write_number (codes "maxlength") field.max_length
    ∷ write_some (codes "min") field.min
    ∷ write_some (codes "max") field.max
    ∷ write_some (codes "step") field.step
    ∷ write_some (codes "pattern") field.pattern
    ∷ flag (write_file_attrs field.file_attrs) (is_file input_type)
    ∷ write_attrs (codes "data-") field.data_attrs
    ∷ write_attrs [] field.custom_attrs
    ∷ write_htmx_field_attrs field.htmx
    ∷ codes ">\n"
    ∷ [])

-- The value between the tags of a text area.
unfoldable pub write_value : Option Text → Text
write_value none = []
write_value (some value) = escape_html value

unfoldable pub render_textarea : FormField → Option ℕ → Option ℕ → Bool → FormRenderOptions → Text
render_textarea field rows cols has_errors options = concat (
    codes "    <textarea"
    ∷ write_attr (codes "name") field.name
    ∷ write_attr (codes "id") (effective_id field)
    ∷ write_class field has_errors options
    ∷ write_some (codes "placeholder") field.placeholder
    ∷ write_number (codes "rows") rows
    ∷ write_number (codes "cols") cols
    ∷ flag (codes " required") field.flags.required
    ∷ flag (codes " disabled") field.flags.disabled
    ∷ flag (codes " readonly") field.flags.readonly
    ∷ write_htmx_field_attrs field.htmx
    ∷ codes ">"
    ∷ write_value field.value
    ∷ codes "</textarea>\n"
    ∷ [])

-- Whether the field's value is this one.
unfoldable pub is_value : FormField → Text → Bool
is_value field v = elim field.value [ none ↦ false | some w ↦ text_eq w v ]

unfoldable pub render_options : FormField → List SelectOption → Text
render_options field [] = []
render_options field (opt ∷ opts) =
    concat (
      codes "      <option"
      ∷ write_attr (codes "value") opt.value
      ∷ flag (codes " disabled") opt.disabled
      ∷ flag (codes " selected") (is_value field opt.value)
      ∷ codes ">"
      ∷ escape_html opt.label
      ∷ codes "</option>\n"
      ∷ [])
    ++ render_options field opts

unfoldable pub render_select :
    FormField → List SelectOption → Bool → Bool → FormRenderOptions → Text
render_select field opts multiple has_errors options = concat (
    codes "    <select"
    ∷ write_attr (codes "name") field.name
    ∷ write_attr (codes "id") (effective_id field)
    ∷ write_class field has_errors options
    ∷ flag (codes " multiple") multiple
    ∷ flag (codes " required") field.flags.required
    ∷ flag (codes " disabled") field.flags.disabled
    ∷ write_htmx_field_attrs field.htmx
    ∷ codes ">\n"
    ∷ render_options field opts
    ∷ codes "    </select>\n"
    ∷ [])

unfoldable pub or_true : Option Text → Text
or_true none = codes "true"
or_true (some value) = value

unfoldable pub render_checkbox : FormField → Bool → Bool → FormRenderOptions → Text
render_checkbox field checked has_errors options = concat (
    codes "    <input"
    ∷ write_attr (codes "type") (codes "checkbox")
    ∷ write_attr (codes "name") field.name
    ∷ write_attr (codes "id") (effective_id field)
    ∷ write_class field has_errors options
    ∷ write_attr (codes "value") (or_true field.value)
    ∷ flag (codes " checked") checked
    ∷ flag (codes " required") field.flags.required
    ∷ flag (codes " disabled") field.flags.disabled
    ∷ write_htmx_field_attrs field.htmx
    ∷ codes ">"
    ∷ [])

unfoldable pub option_id : FormField → ℕ → Text
option_id field i = concat (effective_id field ∷ codes "_" ∷ show i ∷ [])

-- The loop of `render_radio`, from the option `i`.
unfoldable pub radio_from : FormField → ℕ → List SelectOption → Bool → FormRenderOptions → Text
radio_from field i [] has_errors options = []
radio_from field i (opt ∷ opts) has_errors options =
    concat (
      codes "    <div class=\"form-radio\">\n"
      ∷ codes "      <input"
      ∷ write_attr (codes "type") (codes "radio")
      ∷ write_attr (codes "name") field.name
      ∷ write_attr (codes "id") (option_id field i)
      ∷ write_attr (codes "value") opt.value
      ∷ write_class field has_errors options
      ∷ flag (codes " checked") (is_value field opt.value)
      ∷ flag (codes " disabled") opt.disabled
      ∷ flag (codes " required") (field.flags.required && i == 0)
      ∷ codes ">\n"
      ∷ codes "      <label for=\""
      ∷ escape_attr (option_id field i)
      ∷ codes "\">"
      ∷ escape_html opt.label
      ∷ codes "</label>\n"
      ∷ codes "    </div>\n"
      ∷ [])
    ++ radio_from field (suc i) opts has_errors options

unfoldable pub render_radio : FormField → List SelectOption → Bool → FormRenderOptions → Text
render_radio field opts has_errors options = radio_from field 0 opts has_errors options

unfoldable pub render_kind : FormField → FieldKind → Bool → FormRenderOptions → Text
render_kind field (input t) e options = render_input field t e options
render_kind field (textarea rows cols) e options = render_textarea field rows cols e options
render_kind field (select opts multiple) e options = render_select field opts multiple e options
render_kind field (checkbox checked) e options = render_checkbox field checked e options
render_kind field (radio opts) e options = render_radio field opts e options
