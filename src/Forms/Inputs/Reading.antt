-- ===== src/Forms/Inputs/Reading.antt =====
-- How a reader of HTML goes through the inputs.
use acton_dx.Prelude.{
  ℕ, suc, ◌++◌, ◌==◌, Bool, true, false, ◌&&◌, Option, none, some, List, [], ◌∷◌, if◌then◌else◌,
}
use acton_dx.Prelude.Text.{Text, codes}
use acton_dx.Forms.{
  SelectOption, FieldKind, FormField, InputType, effective_id, input, textarea, select, checkbox,
  radio,
}
use acton_dx.Forms.Escape.Reader.{
  content, Reads, Reads-append, escape_attr-Reads, escape_html-Reads, place, tags, step, opens,
}
use acton_dx.Forms.Attributes.{FormRenderOptions, write_file_attrs}
use acton_dx.Forms.Attributes.Reading.{
  ◌▸◌, done, all_of, literal, Names, NoQuote, attr-Stays, attr-Starts, some-Stays, number-Stays,
  flag-Stays, class-Stays, attrs-Stays, file-Stays, htmx_field-Stays,
}
use acton_dx.Forms.Inputs.{
  as_str, is_file, is_hidden, render_input, render_textarea, render_options, render_select,
  render_checkbox, radio_from, render_radio, render_kind, write_value, is_value, or_true, option_id,
}

-- What the renderer does not escape, of a field: the names of attributes, and `hx-vals`.
pub record IsSafe (field : FormField) : Type 0 where
  pub vals_closed : NoQuote field.htmx.vals
  pub data_names : Names field.data_attrs
  pub custom_names : Names field.custom_attrs

-- The tags of an input, found apart from the text, closing tags included.
unfoldable pub options_tags : List SelectOption → Text
options_tags [] = []
options_tags (opt ∷ opts) = codes "<option</option" ++ options_tags opts

unfoldable pub radio_tags : List SelectOption → Text
radio_tags [] = []
radio_tags (opt ∷ opts) = codes "<div<input<label</label</div" ++ radio_tags opts

unfoldable pub kind_tags : FieldKind → Text
unfolding options_tags radio_tags
kind_tags (input t) = codes "<input"
kind_tags (textarea rows cols) = codes "<textarea</textarea"
kind_tags (select opts multiple) = codes "<select" ++ (options_tags opts ++ codes "</select")
kind_tags (checkbox checked) = codes "<input"
kind_tags (radio opts) = radio_tags opts

indent-Reads : (b : Bool) → Reads content (if b then codes "  " else codes "    ") content []
unfolding place tags step opens
indent-Reads true = literal (codes "  ")
indent-Reads false = literal (codes "    ")

value-Reads : (o : Option Text) → Reads content (write_value o) content []
unfolding write_value place tags
value-Reads none = literal []
value-Reads (some v) = escape_html-Reads v

options-Reads :
    (field : FormField) (opts : List SelectOption)
    → Reads content (render_options field opts) content (options_tags opts)
unfolding render_options options_tags place tags step opens
options-Reads field [] = literal []
options-Reads field (opt ∷ opts) =
    (Reads-append _ (render_options field opts)
      (all_of _ (
        literal (codes "      <option")
        ▸ attr-Starts (codes "value") opt.value (literal (codes "value"))
        ▸ flag-Stays (codes " disabled") opt.disabled (literal (codes " disabled"))
        ▸ flag-Stays (codes " selected") (is_value field opt.value) (literal (codes " selected"))
        ▸ literal (codes ">")
        ▸ escape_html-Reads opt.label
        ▸ literal (codes "</option>\n")
        ▸ done))
      (options-Reads field opts))

module _ (field : FormField) (safe : IsSafe field) (e : Bool) (options : FormRenderOptions) where
  input-Reads :
      (t : InputType) → Reads content (render_input field t e options) content (codes "<input")
  unfolding render_input place tags step opens
  input-Reads t = all_of _ (
      indent-Reads (is_hidden t)
      ▸ literal (codes "<input")
      ▸ attr-Starts (codes "type") (as_str t) (literal (codes "type"))
      ▸ attr-Stays (codes "name") field.name (literal (codes "name"))
      ▸ attr-Stays (codes "id") (effective_id field) (literal (codes "id"))
      ▸ class-Stays field e options
      ▸ some-Stays (codes "value") field.value (literal (codes "value"))
      ▸ some-Stays (codes "placeholder") field.placeholder (literal (codes "placeholder"))
      ▸ flag-Stays (codes " required") field.flags.required (literal (codes " required"))
      ▸ flag-Stays (codes " disabled") field.flags.disabled (literal (codes " disabled"))
      ▸ flag-Stays (codes " readonly") field.flags.readonly (literal (codes " readonly"))
      ▸ flag-Stays (codes " autofocus") field.flags.autofocus (literal (codes " autofocus"))
      ▸ some-Stays (codes "autocomplete") field.autocomplete (literal (codes "autocomplete"))
      ▸ number-Stays (codes "minlength") field.min_length (literal (codes "minlength"))
      ▸ number-Stays (codes "maxlength") field.max_length (literal (codes "maxlength"))
      ▸ some-Stays (codes "min") field.min (literal (codes "min"))
      ▸ some-Stays (codes "max") field.max (literal (codes "max"))
      ▸ some-Stays (codes "step") field.step (literal (codes "step"))
      ▸ some-Stays (codes "pattern") field.pattern (literal (codes "pattern"))
      ▸ flag-Stays (write_file_attrs field.file_attrs) (is_file t) (file-Stays field.file_attrs)
      ▸ attrs-Stays (codes "data-") field.data_attrs (literal (codes "data-")) safe.data_names
      ▸ attrs-Stays [] field.custom_attrs (literal []) safe.custom_names
      ▸ htmx_field-Stays field.htmx safe.vals_closed
      ▸ literal (codes ">\n")
      ▸ done)

  textarea-Reads :
      (rows cols : Option ℕ)
      → Reads content
          (render_textarea field rows cols e options)
          content
          (codes "<textarea</textarea")
  unfolding render_textarea place tags step opens
  textarea-Reads rows cols = all_of _ (
      literal (codes "    <textarea")
      ▸ attr-Starts (codes "name") field.name (literal (codes "name"))
      ▸ attr-Stays (codes "id") (effective_id field) (literal (codes "id"))
      ▸ class-Stays field e options
      ▸ some-Stays (codes "placeholder") field.placeholder (literal (codes "placeholder"))
      ▸ number-Stays (codes "rows") rows (literal (codes "rows"))
      ▸ number-Stays (codes "cols") cols (literal (codes "cols"))
      ▸ flag-Stays (codes " required") field.flags.required (literal (codes " required"))
      ▸ flag-Stays (codes " disabled") field.flags.disabled (literal (codes " disabled"))
      ▸ flag-Stays (codes " readonly") field.flags.readonly (literal (codes " readonly"))
      ▸ htmx_field-Stays field.htmx safe.vals_closed
      ▸ literal (codes ">")
      ▸ value-Reads field.value
      ▸ literal (codes "</textarea>\n")
      ▸ done)

  checkbox-Reads :
      (checked : Bool)
      → Reads content (render_checkbox field checked e options) content (codes "<input")
  unfolding render_checkbox place tags step opens
  checkbox-Reads checked = all_of _ (
      literal (codes "    <input")
      ▸ attr-Starts (codes "type") (codes "checkbox") (literal (codes "type"))
      ▸ attr-Stays (codes "name") field.name (literal (codes "name"))
      ▸ attr-Stays (codes "id") (effective_id field) (literal (codes "id"))
      ▸ class-Stays field e options
      ▸ attr-Stays (codes "value") (or_true field.value) (literal (codes "value"))
      ▸ flag-Stays (codes " checked") checked (literal (codes " checked"))
      ▸ flag-Stays (codes " required") field.flags.required (literal (codes " required"))
      ▸ flag-Stays (codes " disabled") field.flags.disabled (literal (codes " disabled"))
      ▸ htmx_field-Stays field.htmx safe.vals_closed
      ▸ literal (codes ">")
      ▸ done)

  select-Reads :
      (opts : List SelectOption) (multiple : Bool)
      → Reads content
          (render_select field opts multiple e options)
          content
          (codes "<select" ++ (options_tags opts ++ codes "</select"))
  unfolding render_select place tags step opens
  select-Reads opts multiple =
      (all_of _ (
        literal (codes "    <select")
        ▸ attr-Starts (codes "name") field.name (literal (codes "name"))
        ▸ attr-Stays (codes "id") (effective_id field) (literal (codes "id"))
        ▸ class-Stays field e options
        ▸ flag-Stays (codes " multiple") multiple (literal (codes " multiple"))
        ▸ flag-Stays (codes " required") field.flags.required (literal (codes " required"))
        ▸ flag-Stays (codes " disabled") field.flags.disabled (literal (codes " disabled"))
        ▸ htmx_field-Stays field.htmx safe.vals_closed
        ▸ literal (codes ">\n")
        ▸ options-Reads field opts
        ▸ literal (codes "    </select>\n")
        ▸ done))

  radio-Reads :
      (i : ℕ) (opts : List SelectOption)
      → Reads content (radio_from field i opts e options) content (radio_tags opts)
  unfolding radio_from radio_tags place tags step opens
  radio-Reads i [] = literal []
  radio-Reads i (opt ∷ opts) =
      (Reads-append _ (radio_from field (suc i) opts e options)
        (all_of _ (
          literal (codes "    <div class=\"form-radio\">\n")
          ▸ literal (codes "      <input")
          ▸ attr-Starts (codes "type") (codes "radio") (literal (codes "type"))
          ▸ attr-Stays (codes "name") field.name (literal (codes "name"))
          ▸ attr-Stays (codes "id") (option_id field i) (literal (codes "id"))
          ▸ attr-Stays (codes "value") opt.value (literal (codes "value"))
          ▸ class-Stays field e options
          ▸ flag-Stays (codes " checked") (is_value field opt.value) (literal (codes " checked"))
          ▸ flag-Stays (codes " disabled") opt.disabled (literal (codes " disabled"))
          ▸ flag-Stays (codes " required") (field.flags.required && i == 0)
              (literal (codes " required"))
          ▸ literal (codes ">\n")
          ▸ literal (codes "      <label for=\"")
          ▸ escape_attr-Reads (option_id field i)
          ▸ literal (codes "\">")
          ▸ escape_html-Reads opt.label
          ▸ literal (codes "</label>\n")
          ▸ literal (codes "    </div>\n")
          ▸ done))
        (radio-Reads (suc i) opts))

  pub kind-Reads :
      (kind : FieldKind) → Reads content (render_kind field kind e options) content (kind_tags kind)
  unfolding render_kind kind_tags render_radio
  kind-Reads (input t) = input-Reads t
  kind-Reads (textarea rows cols) = textarea-Reads rows cols
  kind-Reads (select opts multiple) = select-Reads opts multiple
  kind-Reads (checkbox checked) = checkbox-Reads checked
  kind-Reads (radio opts) = radio-Reads 0 opts
