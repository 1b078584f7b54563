-- ===== src/Forms/Attributes.antt =====
-- acton-dx/src/htmx/forms/render.rs: the options and the attributes of tags. Each function returns the
-- text that it appends.
pub mod Reading
pub mod Values
use acton_dx.Prelude.{
  ℕ, zero, suc, ◌≡◌, ◌==◌, Bool, true, false, not, ◌&&◌, Option, none, some, List, [], ◌∷◌, ◌++◌,
  if◌then◌else◌,
}
use acton_dx.Prelude.Text.{Text, codes, text_eq, concat, show}
use acton_dx.Forms.{
  FieldFlags, InputType, SelectOption, FieldKind, HtmxFieldAttrs, FileFieldAttrs, FormField,
  FieldError, ValidationErrors, HtmxFormAttrs, FormBuilder, effective_id, for_field, text, email,
  password, number, tel, url, search, date, time, date_time_local, month, week, color, range,
  hidden, file, input, textarea, select, checkbox, radio,
}
use acton_dx.Forms.Escape.{escape_attr, escape_html}

pub record FormRenderOptions : Type 0 where
  pub group_class : Text
  pub label_class : Text
  pub input_class : Text
  pub error_class : Text
  pub help_class : Text
  pub submit_class : Text
  pub input_error_class : Text
  pub wrap_fields : Bool

abbrev pub default : FormRenderOptions
default = record {
  group_class = codes "form-group";
  label_class = codes "form-label";
  input_class = codes "form-input";
  error_class = codes "form-error";
  help_class = codes "form-help";
  submit_class = codes "form-submit";
  input_error_class = codes "form-input-error";
  wrap_fields = true;
}

unfoldable pub write_attr : Text → Text → Text
write_attr name value =
    concat (codes " " ∷ name ∷ codes "=\"" ∷ escape_attr value ∷ codes "\"" ∷ [])

-- An attribute whose value is there.
unfoldable pub write_some : Text → Option Text → Text
write_some name none = []
write_some name (some value) = write_attr name value

unfoldable pub write_number : Text → Option ℕ → Text
write_number name none = []
write_number name (some n) = write_attr name (show n)

unfoldable pub flag : Text → Bool → Text
flag t b = if b then t else []

-- Attributes whose names begin with `prefix`.
unfoldable pub write_attrs : Text → List (Text × Text) → Text
write_attrs prefix [] = []
write_attrs prefix ((name, value) ∷ attrs) =
    write_attr (prefix ++ name) value ++ write_attrs prefix attrs

unfoldable pub write_htmx_form_attrs : HtmxFormAttrs → Text
write_htmx_form_attrs htmx = concat (
    write_some (codes "hx-get") htmx.get
    ∷ write_some (codes "hx-post") htmx.post
    ∷ write_some (codes "hx-put") htmx.put
    ∷ write_some (codes "hx-delete") htmx.delete
    ∷ write_some (codes "hx-patch") htmx.patch
    ∷ write_some (codes "hx-target") htmx.target
    ∷ write_some (codes "hx-swap") htmx.swap
    ∷ write_some (codes "hx-trigger") htmx.trigger
    ∷ write_some (codes "hx-indicator") htmx.indicator
    ∷ write_some (codes "hx-push-url") htmx.push_url
    ∷ write_some (codes "hx-confirm") htmx.confirm
    ∷ write_some (codes "hx-disabled-elt") htmx.disabled_elt
    ∷ [])

-- `hx-vals` is the one attribute whose value is written as it is, in single quotes.
unfoldable pub write_vals : Option Text → Text
write_vals none = []
write_vals (some vals) = concat (codes " hx-vals='" ∷ vals ∷ codes "'" ∷ [])

unfoldable pub write_htmx_field_attrs : HtmxFieldAttrs → Text
write_htmx_field_attrs htmx = concat (
    write_some (codes "hx-get") htmx.get
    ∷ write_some (codes "hx-post") htmx.post
    ∷ write_some (codes "hx-put") htmx.put
    ∷ write_some (codes "hx-delete") htmx.delete
    ∷ write_some (codes "hx-patch") htmx.patch
    ∷ write_some (codes "hx-target") htmx.target
    ∷ write_some (codes "hx-swap") htmx.swap
    ∷ write_some (codes "hx-trigger") htmx.trigger
    ∷ write_some (codes "hx-indicator") htmx.indicator
    ∷ write_vals htmx.vals
    ∷ flag (write_attr (codes "hx-validate") (codes "true")) htmx.validate
    ∷ [])

-- `classes.join(" ")`
unfoldable pub join : List Text → Text
join [] = []
join (c ∷ []) = c
join (c ∷ d ∷ rest) = c ++ codes " " ++ join (d ∷ rest)

unfoldable pub build_input_class : FormField → Bool → FormRenderOptions → Text
build_input_class field has_errors options =
    let errors = if has_errors then options.input_error_class ∷ [] else [] in
    elim field.class [
      | none ↦ join (options.input_class ∷ errors)
      | some class ↦ join (options.input_class ∷ class ∷ errors)
    ]

unfoldable pub is_empty {ℓ} : {A : Type ℓ} → List A → Bool
is_empty [] = true
is_empty (a ∷ l) = false

unfoldable pub write_class : FormField → Bool → FormRenderOptions → Text
write_class field has_errors options =
    let class = build_input_class field has_errors options in
    flag (write_attr (codes "class") class) (not (is_empty class))

-- The part of `render_input` for files.
unfoldable pub write_file_attrs : FileFieldAttrs → Text
write_file_attrs attrs = concat (
    write_some (codes "accept") attrs.accept
    ∷ flag (codes " multiple") attrs.multiple
    ∷ write_number (codes "data-max-size-mb") attrs.max_size_mb
    ∷ flag (codes " data-preview=\"true\"") attrs.show_preview
    ∷ flag (codes " data-drag-drop=\"true\"") attrs.drag_drop
    ∷ write_some (codes "data-progress-endpoint") attrs.progress_endpoint
    ∷ [])
