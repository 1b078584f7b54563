-- ===== src/Forms/Render.antt =====
-- acton-dx/src/htmx/forms/render.rs: a field with its label, errors and help, and a form. Each function
-- returns the text that it appends.
pub mod Shape
use acton_dx.Prelude.{
  ℕ, zero, suc, ◌≡◌, ◌==◌, Bool, true, false, not, ◌&&◌, Option, none, some, List, [], ◌∷◌, ◌++◌,
  if◌then◌else◌,
}
use acton_dx.Prelude.Text.{Text, codes, text_eq, concat, show}
use acton_dx.Forms.{
  FieldFlags, InputType, SelectOption, FieldKind, HtmxFieldAttrs, FileFieldAttrs, FormField,
  FieldError, ValidationErrors, HtmxFormAttrs, FormBuilder, effective_id, for_field, text, email,
  password, number, tel, url, search, date, time, date_time_local, month, week, color, range,
  hidden, file, input, textarea, select, checkbox, radio,
}
use acton_dx.Forms.Escape.{escape_attr, escape_html}
use acton_dx.Forms.Attributes.{
  FormRenderOptions, default, is_empty, write_attr, write_some, flag, write_attrs,
  write_htmx_form_attrs,
}
use acton_dx.Forms.Inputs.{is_hidden, render_kind}

unfoldable pub is_hidden_kind : FieldKind → Bool
is_hidden_kind (input t) = is_hidden t
is_hidden_kind _ = false

unfoldable pub is_checkbox_kind : FieldKind → Bool
is_checkbox_kind (checkbox checked) = true
is_checkbox_kind _ = false

unfoldable pub render_label : FormField → FormRenderOptions → Text → Text
render_label field options label = concat (
    codes "<label for=\""
    ∷ escape_attr (effective_id field)
    ∷ codes "\" class=\""
    ∷ options.label_class
    ∷ codes "\">"
    ∷ escape_html label
    ∷ codes "</label>"
    ∷ [])

unfoldable pub label_line : FormField → FormRenderOptions → Option Text → Text
label_line field options none = []
label_line field options (some label) =
    concat (codes "    " ∷ render_label field options label ∷ codes "\n" ∷ [])

-- The label before the input, which hidden fields and checkboxes do not have.
unfoldable pub label_before : FormField → FormRenderOptions → Text
label_before field options =
    flag (label_line field options field.label)
      (not (is_hidden_kind field.kind) && not (is_checkbox_kind field.kind))

unfoldable pub checkbox_label : FormField → FormRenderOptions → Option Text → Text
checkbox_label field options none = []
checkbox_label field options (some label) =
    concat (codes " " ∷ render_label field options label ∷ [])

-- The label after a checkbox.
unfoldable pub label_after : FormField → FormRenderOptions → Text
label_after field options =
    flag (concat (checkbox_label field options field.label ∷ codes "\n" ∷ []))
      (is_checkbox_kind field.kind)

unfoldable pub render_span : Text → Text → Text
render_span class message = concat (
    codes "    <span class=\"" ∷ class ∷ codes "\">" ∷ escape_html message ∷ codes "</span>\n" ∷ [])

unfoldable pub render_errors : List FieldError → FormRenderOptions → Text
render_errors [] options = []
render_errors (e ∷ es) options =
    render_span options.error_class e.message ++ render_errors es options

unfoldable pub render_help : Option Text → FormRenderOptions → Text
render_help none options = []
render_help (some help) options = render_span options.help_class help

unfoldable pub field_errors : Option ValidationErrors → Text → List FieldError
field_errors none name = []
field_errors (some errors) name = for_field name errors

unfoldable pub render_field : FormField → Option ValidationErrors → FormRenderOptions → Text
render_field field errors options =
    let found = field_errors errors field.name in
    let wrapped = options.wrap_fields && not (is_hidden_kind field.kind) in
    concat (
      flag (concat (codes "  <div class=\"" ∷ options.group_class ∷ codes "\">\n" ∷ [])) wrapped
      ∷ label_before field options
      ∷ render_kind field field.kind (not (is_empty found)) options
      ∷ label_after field options
      ∷ render_errors found options
      ∷ render_help field.help_text options
      ∷ flag (codes "  </div>\n") wrapped
      ∷ [])

unfoldable pub render_fields : List FormField → Option ValidationErrors → FormRenderOptions → Text
render_fields [] errors options = []
render_fields (f ∷ fs) errors options =
    render_field f errors options ++ render_fields fs errors options

unfoldable pub render_token : Option Text → Text
render_token none = []
render_token (some token) = concat (
    codes "  <input type=\"hidden\" name=\"_csrf_token\" value=\""
    ∷ escape_attr token
    ∷ codes "\">\n"
    ∷ [])

unfoldable pub render_submit : Option Text → Option Text → FormRenderOptions → Text
render_submit none submit_class options = []
render_submit (some label) submit_class options = concat (
    codes "  <button type=\"submit\" class=\""
    ∷ escape_attr (elim submit_class [ none ↦ options.submit_class | some class ↦ class ])
    ∷ codes "\">"
    ∷ escape_html label
    ∷ codes "</button>\n"
    ∷ [])

unfoldable pub render_with_options : FormBuilder → FormRenderOptions → Text
render_with_options form options = concat (
    codes "<form"
    ∷ write_attr (codes "action") form.action
    ∷ write_attr (codes "method") form.method
    ∷ write_some (codes "id") form.id
    ∷ write_some (codes "class") form.class
    ∷ write_some (codes "enctype") form.enctype
    ∷ flag (codes " novalidate") form.novalidate
    ∷ write_htmx_form_attrs form.htmx
    ∷ write_attrs [] form.custom_attrs
    ∷ codes ">\n"
    ∷ render_token form.csrf_token
    ∷ flag (codes "  <input type=\"hidden\" name=\"_hx_validate\" value=\"true\">\n")
        form.htmx_validate
    ∷ render_fields form.fields form.errors options
    ∷ render_submit form.submit_text form.submit_class options
    ∷ codes "</form>"
    ∷ [])

unfoldable pub render : FormBuilder → Text
render form = render_with_options form default
