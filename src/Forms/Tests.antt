-- ===== src/Forms/Tests.antt =====
-- Forms with markup in their texts.
use acton_dx.Prelude.{◌≡◌, refl, true, false, none, some, [], ◌∷◌, ◌++◌}
use acton_dx.Prelude.Dict
use acton_dx.Prelude.Text.{codes, replace}
use acton_dx.Forms.{FormField, FormBuilder, email, input}
use acton_dx.Forms.Escape.{escape_attr}
use acton_dx.Forms.Attributes.{FormRenderOptions, write_attrs, default, is_empty}
use acton_dx.Forms.Attributes.Values.{
  read_attrs, read_attrs-write_attrs, are_name_codes, is_name_code,
}

escapes : escape_attr (codes "a\"&<b>") ≡ codes "a&quot;&amp;&lt;b&gt;"
unfolding escape_attr replace
escapes = refl

-- A required address that came back with an error, and with markup in it.
abbrev address : FormField
address = record {
  name = codes "email";
  kind = input email;
  label = some (codes "Your <email>");
  placeholder = none;
  value = some (codes "\"><script>");
  flags = record { required = true; disabled = false; readonly = false; autofocus = false };
  autocomplete = none;
  min_length = none;
  max_length = some 80;
  min = none;
  max = none;
  step = none;
  pattern = none;
  class = none;
  id = none;
  help_text = none;
  htmx = record {
    get = none;
    post = some (codes "/check");
    put = none;
    delete = none;
    patch = none;
    target = none;
    swap = none;
    trigger = none;
    indicator = none;
    vals = some (codes "{}");
    validate = false;
  };
  data_attrs = (codes "x", codes "'\"") ∷ [];
  custom_attrs = [];
  file_attrs = record {
    accept = none;
    multiple = false;
    max_size_mb = none;
    show_preview = false;
    drag_drop = false;
    progress_endpoint = none;
  };
}

abbrev form : FormBuilder
form = record {
  action = codes "/join";
  method = codes "POST";
  id = none;
  class = none;
  csrf_token = some (codes "t");
  enctype = none;
  fields = address ∷ [];
  submit_text = some (codes "Join & go");
  submit_class = none;
  errors =
      some ((codes "email", record { message = codes "not <an> address"; code = none } ∷ []) ∷ []);
  htmx = record {
    get = none;
    post = none;
    put = none;
    delete = none;
    patch = none;
    target = none;
    swap = none;
    trigger = none;
    indicator = none;
    push_url = none;
    confirm = none;
    disabled_elt = none;
  };
  custom_attrs = [];
  htmx_validate = false;
  novalidate = true;
}

abbrev short : FormRenderOptions
short = record default {
  group_class = codes "g";
  label_class = codes "l";
  error_class = codes "e";
  help_class = codes "h";
}

read_attrs-write_attrs_example :
    read_attrs 2
      (write_attrs [] ((codes "a", codes "\">") ∷ (codes "b", codes "&amp;") ∷ []) ++ codes ">")
    ≡ some ((codes "a", codes "\">") ∷ (codes "b", codes "&amp;") ∷ [], codes ">")
unfolding are_name_codes is_name_code is_empty
read_attrs-write_attrs_example =
    read_attrs-write_attrs [] ((codes "a", codes "\">") ∷ (codes "b", codes "&amp;") ∷ [])
      (codes ">") ((refl, refl), ((refl, refl), tt))
