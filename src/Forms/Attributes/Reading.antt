-- ===== src/Forms/Attributes/Reading.antt =====
-- How a reader of HTML goes through the attributes of a tag.
use acton_dx.Prelude.{
  ℕ, ◌≡◌, refl, ◌∙◌, Bool, true, false, not, Option, none, some, List, [], ◌∷◌, ◌++◌, arith, All,
}
use acton_dx.Prelude.Text.{Text, codes, concat, show, Lacks}
use acton_dx.Forms.{HtmxFieldAttrs, HtmxFormAttrs, FileFieldAttrs, FormField}
use acton_dx.Forms.Escape.Reader.{
  Place, in_name, in_tag, in_double, in_single, Reads, Reads-append, escape_attr-Reads, place, tags,
  step, opens,
}
use acton_dx.Forms.Attributes.{
  FormRenderOptions, write_attr, write_some, write_number, flag, write_attrs, write_vals,
  write_htmx_form_attrs, write_htmx_field_attrs, write_file_attrs, write_class, is_empty,
  build_input_class,
}

-- The pieces of `concat`, one after the other.
pub record ReadsAll (p : Place) (ts : List Text) (q : Place) (n : Text) : Type 0 where
  pub reads : Reads p (concat ts) q n

infixr 20 ◌▸◌
pub ◌▸◌ :
    {p q r : Place} {m n : Text} {s : Text} {ts : List Text}
    → Reads p s q m
    → ReadsAll q ts r n
    → ReadsAll p (s ∷ ts) r (m ++ n)
unfolding concat
◌▸◌ {s} {ts} h k = record { reads = Reads-append s (concat ts) h k.reads }

pub done : {p : Place} → ReadsAll p [] p []
unfolding concat place tags
done = record { reads = record { leads = refl; opened = refl } }

pub all_of : {p q : Place} {n : Text} (ts : List Text) → ReadsAll p ts q n → Reads p (concat ts) q n
all_of ts h = h.reads

-- A text that leaves the reader in the tag.
abbrev pub Stays : Text → Type 0
Stays s = Reads in_tag s in_tag []

-- What the name of an attribute is free of.
abbrev pub IsName : Text → Type 0
IsName s = Lacks b'>' s × Lacks b'"' s × Lacks b'\'' s

name-Stays : (s : Text) → Lacks b'>' s → Lacks b'"' s → Lacks b'\'' s → Stays s
unfolding place tags step opens
name-Stays [] h k l = record { leads = refl; opened = refl }
name-Stays (c ∷ s) h k l =
    let rest : Stays s = name-Stays s h.1 k.1 l.1 in
    record { leads = ground (arith, rest.leads); opened = ground (arith, rest.opened) }

pub class-Reads : (s : Text) → Lacks b'"' s → Reads in_double s in_double []
unfolding place tags step opens
class-Reads [] h = record { leads = refl; opened = refl }
class-Reads (c ∷ s) h =
    let rest : Reads in_double s in_double [] = class-Reads s h.1 in
    record { leads = ground (arith, rest.leads); opened = ground (arith, rest.opened) }

vals-Reads : (s : Text) → Lacks b'\'' s → Reads in_single s in_single []
unfolding place tags step opens
vals-Reads [] h = record { leads = refl; opened = refl }
vals-Reads (c ∷ s) h =
    let rest : Reads in_single s in_single [] = vals-Reads s h.1 in
    record { leads = ground (arith, rest.leads); opened = ground (arith, rest.opened) }

pub tags_as : {p q : Place} {m n : Text} (s : Text) → m ≡ n → Reads p s q m → Reads p s q n
tags_as s e h = record { leads = h.leads; opened = h.opened ∙ e }

-- Texts that are written out.
abbrev pub literal : {p : Place} (s : Text) → Reads p s (place p s) (tags p s)
literal s = record { leads = refl; opened = refl }

pub attr-Stays : (name value : Text) → Stays name → Stays (write_attr name value)
unfolding write_attr place tags step opens
attr-Stays name value h = all_of _ (
    literal (codes " ")
    ▸ h
    ▸ literal (codes "=\"")
    ▸ escape_attr-Reads value
    ▸ literal (codes "\"")
    ▸ done)

-- The first attribute, behind the name of the tag.
pub attr-Starts : (name value : Text) → Stays name → Reads in_name (write_attr name value) in_tag []
unfolding write_attr place tags step opens
attr-Starts name value h = all_of _ (
    literal (codes " ")
    ▸ h
    ▸ literal (codes "=\"")
    ▸ escape_attr-Reads value
    ▸ literal (codes "\"")
    ▸ done)

pub some-Stays : (name : Text) (o : Option Text) → Stays name → Stays (write_some name o)
unfolding write_some place tags step opens
some-Stays name none h = literal []
some-Stays name (some v) h = attr-Stays name v h

pub number-Stays : (name : Text) (o : Option ℕ) → Stays name → Stays (write_number name o)
unfolding write_number place tags
number-Stays name none h = literal []
number-Stays name (some v) h = attr-Stays name (show v) h

pub flag-Stays : (s : Text) (b : Bool) → Stays s → Stays (flag s b)
unfolding flag place tags
flag-Stays s true h = h
flag-Stays s false h = literal []

pub htmx_form-Stays : (h : HtmxFormAttrs) → Stays (write_htmx_form_attrs h)
unfolding write_htmx_form_attrs place tags step opens
htmx_form-Stays h = all_of _ (
    some-Stays (codes "hx-get") h.get (literal (codes "hx-get"))
    ▸ some-Stays (codes "hx-post") h.post (literal (codes "hx-post"))
    ▸ some-Stays (codes "hx-put") h.put (literal (codes "hx-put"))
    ▸ some-Stays (codes "hx-delete") h.delete (literal (codes "hx-delete"))
    ▸ some-Stays (codes "hx-patch") h.patch (literal (codes "hx-patch"))
    ▸ some-Stays (codes "hx-target") h.target (literal (codes "hx-target"))
    ▸ some-Stays (codes "hx-swap") h.swap (literal (codes "hx-swap"))
    ▸ some-Stays (codes "hx-trigger") h.trigger (literal (codes "hx-trigger"))
    ▸ some-Stays (codes "hx-indicator") h.indicator (literal (codes "hx-indicator"))
    ▸ some-Stays (codes "hx-push-url") h.push_url (literal (codes "hx-push-url"))
    ▸ some-Stays (codes "hx-confirm") h.confirm (literal (codes "hx-confirm"))
    ▸ some-Stays (codes "hx-disabled-elt") h.disabled_elt (literal (codes "hx-disabled-elt"))
    ▸ done)

-- What the value of `hx-vals`, written as it is, is free of.
abbrev pub NoQuote : Option Text → Type 0
NoQuote none = Unit
NoQuote (some vals) = Lacks b'\'' vals

vals-Stays : (o : Option Text) → NoQuote o → Stays (write_vals o)
unfolding write_vals place tags step opens
vals-Stays none h = literal []
vals-Stays (some v) h =
    all_of _ (literal (codes " hx-vals='") ▸ vals-Reads v h ▸ literal (codes "'") ▸ done)

pub htmx_field-Stays : (h : HtmxFieldAttrs) → NoQuote h.vals → Stays (write_htmx_field_attrs h)
unfolding write_htmx_field_attrs place tags step opens
htmx_field-Stays h safe = all_of _ (
    some-Stays (codes "hx-get") h.get (literal (codes "hx-get"))
    ▸ some-Stays (codes "hx-post") h.post (literal (codes "hx-post"))
    ▸ some-Stays (codes "hx-put") h.put (literal (codes "hx-put"))
    ▸ some-Stays (codes "hx-delete") h.delete (literal (codes "hx-delete"))
    ▸ some-Stays (codes "hx-patch") h.patch (literal (codes "hx-patch"))
    ▸ some-Stays (codes "hx-target") h.target (literal (codes "hx-target"))
    ▸ some-Stays (codes "hx-swap") h.swap (literal (codes "hx-swap"))
    ▸ some-Stays (codes "hx-trigger") h.trigger (literal (codes "hx-trigger"))
    ▸ some-Stays (codes "hx-indicator") h.indicator (literal (codes "hx-indicator"))
    ▸ vals-Stays h.vals safe
    ▸ flag-Stays (write_attr (codes "hx-validate") (codes "true")) h.validate
        (attr-Stays (codes "hx-validate") (codes "true") (literal (codes "hx-validate")))
    ▸ done)

pub file-Stays : (a : FileFieldAttrs) → Stays (write_file_attrs a)
unfolding write_file_attrs place tags step opens
file-Stays a = all_of _ (
    some-Stays (codes "accept") a.accept (literal (codes "accept"))
    ▸ flag-Stays (codes " multiple") a.multiple (literal (codes " multiple"))
    ▸ number-Stays (codes "data-max-size-mb") a.max_size_mb (literal (codes "data-max-size-mb"))
    ▸ flag-Stays (codes " data-preview=\"true\"") a.show_preview
        (literal (codes " data-preview=\"true\""))
    ▸ flag-Stays (codes " data-drag-drop=\"true\"") a.drag_drop
        (literal (codes " data-drag-drop=\"true\""))
    ▸ some-Stays (codes "data-progress-endpoint") a.progress_endpoint
        (literal (codes "data-progress-endpoint"))
    ▸ done)

pub class-Stays :
    (field : FormField) (e : Bool) (options : FormRenderOptions)
    → Stays (write_class field e options)
unfolding write_class place tags step opens
class-Stays field e options =
    flag-Stays _ (not (is_empty (build_input_class field e options)))
      (attr-Stays (codes "class") (build_input_class field e options) (literal (codes "class")))

abbrev pub Names : List (Text × Text) → Type 0
Names = All (λ a. IsName a.0)

pub attrs-Stays :
    (prefix : Text) (attrs : List (Text × Text))
    → Stays prefix
    → Names attrs
    → Stays (write_attrs prefix attrs)
unfolding write_attrs place tags
attrs-Stays prefix [] h k = literal []
attrs-Stays prefix ((name, value) ∷ attrs) h k =
    Reads-append (write_attr (prefix ++ name) value) (write_attrs prefix attrs)
      (attr-Stays (prefix ++ name) value
        (Reads-append prefix name h (name-Stays name k.0.0 k.0.1 k.0.2)))
      (attrs-Stays prefix attrs h k.1)
