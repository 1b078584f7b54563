-- ===== src/Forms/Escape/Reader.antt =====
-- A reader of HTML, as far as the escapes go: where in a text it is, which tags it meets on the way,
-- and what the character references of a value stand for.
use acton_dx.Prelude.{
  ℕ, ◌==◌, ◌≡◌, refl, ap, sym, ◌∙◌, Bool, true, false, ◌&&◌, Option, none, some, [], ◌∷◌, ◌++◌,
  if◌then◌else◌, arith,
}
use acton_dx.Prelude.Text.{Text, codes, text_eq, replace, split_once}
use mathlib.Core.List.{append_assoc}
use acton_dx.Forms.Escape.{escape_attr, escape_html}

-- In a text, in the name of a tag, in a tag behind its name, or in a quoted value of a tag.
pub data Place : Type 0 where
  content in_name in_tag in_double in_single : Place

unfoldable pub step : Place → ℕ → Place
step content c = if c == b'<' then in_name else content
step in_name c = if c == b'>' then content else if c == b' ' then in_tag else in_name
step in_tag c =
    if c == b'>'
    then content
    else if c == b'"'
    then in_double
    else if c == b'\''
    then in_single
    else in_tag
step in_double c = if c == b'"' then in_tag else in_double
step in_single c = if c == b'\'' then in_tag else in_single

-- What a character adds to the tags: the `<` of a tag, and the characters of its name.
unfoldable pub opens : Place → ℕ → Text
opens content c = if c == b'<' then c ∷ [] else []
opens in_name c = if c == b'>' then [] else if c == b' ' then [] else c ∷ []
opens in_tag c = []
opens in_double c = []
opens in_single c = []

unfoldable pub place : Place → Text → Place
unfolding step
place p [] = p
place p (c ∷ s) = place (step p c) s

-- The tags of a text with their names, each behind its `<`, as `<p</p` for a paragraph.
unfoldable pub tags : Place → Text → Text
unfolding step opens
tags p [] = []
tags p (c ∷ s) = opens p c ++ tags (step p c) s

-- The text `s`, read from the place `p`, leads to `q` and has the tags `n`.
pub record Reads (p : Place) (s : Text) (q : Place) (n : Text) : Type 0 where
  pub leads : place p s ≡ q
  pub opened : tags p s ≡ n

place-append : (p : Place) (s t : Text) → place p (s ++ t) ≡ place (place p s) t
unfolding place
place-append p [] t = refl
place-append p (c ∷ s) t = place-append (step p c) s t

tags-append : (p : Place) (s t : Text) → tags p (s ++ t) ≡ tags p s ++ tags (place p s) t
unfolding tags place
tags-append p [] t = refl
tags-append p (c ∷ s) t =
    ap (λ u. opens p c ++ u) (tags-append (step p c) s t)
    ∙ sym (append_assoc (opens p c) (tags (step p c) s) (tags (place (step p c) s) t))

pub Reads-append :
    {p q r : Place} {m n : Text} (s t : Text)
    → Reads p s q m
    → Reads q t r n
    → Reads p (s ++ t) r (m ++ n)
Reads-append {p} s t h k = record {
  leads = rw (place-append p s t, h.leads) k.leads;
  opened = rw (tags-append p s t, h.leads, h.opened, k.opened) refl;
}

-- The character of a reference, without its `&` and `;`.
unfoldable pub reference : Text → Option ℕ
unfolding text_eq
reference s =
    if text_eq s (codes "amp")
    then some b'&'
    else if text_eq s (codes "quot")
    then some b'"'
    else if text_eq s (codes "lt")
    then some b'<'
    else if text_eq s (codes "gt")
    then some b'>'
    else none

-- What a text stands for: outside a reference, or in one whose characters so far are `acc`. A
-- reference that is none of the four is left out.
unfoldable pub decode : Option Text → Text → Text
unfolding reference
decode acc [] = []
decode none (c ∷ s) = if c == b'&' then decode (some []) s else c ∷ decode none s
decode (some acc) (c ∷ s) =
    if c == b';'
    then elim (reference acc) [ none ↦ decode none s | some d ↦ d ∷ decode none s ]
    else decode (some (acc ++ c ∷ [])) s

-- The replacements as one: what each character becomes.
unfoldable escaped : Bool → ℕ → Text
escaped quotes c =
    if c == b'&'
    then codes "&amp;"
    else if c == b'<'
    then codes "&lt;"
    else if c == b'>'
    then codes "&gt;"
    else if (c == b'"') && quotes
    then codes "&quot;"
    else c ∷ []

unfoldable one_pass : Bool → Text → Text
one_pass quotes [] = []
one_pass quotes (c ∷ s) = escaped quotes c ++ one_pass quotes s

escape_attr-one_pass : (s : Text) → escape_attr s ≡ one_pass true s
unfolding escape_attr replace one_pass escaped
escape_attr-one_pass [] = refl
escape_attr-one_pass (c ∷ s) = grind (arith, escape_attr-one_pass s)

escape_html-one_pass : (s : Text) → escape_html s ≡ one_pass false s
unfolding escape_html replace one_pass escaped
escape_html-one_pass [] = refl
escape_html-one_pass (c ∷ s) = grind (arith, escape_html-one_pass s)

decode-escaped :
    (quotes : Bool) (c : ℕ) (s : Text) → decode none (escaped quotes c ++ s) ≡ c ∷ decode none s
unfolding decode escaped reference text_eq
decode-escaped quotes c s = grind arith

decode-one_pass : (quotes : Bool) (s : Text) → decode none (one_pass quotes s) ≡ s
unfolding decode one_pass
decode-one_pass quotes [] = refl
decode-one_pass quotes (c ∷ s) =
    rw (decode-escaped quotes c (one_pass quotes s), decode-one_pass quotes s) refl

-- The reader decodes an escaped value to what was escaped.
pub decode-escape_attr : (s : Text) → decode none (escape_attr s) ≡ s
decode-escape_attr s = rw (escape_attr-one_pass s) (decode-one_pass true s)

decode-escape_html : (s : Text) → decode none (escape_html s) ≡ s
decode-escape_html s = rw (escape_html-one_pass s) (decode-one_pass false s)

escaped-in_double : (c : ℕ) → Reads in_double (escaped true c) in_double []
unfolding escaped place tags step opens
escaped-in_double c = record { leads = grind arith; opened = grind arith }

escaped-content : (c : ℕ) → Reads content (escaped false c) content []
unfolding escaped place tags step opens
escaped-content c = record { leads = grind arith; opened = grind arith }

one_pass-Reads :
    (p : Place) (quotes : Bool)
    → ((c : ℕ) → Reads p (escaped quotes c) p [])
    → (s : Text) → Reads p (one_pass quotes s) p []
unfolding one_pass place tags
one_pass-Reads p quotes each [] = record { leads = refl; opened = refl }
one_pass-Reads p quotes each (c ∷ s) =
    Reads-append (escaped quotes c) (one_pass quotes s) (each c) (one_pass-Reads p quotes each s)

pub escape_attr-Reads : (s : Text) → Reads in_double (escape_attr s) in_double []
escape_attr-Reads s =
    rw (escape_attr-one_pass s) (one_pass-Reads in_double true escaped-in_double s)

pub escape_html-Reads : (s : Text) → Reads content (escape_html s) content []
escape_html-Reads s = rw (escape_html-one_pass s) (one_pass-Reads content false escaped-content s)

split_once-escaped :
    (c : ℕ) (t a b : Text)
    → split_once b'"' t ≡ some (a, b)
    → split_once b'"' (escaped true c ++ t) ≡ some (escaped true c ++ a, b)
unfolding escaped split_once
split_once-escaped c t a b h = grind arith

split_once-one_pass :
    (s rest : Text)
    → split_once b'"' (one_pass true s ++ b'"' ∷ rest) ≡ some (one_pass true s, rest)
unfolding one_pass split_once
split_once-one_pass [] rest = refl
split_once-one_pass (c ∷ s) rest =
    rw (append_assoc (escaped true c) (one_pass true s) (b'"' ∷ rest)) (
      split_once-escaped c (one_pass true s ++ b'"' ∷ rest) (one_pass true s) rest
        (split_once-one_pass s rest))

-- An escaped value ends where its closing quote stands.
pub split_once-escape_attr :
    (s rest : Text) → split_once b'"' (escape_attr s ++ b'"' ∷ rest) ≡ some (escape_attr s, rest)
split_once-escape_attr s rest = rw (escape_attr-one_pass s) (split_once-one_pass s rest)
