-- ===== src/Middleware/Session/Cookies.antt =====
-- The cookie that the middleware sets, as it comes back in the header of a client.
use mathlib.Core.List.{append_assoc, append-nil}
use acton_dx.Prelude.{
  ◌≡◌, inl, inr, refl, sym, ap, ◌∙◌, Bool, true, false, Option, none, some, List, [], ◌∷◌, ◌++◌,
  String, All, map, All-append, Option-cases,
}
use acton_dx.Prelude.Text.{Text, codes, text_eq, text_eq_refl, split_once, split_once-append, Lacks}
use acton_dx.Prelude.Parts.{
  trim, trim_start, trim_end, split, split-append, split_lem, NoSpace, trim_lem,
}
use acton_dx.Prelude.Strings.{to_string-codes}
use acton_dx.Auth.Session.{SessionId, try_from_string}
use acton_dx.Middleware.Session.{
  SessionConfig, session_id_or, find_session_id, extract_session_id, cookie_value, attributes,
}

-- What a client keeps of the value of a header `Set-Cookie`: the text in front of its attributes.
unfoldable pub kept : Text → Text
kept value = elim (split_once b';' value) [ none ↦ value | some (pair, attributes) ↦ pair ]

abbrev spaced : List Text → Text
spaced [] = []
spaced (w ∷ ws) = b';' ∷ b' ' ∷ (w ++ spaced ws)

-- The header `Cookie` of a client that has these cookies.
abbrev pub header : List Text → Text
header [] = []
header (w ∷ ws) = w ++ spaced ws

split-spaced :
    (w : Text) (ws : List Text)
    → Lacks b';' w
    → All (Lacks b';') ws
    → split b';' (w ++ spaced ws) ≡ w ∷ map (λ v. b' ' ∷ v) ws
split-spaced w [] h k = rw (append-nil w) (split_lem b';' w h)
split-spaced w (v ∷ ws) h k =
    split-append b';' w (b' ' ∷ (v ++ spaced ws)) h
    ∙ ap (λ l. w ∷ l) (split-spaced (b' ' ∷ v) ws (refl, k.0) k.1)

module _ (parses : String → Bool) (name : Text) where
  find-spaced :
      (ws : List Text)
      → find_session_id parses name (map (λ v. b' ' ∷ v) ws) ≡ find_session_id parses name ws
  unfolding find_session_id session_id_or trim trim_start
  find-spaced [] = refl
  find-spaced (w ∷ ws) = ap (session_id_or parses name w) (find-spaced ws)

  find-header :
      (ws : List Text)
      → All (Lacks b';') ws
      → extract_session_id parses (some (some (header ws))) name ≡ find_session_id parses name ws
  unfolding find_session_id extract_session_id session_id_or split split_once trim trim_start
      trim_end
  find-header [] h = refl
  find-header (w ∷ ws) h =
      ap (find_session_id parses name) (split-spaced w ws h.0 h.1)
      ∙ ap (session_id_or parses name w) (find-spaced ws)

  -- A cookie with another name, or none.
  abbrev pub IsForeign : Text → Type 0
  IsForeign w =
      (n v : Text) → split_once b'=' (trim w) ≡ some (n, v) → text_eq (trim n) name ≡ false

  session_id_or-IsForeign :
      (w : Text) (rest : Option SessionId) → IsForeign w → session_id_or parses name w rest ≡ rest
  unfolding session_id_or
  session_id_or-IsForeign w rest f = elim (Option-cases (split_once b'=' (trim w))) [
    | inl e ↦ rw (session_id_or, e) refl
    | inr ((n, v), e) ↦ rw (session_id_or, e, f n v e) refl
  ]

  find-foreign :
      (ws rest : List Text)
      → All IsForeign ws
      → find_session_id parses name (ws ++ rest) ≡ find_session_id parses name rest
  unfolding find_session_id
  find-foreign [] rest f = refl
  find-foreign (w ∷ ws) rest f =
      session_id_or-IsForeign w (find_session_id parses name (ws ++ rest)) f.0
      ∙ find-foreign ws rest f.1

-- A name or a value of a cookie, written without quotes: no space, `=` or `;`.
pub record IsToken (s : Text) : Type 0 where
  pub no_space : NoSpace s
  pub no_equals : Lacks b'=' s
  pub no_semicolon : Lacks b';' s

-- The pair that names a session.
abbrev pub pair : SessionConfig → SessionId → Text
pair c id = c.cookie_name ++ b'=' ∷ codes id

pair-Lacks :
    (c : SessionConfig) (id : SessionId)
    → IsToken c.cookie_name
    → IsToken (codes id)
    → Lacks b';' (pair c id)
pair-Lacks c id n i =
    All-append _ c.cookie_name (b'=' ∷ codes id) n.no_semicolon (refl, i.no_semicolon)

kept-cookie_value :
    (c : SessionConfig) (id : SessionId)
    → IsToken c.cookie_name
    → IsToken (codes id)
    → kept (cookie_value c id) ≡ pair c id
unfolding kept cookie_value
kept-cookie_value c id n i =
    let assoc : cookie_value c id ≡ pair c id ++ b';' ∷ attributes c =
      sym (append_assoc c.cookie_name (b'=' ∷ codes id) (b';' ∷ attributes c)) in
    let cut : split_once b';' (cookie_value c id) ≡ some (pair c id, attributes c) =
      ap (split_once b';') assoc
      ∙ split_once-append b';' (pair c id) (attributes c) (pair-Lacks c id n i) in
    rw (kept, cut) refl

session_id_or-pair :
    (parses : String → Bool) (c : SessionConfig) (id : SessionId) (rest : Option SessionId)
    → IsToken c.cookie_name
    → IsToken (codes id)
    → parses id ≡ true
    → session_id_or parses c.cookie_name (pair c id) rest ≡ some id
unfolding session_id_or try_from_string
session_id_or-pair parses c id rest n i valid =
    let spaceless : NoSpace (pair c id) =
      All-append _ c.cookie_name (b'=' ∷ codes id) n.no_space (refl, i.no_space) in
    rw
      (
        session_id_or,
        trim_lem (pair c id) spaceless,
        split_once-append b'=' c.cookie_name (codes id) n.no_equals,
        trim_lem c.cookie_name n.no_space,
        text_eq_refl c.cookie_name,
        trim_lem (codes id) i.no_space,
        to_string-codes id,
        valid,
      )
      refl

-- A client that keeps the cookie of a session, and sends it back with any other cookies of other names in
-- front of it and any cookies behind it, names that session: when the name of the cookie and the id are
-- free of spaces, `=` and `;`, and the id parses.
pub extract_session_id-cookie_value :
    (parses : String → Bool) (c : SessionConfig) (id : SessionId) (others after : List Text)
    → IsToken c.cookie_name
    → IsToken (codes id)
    → parses id ≡ true
    → All (Lacks b';') others
    → All (Lacks b';') after
    → All (IsForeign parses c.cookie_name) others
    → extract_session_id parses
        (some (some (header (others ++ kept (cookie_value c id) ∷ after))))
        c.cookie_name
      ≡ some id
unfolding find_session_id
extract_session_id-cookie_value parses c id others after n i valid plain plain' foreign =
    let sent = kept-cookie_value c id n i in
    let rest = find_session_id parses c.cookie_name after in
    ap (λ p. extract_session_id parses (some (some (header (others ++ p ∷ after)))) c.cookie_name)
      sent
    ∙ find-header parses c.cookie_name (others ++ pair c id ∷ after)
        (All-append _ others (pair c id ∷ after) plain (pair-Lacks c id n i, plain'))
    ∙ find-foreign parses c.cookie_name others (pair c id ∷ after) foreign
    ∙ session_id_or-pair parses c id rest n i valid
