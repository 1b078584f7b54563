-- ===== src/Forms/Escape.antt =====
-- acton-dx/src/htmx/forms/render.rs, escape_attr and escape_html, and the function of the same name in
-- acton-dx/src/htmx/template/helpers.rs.
pub mod Reader
use acton_dx.Prelude.{ℕ}
use acton_dx.Prelude.Text.{Text, codes, replace}

unfoldable pub escape_attr : Text → Text
escape_attr s =
    replace b'>' (codes "&gt;")
      (replace b'<' (codes "&lt;") (replace b'"' (codes "&quot;") (replace b'&' (codes "&amp;") s)))

unfoldable pub escape_html : Text → Text
escape_html s =
    replace b'>' (codes "&gt;") (replace b'<' (codes "&lt;") (replace b'&' (codes "&amp;") s))
