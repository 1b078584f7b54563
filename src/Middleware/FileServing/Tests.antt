-- ===== src/Middleware/FileServing/Tests.antt =====
-- Requests for a file of ten bytes.
use acton_dx.Prelude.{
  ℕ, ◌≡◌, refl, Bool, true, ◌&&◌, leb, ltb, ◌++◌, none, some, List, [], ◌∷◌, drop, arith,
}
use acton_dx.Prelude.Text.{Text, codes, show, Digits, show-Digits}
use acton_dx.Middleware.FileServing.{serve_range_request}
use acton_dx.Middleware.FileServing.Ranges.{IsSendable}
use acton_dx.Middleware.FileServing.Requests.{
  download, download-drop, IsServed, serve_range_request-IsServed,
}

abbrev body : List ℕ
body = 10 ∷ 11 ∷ 12 ∷ 13 ∷ 14 ∷ 15 ∷ 16 ∷ 17 ∷ 18 ∷ 19 ∷ []

abbrev tag : Text
tag = codes "t"

-- The ASCII characters that can be seen, and the space.
abbrev visible : Text → Bool
visible [] = true
visible (c ∷ s) = leb 32 c && ltb c 127 && visible s

visible-append : (s t : Text) → visible s ≡ true → visible t ≡ true → visible (s ++ t) ≡ true
visible-append [] t h k = k
visible-append (c ∷ s) t h k =
    let rest : visible (s ++ t) ≡ true = visible-append s t (ground arith) k in ground arith

visible-Digits : (s : Text) → Digits s → visible s ≡ true
visible-Digits [] h = refl
visible-Digits (c ∷ s) (d, h) = let rest : visible s ≡ true = visible-Digits s h in ground arith

visible-show : (n : ℕ) → visible (show n) ≡ true
visible-show n = visible-Digits (show n) (show-Digits n)

sendable : IsSendable visible tag "text/plain"
sendable = record {
  content_type_valid = refl;
  etag_valid = refl;
  range_valid = λ start end size.
      visible-append (codes "bytes ") (show start ++ b'-' ∷ (show end ++ b'/' ∷ show size)) refl (
        visible-append (show start) (b'-' ∷ (show end ++ b'/' ∷ show size)) (visible-show start)
          (visible-append (show end) (b'/' ∷ show size) (visible-show end) (visible-show size)));
}

download-drop_example : download visible body tag "text/plain" 4 2 0 ≡ some (drop 0 body)
download-drop_example =
    download-drop visible body tag "text/plain" sendable 4 2 0 (omega arith) (omega arith)

abbrev odd_header : Text
odd_header = codes "bytes=+7-4"

serve_range_request-IsServed_example :
    IsServed body tag "text/plain"
      (serve_range_request visible body (some odd_header) tag "text/plain" none)
serve_range_request-IsServed_example =
    serve_range_request-IsServed visible body tag "text/plain" sendable (some odd_header) none
      (omega arith)
