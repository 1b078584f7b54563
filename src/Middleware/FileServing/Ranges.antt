-- ===== src/Middleware/FileServing/Ranges.antt =====
-- The ranges that a header asks for, and the bytes that it gets.
use acton_dx.Prelude.{
  ℕ, Bool, true, ◌+◌, ◌-◌, ◌^◌, ◌≡◌, ◌≢◌, ◌≤◌, ◌<◌, refl, ◌∙◌, ◌&&◌, some, List, [], ◌∷◌, ◌++◌,
  String, leb, ltb, if◌then◌else◌, ok, err, length, take, drop, min, arith,
}
use acton_dx.Prelude.Text.{
  Text, codes, split_once, show, parse_usize, strip_prefix-append, split_once-append,
  show-Lacks_dash, parse_usize-show, show-ne-nil,
}
use acton_dx.Prelude.Words.{sub64}
use acton_dx.Middleware.FileServing.{
  FileResponse, range_not_satisfiable, bounds, parse_range, serve_bounds, build_file_response,
  content_range_text,
}

-- `bytes=a-b`, `bytes=a-` and `bytes=-n`, as clients write them.
abbrev pub range_text : Text → Text → Text
range_text before after = codes "bytes=" ++ (before ++ b'-' ∷ after)

parse_range_text :
    (size : ℕ) (a : ℕ) (after : Text)
    → parse_range size (range_text (show a) after) ≡ bounds size (show a) after
unfolding parse_range
parse_range_text size a after = rw (
  parse_range,
  strip_prefix-append (codes "bytes=") (show a ++ b'-' ∷ after),
  split_once-append b'-' (show a) after (show-Lacks_dash a),
)

bounds-closed :
    (size a b : ℕ) (s t : Text)
    → s ≢ []
    → t ≢ []
    → parse_usize s ≡ some a
    → parse_usize t ≡ some b
    → bounds size s t ≡ some (a, min b (sub64 size 1))
unfolding bounds
bounds-closed size a b [] t sn tn p q = absurd (sn refl)
bounds-closed size a b (c ∷ s) [] sn tn p q = absurd (tn refl)
bounds-closed size a b (c ∷ s) (d ∷ t) sn tn p q = rw (bounds, p, q)

pub parse_range-closed :
    (size a b : ℕ)
    → a < 2 ^ 64
    → b < 2 ^ 64
    → parse_range size (range_text (show a) (show b)) ≡ some (a, min b (sub64 size 1))
parse_range-closed size a b fa fb =
    parse_range_text size a (show b)
    ∙ bounds-closed size a b (show a) (show b) (show-ne-nil a) (show-ne-nil b)
        (parse_usize-show a fa) (parse_usize-show b fb)

pub parse_range-suffix :
    (size n : ℕ)
    → n < 2 ^ 64
    → parse_range size (range_text [] (show n)) ≡ some (size - n, sub64 size 1)
unfolding parse_range bounds split_once
parse_range-suffix size n fits = rw (
  parse_range,
  strip_prefix-append (codes "bytes=") (b'-' ∷ show n),
  bounds,
  parse_usize-show n fits,
)

-- The response to a range that lies in the file.
abbrev pub partial : List ℕ → Text → String → ℕ → ℕ → FileResponse
partial body etag content_type start end = record {
  status = 206;
  body = take (end + 1 - start) (drop start body);
  content_type = some content_type;
  etag = some etag;
  content_range = some (content_range_text start end (length body));
}

-- The headers of a response to a request for a file or a range of it are valid.
pub record IsSendable (is_header_value : Text → Bool) (etag : Text) (content_type : String)
    : Type 0 where
  pub content_type_valid : is_header_value (codes content_type) ≡ true
  pub etag_valid : is_header_value etag ≡ true
  pub range_valid :
      (start end size : ℕ) → is_header_value (content_range_text start end size) ≡ true

build_file_response-partial :
    (is_header_value : Text → Bool) (body : List ℕ) (etag : Text) (content_type : String)
    (start end : ℕ)
    → IsSendable is_header_value etag content_type
    → build_file_response is_header_value
        (take (end + 1 - start) (drop start body))
        etag
        content_type
        (some (content_range_text start end (length body), 206))
      ≡ partial body etag content_type start end
unfolding build_file_response
build_file_response-partial is_header_value body etag content_type start end sendable =
    rw
      (
        build_file_response,
        sendable.content_type_valid,
        sendable.etag_valid,
        sendable.range_valid start end (length body),
      )
      refl

pub serve_bounds-inside :
    (is_header_value : Text → Bool) (body : List ℕ) (etag : Text) (content_type : String)
    (start end : ℕ)
    → IsSendable is_header_value etag content_type
    → start ≤ end
    → end < length body
    → serve_bounds is_header_value body etag content_type start end
      ≡ some (ok (partial body etag content_type start end))
unfolding serve_bounds
serve_bounds-inside is_header_value body etag content_type start end sendable h k =
    let built =
      build_file_response-partial is_header_value body etag content_type start end sendable in
    ground (arith, built)

pub serve_bounds-cases :
    (is_header_value : Text → Bool) (body : List ℕ) (etag : Text) (content_type : String)
    (start end : ℕ)
    → IsSendable is_header_value etag content_type
    → end ≤ sub64 (length body) 1
    → length body < 2 ^ 64
    → serve_bounds is_header_value body etag content_type start end ≡ (
        if leb start end && ltb start (length body)
        then some (ok (partial body etag content_type start end))
        else some (err (range_not_satisfiable (length body))))
unfolding serve_bounds
serve_bounds-cases is_header_value body etag content_type start end sendable h fits =
    let built =
      build_file_response-partial is_header_value body etag content_type start end sendable in
    ground (arith, built)
