-- ===== src/Middleware/FileServing/Requests.antt =====
-- The answers to requests.
use acton_dx.Prelude.{
  ℕ, zero, suc, ◌+◌, ◌-◌, ◌*◌, ◌^◌, ◌≡◌, ◌≤◌, ◌<◌, ◌⊎◌, refl, ap, sym, ◌∙◌, Bool, false, ◌&&◌,
  Option, none, some, inl, inr, List, [], ◌∷◌, ◌++◌, String, leb, ltb, if◌then◌else◌, Result, ok,
  err, length, take, drop, min, arith, Bool-cases, Option-cases, length-drop, drop-drop,
  take-append_drop, take-all, drop-all, dec_le,
}
use native.Mathlib.Nat.{suc-mul}
use acton_dx.Prelude.Text.{Text, codes, show, strip_prefix, split_once}
use acton_dx.Prelude.Words.{sub64}
use acton_dx.Middleware.FileServing.{
  FileResponse, FileServingError, storage, invalid_range, access_denied, range_not_satisfiable,
  bounds, parse_range, serve_bounds, build_file_response, serve_range_request, is_stale,
}
use acton_dx.Middleware.FileServing.Ranges.{
  range_text, parse_range-closed, parse_range-suffix, IsSendable, partial, serve_bounds-inside,
  serve_bounds-cases,
}

-- The response with a whole file.
abbrev pub whole : List ℕ → Text → String → FileResponse
whole body etag content_type = record {
  status = 200;
  body = body;
  content_type = some content_type;
  etag = some etag;
  content_range = none;
}

build_file_response-whole :
    (is_header_value : Text → Bool) (body : List ℕ) (etag : Text) (content_type : String)
    → IsSendable is_header_value etag content_type
    → build_file_response is_header_value body etag content_type none ≡ whole body etag content_type
unfolding build_file_response
build_file_response-whole is_header_value body etag content_type sendable =
    rw (build_file_response, sendable.content_type_valid, sendable.etag_valid) refl

module _ (body : List ℕ) (etag : Text) (content_type : String) where
  -- What a request for a range may be answered: the whole file, a range that lies in it, with the
  -- bytes that its `Content-Range` names, or one of two errors. `none`, a slice out of bounds, is no answer.
  abbrev pub IsServed : Option (Result FileResponse FileServingError) → Type 0
  IsServed none = ⊥
  IsServed (some (err invalid_range)) = Unit
  IsServed (some (err (range_not_satisfiable size))) = size ≡ length body
  IsServed (some (err access_denied)) = ⊥
  IsServed (some (err (storage e))) = ⊥
  IsServed (some (ok r)) =
      (r ≡ whole body etag content_type)
      ⊎ ((start : ℕ) × (end : ℕ) × (start ≤ end)
          × (end < length body)
          × (r ≡ partial body etag content_type start end))

bounds-le : (size a b : ℕ) (s t : Text) → bounds size s t ≡ some (a, b) → b ≤ sub64 size 1
unfolding bounds
bounds-le size a b [] t h = ground arith
bounds-le size a b (c ∷ s) [] h = ground arith
bounds-le size a b (c ∷ s) (d ∷ t) h = ground arith

parse_range-le : (size a b : ℕ) (s : Text) → parse_range size s ≡ some (a, b) → b ≤ sub64 size 1
unfolding parse_range
parse_range-le size a b s h = elim (Option-cases (strip_prefix (codes "bytes=") s)) [
  | inl other ↦ absurd (ground arith)
  | inr (spec, p) ↦ elim (Option-cases (split_once b'-' spec)) [
    | inl no_dash ↦ absurd (ground arith)
    | inr ((before, after), q) ↦ bounds-le size a b before after (ground arith)
  ]
]

module _ (is_header_value : Text → Bool) (body : List ℕ) (etag : Text) (content_type : String) where
  -- A client that fetches the file from `start` in ranges of `m + 1` bytes, at most `fuel` of them,
  -- and joins what it gets.
  pub download : ℕ → ℕ → ℕ → Option (List ℕ)
  download zero m start = some []
  download (suc fuel) m start =
      let rest = download fuel m (start + (m + 1)) in
      if leb (length body) start
      then some []
      else elim (serve_range_request is_header_value body
          (some (range_text (show start) (show (start + m)))) etag content_type none) [
            | none ↦ none
            | some (err e) ↦ none
            | some (ok r) ↦ elim rest [ none ↦ none | some bytes ↦ some (r.body ++ bytes) ]
          ]

module _ (is_header_value : Text → Bool) (body : List ℕ) (etag : Text) (content_type : String)
    (sendable : IsSendable is_header_value etag content_type) where
  -- A range that begins in the file gets its bytes, up to the end of the file.
  serve_range_request-closed :
      (a b : ℕ) (if_range : Option (Option Text))
      → is_stale etag if_range ≡ false
      → a ≤ b
      → a < length body
      → b < 2 ^ 64
      → length body < 2 ^ 64
      → serve_range_request is_header_value body
          (some (range_text (show a) (show b)))
          etag
          content_type
          if_range
        ≡ some (ok (partial body etag content_type a (min b (length body - 1))))
  unfolding serve_range_request
  serve_range_request-closed a b if_range current h k fb fits =
      let last : sub64 (length body) 1 ≡ length body - 1 = omega arith in
      let parsed : parse_range (length body) (range_text (show a) (show b))
          ≡ some (a, min b (length body - 1)) =
        parse_range-closed (length body) a b (omega arith) fb
        ∙ ap (λ (n : ℕ). some (a, min b n)) last in
      rw (serve_range_request, current, parsed)
        (serve_bounds-inside is_header_value body etag content_type a (min b (length body - 1))
          sendable (omega arith) (omega arith))

  take_range :
      (a m : ℕ)
      → a < length body
      → take (min (a + m) (length body - 1) + 1 - a) (drop a body) ≡ take (m + 1) (drop a body)
  take_range a m h = elim (dec_le (length body) (a + m + 1)) [
    | yes over ↦
        take-all _ (drop a body) (omega (arith, length-drop a body))
        ∙ sym (take-all _ (drop a body) (omega (arith, length-drop a body)))
    | no under ↦ ap (λ n. take n (drop a body)) (omega arith)
  ]

  -- A client that fetches a file from any place in it in ranges of one size, with requests enough for
  -- the rest of the file, gets that rest, each byte once and in order, if all bounds fit into 64 bits and
  -- the type, the tag and the ranges are valid as values of headers.
  pub download-drop :
      (fuel m start : ℕ)
      → length body ≤ start + fuel * (m + 1)
      → length body + m < 2 ^ 64
      → download is_header_value body etag content_type fuel m start ≡ some (drop start body)
  unfolding download
  download-drop zero m start enough fits = ap some (sym (drop-all start body (grind arith)))
  download-drop (suc fuel) m start enough fits = elim (Bool-cases (leb (length body) start)) [
    | inl over ↦ rw over (ap some (sym (drop-all start body (ground arith))))
    | inr under ↦
        let inside : start < length body = ground arith in
        rw
          (
            under,
            serve_range_request-closed start (start + m) none refl (omega arith) inside
                (omega arith) (omega arith),
            download-drop fuel m (start + (m + 1)) (omega (arith, suc-mul fuel (m + 1))) fits,
          )
          (ap some (
            rw (take_range start m inside, ← drop-drop start (m + 1) body)
              (take-append_drop (m + 1) (drop start body))))
  ]

  serve_bounds-IsServed :
      (start end : ℕ)
      → end ≤ sub64 (length body) 1
      → length body < 2 ^ 64
      → IsServed body etag content_type
          (serve_bounds is_header_value body etag content_type start end)
  serve_bounds-IsServed start end h fits =
      elim (Bool-cases (leb start end && ltb start (length body))) [
        | inl inside ↦
            rw
              (
                serve_bounds-cases is_header_value body etag content_type start end sendable h fits,
                inside,
              )
              (inr (start, end, ground arith, ground arith, refl))
        | inr outside ↦
            rw
              (
                serve_bounds-cases is_header_value body etag content_type start end sendable h fits,
                outside,
              )
              refl
      ]

  -- Where the subtraction from the size of an empty file wraps, as in a build without overflow checks, every
  -- request for a range of a file whose size fits into 64 bits, whatever its headers hold, is answered by
  -- the whole file, by a range that lies in the file with the bytes and the `Content-Range` of that range,
  -- or by one of the two errors for ranges; no slice is out of bounds. The type and the tag of the file and
  -- the ranges are valid as values of headers.
  pub serve_range_request-IsServed :
      (range_header : Option Text) (if_range : Option (Option Text))
      → length body < 2 ^ 64
      → IsServed body etag content_type
          (serve_range_request is_header_value body range_header etag content_type if_range)
  unfolding serve_range_request
  serve_range_request-IsServed range_header if_range fits =
      elim (Bool-cases (is_stale etag if_range)) [
        | inl stale ↦
            rw
              (
                serve_range_request,
                stale,
                build_file_response-whole is_header_value body etag content_type sendable,
              )
              (inl refl)
        | inr current ↦ elim (Option-cases range_header) [
          | inl bad ↦ rw (serve_range_request, current, bad) tt
          | inr (s, there) ↦ elim (Option-cases (parse_range (length body) s)) [
            | inl bad ↦ rw (serve_range_request, current, there, bad) tt
            | inr ((start, end), parsed) ↦
                rw (serve_range_request, current, there, parsed)
                  (serve_bounds-IsServed start end (parse_range-le (length body) start end s parsed)
                    fits)
          ]
        ]
      ]

  -- A request for the last `n` bytes, not of an empty file and not for none, gets them, or the
  -- whole file where it has fewer.
  serve_range_request-suffix :
      (n : ℕ) (if_range : Option (Option Text))
      → is_stale etag if_range ≡ false
      → 0 < n
      → n < 2 ^ 64
      → 0 < length body
      → length body < 2 ^ 64
      → (r : FileResponse) × (serve_range_request is_header_value body
            (some (range_text [] (show n)))
            etag
            content_type
            if_range
          ≡ some (ok r))
        × (r.body ≡ drop (length body - n) body)
  unfolding serve_range_request
  serve_range_request-suffix n if_range current pos fn some_bytes fits =
      let last : sub64 (length body) 1 ≡ length body - 1 = omega arith in
      let parsed : parse_range (length body) (range_text [] (show n))
          ≡ some (length body - n, length body - 1) =
        parse_range-suffix (length body) n fn ∙ ap (λ (k : ℕ). some (length body - n, k)) last in
      (
        partial body etag content_type (length body - n) (length body - 1),
        rw (serve_range_request, current, parsed)
            (serve_bounds-inside is_header_value body etag content_type (length body - n)
              (length body - 1) sendable (omega arith) (omega arith)),
        take-all _ (drop (length body - n) body)
            (omega (arith, length-drop (length body - n) body)),
      )
