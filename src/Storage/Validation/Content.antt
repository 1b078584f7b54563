-- ===== src/Storage/Validation/Content.antt =====
-- What the checks of a content say of its header.
use acton_dx.Prelude.{
  ◌≡◌, ◌∙◌, sym, ap, true, Option, none, some, List, String, string_discrete, arith, ok, Bool-cases,
  inl, inr,
}
use acton_dx.Prelude.Set
use acton_dx.Storage.Types.{UploadedFile, validate_mime}
use acton_dx.Storage.Validation.{
  Infer, MimeValidator, detect_mime, check_detected, validate_against_magic, check_header,
  validate_header_matches_content,
}

check_detected-check_header :
    (v : MimeValidator) (file : UploadedFile) (allowed_types : List String)
    (detected : Option String)
    → check_detected v file allowed_types detected ≡ ok tt
    → check_header v file detected ≡ ok tt
    → validate_mime allowed_types file ≡ ok tt
unfolding check_detected check_header validate_mime
check_detected-check_header v file allowed_types none h k = elim (Bool-cases v.strict) [
  | inl strict ↦ absurd (ground arith)
  | inr lax ↦ ground arith
]
check_detected-check_header v file allowed_types (some t) h k =
    elim (string_discrete t file.content_type) [
      | yes same ↦
          let allowed : Set.contains string_discrete t allowed_types ≡ true = ground arith in
          let named : Set.contains string_discrete file.content_type allowed_types ≡ true =
            sym (ap (λ x. Set.contains string_discrete x allowed_types) same) ∙ allowed in
          ground arith
      | no other ↦ absurd (ground arith)
    ]

-- A file that passes the check of its content and that of its header has a header of an allowed type.
validate_mime-checked :
    (infer : Infer) (v : MimeValidator) (file : UploadedFile) (allowed_types : List String)
    → validate_against_magic infer v file allowed_types ≡ ok tt
    → validate_header_matches_content infer v file ≡ ok tt
    → validate_mime allowed_types file ≡ ok tt
unfolding validate_against_magic validate_header_matches_content
validate_mime-checked infer v file allowed_types h k =
    check_detected-check_header v file allowed_types (detect_mime infer file) h k
