-- ===== src/Services/Files/Listing.antt =====
-- services/file-service/src/services/file.rs: the list of the files.
use acton_dx.Prelude.{
  ℕ, zero, suc, ◌≡◌, ◌≤◌, refl, sym, ap, ◌∙◌, Bool, true, Option, none, some, List, [], ◌∷◌, ◌++◌,
  map, select, length, take, drop, min, leb, if◌then◌else◌, is_some, take-append_drop, Bool-cases,
  inl, inr, arith, All, subst,
}
use mathlib.Core.List.{Perm}
use mathlib.Core.List.Perm
use acton_dx.Prelude.Time.{ℤ, pos, negsuc}
use acton_dx.Prelude.Text.{Text, strip_prefix}
use acton_dx.Services.Files.{StoredMetadata, FileMetadata, FileServiceImpl, to_proto}

-- `starts_with`, if a prefix is given.
unfoldable pub has_prefix : Option Text → StoredMetadata → Bool
has_prefix none f = true
has_prefix (some prefix) f = is_some (strip_prefix prefix f.filename)

-- The files of the service, in the order of the map's iteration.
unfoldable pub matching : Option Text → FileServiceImpl → List FileMetadata
matching path_prefix s =
    map to_proto (select (has_prefix path_prefix) (map (λ entry. entry.1) s.metadata))

-- A file in front of the first that is not newer: `sort_by`, which is stable, with the newest first.
unfoldable pub place : FileMetadata → List FileMetadata → List FileMetadata
place f [] = f ∷ []
place f (g ∷ gs) =
    let rest = place f gs in if leb g.created_at f.created_at then f ∷ g ∷ gs else g ∷ rest

unfoldable pub sort : List FileMetadata → List FileMetadata
sort [] = []
sort (f ∷ fs) = place f (sort fs)

-- `usize::try_from(req.limit.unwrap_or(100)).unwrap_or(100)`
unfoldable pub limit_of : Option ℤ → ℕ
limit_of none = 100
limit_of (some (pos n)) = n
limit_of (some (negsuc n)) = 100

unfoldable pub list_files : Option Text → Option ℤ → FileServiceImpl → List FileMetadata
list_files path_prefix limit s = take (limit_of limit) (sort (matching path_prefix s))

-- The newest first.
abbrev pub IsSorted : List FileMetadata → Type 0
IsSorted [] = Unit
IsSorted (f ∷ fs) = All (λ g. g.created_at ≤ f.created_at) fs × IsSorted fs

All-weaken :
    (a b : ℕ) (fs : List FileMetadata)
    → a ≤ b
    → All (λ g. g.created_at ≤ a) fs
    → All (λ g. g.created_at ≤ b) fs
All-weaken a b [] h k = tt
All-weaken a b (f ∷ fs) h k = (omega (arith, h, k.0), All-weaken a b fs h k.1)

place-All :
    (b : ℕ) (f : FileMetadata) (fs : List FileMetadata)
    → f.created_at ≤ b
    → All (λ g. g.created_at ≤ b) fs
    → All (λ g. g.created_at ≤ b) (place f fs)
unfolding place
place-All b f [] h k = (h, tt)
place-All b f (g ∷ gs) h k = elim (Bool-cases (leb g.created_at f.created_at)) [
  | inl here ↦ rw (place, here) (h, k)
  | inr later ↦ rw (place, later) (k.0, place-All b f gs h k.1)
]

place-IsSorted : (f : FileMetadata) (fs : List FileMetadata) → IsSorted fs → IsSorted (place f fs)
unfolding place
place-IsSorted f [] h = (tt, tt)
place-IsSorted f (g ∷ gs) h = elim (Bool-cases (leb g.created_at f.created_at)) [
  | inl here ↦
      let older : g.created_at ≤ f.created_at = ground arith in
      rw (place, here) ((older, All-weaken g.created_at f.created_at gs older h.0), h)
  | inr later ↦
      rw (place, later) (place-All g.created_at f gs (ground arith) h.0, place-IsSorted f gs h.1)
]

place-Perm : (f : FileMetadata) (fs : List FileMetadata) → Perm (f ∷ fs) (place f fs)
unfolding place
place-Perm f [] = Perm.refl (f ∷ [])
place-Perm f (g ∷ gs) = elim (Bool-cases (leb g.created_at f.created_at)) [
  | inl here ↦ rw (place, here) (Perm.refl (f ∷ g ∷ gs))
  | inr later ↦ rw (place, later) (Perm.trans (Perm.swap g f gs) (Perm.cons g (place-Perm f gs)))
]

sort-IsSorted : (fs : List FileMetadata) → IsSorted (sort fs)
unfolding sort
sort-IsSorted [] = tt
sort-IsSorted (f ∷ fs) = place-IsSorted f (sort fs) (sort-IsSorted fs)

sort-Perm : (fs : List FileMetadata) → Perm fs (sort fs)
unfolding sort
sort-Perm [] = Perm.refl []
sort-Perm (f ∷ fs) = Perm.trans (Perm.cons f (sort-Perm fs)) (place-Perm f (sort fs))

length-place : (f : FileMetadata) (fs : List FileMetadata) → length (place f fs) ≡ suc (length fs)
unfolding place
length-place f [] = refl
length-place f (g ∷ gs) = ground (arith, length-place f gs)

length-sort : (fs : List FileMetadata) → length (sort fs) ≡ length fs
unfolding sort
length-sort [] = refl
length-sort (f ∷ fs) = length-place f (sort fs) ∙ ap suc (length-sort fs)

length-take : (n : ℕ) (fs : List FileMetadata) → length (take n fs) ≡ min n (length fs)
length-take zero fs = omega arith
length-take (suc n) [] = omega arith
length-take (suc n) (f ∷ fs) = omega (arith, length-take n fs)

-- The list has the newest files of those whose names have the prefix, as many as the limit allows, the
-- newest first: with the files that are left out behind it, it has each matching file once, by age.
pub list_files-newest :
    (path_prefix : Option Text) (limit : Option ℤ) (s : FileServiceImpl)
    → (rest : List FileMetadata) × Perm
        (matching path_prefix s)
        (list_files path_prefix limit s ++ rest)
      × IsSorted (list_files path_prefix limit s ++ rest)
      × (length (list_files path_prefix limit s)
          ≡ min (limit_of limit) (length (matching path_prefix s)))
unfolding list_files
list_files-newest path_prefix limit s =
    let n = limit_of limit in
    let all = matching path_prefix s in
    let parts = take-append_drop n (sort all) in
    (
      drop n (sort all),
      subst (λ l. Perm all l) (sym parts) (sort-Perm all),
      subst IsSorted (sym parts) (sort-IsSorted all),
      length-take n (sort all) ∙ ap (min n) (length-sort all),
    )
