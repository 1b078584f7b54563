-- ===== src/Jobs/History/Buffer.antt =====
-- The buffer keeps the latest records.
use acton_dx.Prelude.{
  ℕ, zero, suc, ◌-◌, ◌≤◌, ◌<◌, ◌≡◌, refl, List, [], ◌∷◌, ◌++◌, arith, length, drop, max, leb,
  length-append, length-drop, dec_le, true, false, sym, if◌then◌else◌, Bool-cases, inl, inr,
}
use mathlib.Core.List.{append_assoc, append-nil}
use acton_dx.Jobs.History.{JobHistory, JobHistoryRecord, new, add, pop_front}

-- A run of `add`, the oldest record first.
unfoldable pub add_all : List JobHistoryRecord → JobHistory → JobHistory
add_all [] h = h
add_all (r ∷ rs) h = add_all rs (add r h)

length-pop_front {ℓ} : {A : Type ℓ} (xs : List A) → length (pop_front xs) ≡ length xs - 1
length-pop_front [] = refl
length-pop_front (x ∷ xs) = omega arith

-- `add` keeps the number of records within the limit, or within one where the limit is zero.
add_bounded :
    (r : JobHistoryRecord) (h : JobHistory)
    → length h.records ≤ max h.max_records 1
    → length (add r h).records ≤ max h.max_records 1
unfolding add
add_bounded r h b = elim (Bool-cases (leb h.max_records (length h.records))) [
  | inl full ↦
      rw full
        (omega (arith, length-append (pop_front h.records) (r ∷ []), length-pop_front h.records))
  | inr room ↦ rw room (ground (arith, length-append h.records (r ∷ [])))
]

-- The last `n` elements.
abbrev latest {ℓ} : {A : Type ℓ} → ℕ → List A → List A
latest n xs = drop (length xs - n) xs

drop-suc {ℓ} : {A : Type ℓ} (k : ℕ) (xs : List A) → pop_front (drop k xs) ≡ drop (suc k) xs
drop-suc zero [] = refl
drop-suc zero (x ∷ xs) = refl
drop-suc (suc k) [] = refl
drop-suc (suc k) (x ∷ xs) = drop-suc k xs

drop-append_le {ℓ} :
    {A : Type ℓ} (k : ℕ) (xs ys : List A) → k ≤ length xs → drop k (xs ++ ys) ≡ drop k xs ++ ys
drop-append_le zero xs ys h = refl
drop-append_le (suc k) [] ys h = elim h [ ]
drop-append_le (suc k) (x ∷ xs) ys h = drop-append_le k xs ys (omega arith)

-- To keep the last `n` and then one more is to keep the last `n` of all.
latest-snoc {ℓ} :
    {A : Type ℓ} (n : ℕ) (xs : List A) (x : A)
    → (if leb (suc n) (length (latest (suc n) xs))
          then pop_front (latest (suc n) xs)
          else latest (suc n) xs)
        ++ (x ∷ [])
      ≡ latest (suc n) (xs ++ (x ∷ []))
latest-snoc n xs x = elim (dec_le (suc n) (length xs)) [
  | yes full ↦
      let bound : leb (suc n) (length (latest (suc n) xs)) ≡ true =
        ground (arith, length-drop (length xs - suc n) xs) in
      let index : length (xs ++ x ∷ []) - suc n ≡ suc (length xs - suc n) =
        omega (arith, length-append xs (x ∷ [])) in
      rw (bound, index, drop-suc (length xs - suc n) xs)
        (sym (drop-append_le (suc (length xs - suc n)) xs (x ∷ []) (omega arith)))
  | no room ↦
      let whole : length xs - suc n ≡ 0 = omega arith in
      let index : length (xs ++ x ∷ []) - suc n ≡ 0 = omega (arith, length-append xs (x ∷ [])) in
      let short : leb (suc n) (length xs) ≡ false = ground arith in rw (whole, index, short)
]

add_all-latest :
    (n : ℕ) (seen rs : List JobHistoryRecord) (h : JobHistory)
    → h.max_records ≡ suc n
    → h.records ≡ latest (suc n) seen
    → (add_all rs h).records ≡ latest (suc n) (seen ++ rs)
unfolding add_all add
add_all-latest n seen [] h m e = rw (append-nil seen) e
add_all-latest n seen (r ∷ rs) h m e =
    rw (← append_assoc seen (r ∷ []) rs)
      (add_all-latest n (seen ++ r ∷ []) rs (add r h) m (rw (m, e) (latest-snoc n seen r)))

none_left : (n : ℕ) → 0 - n ≡ 0
none_left n = omega arith

-- After any run of `add` on a new history with a limit above zero, the records are the latest
-- ones, as many as the limit allows, in the order of their addition.
pub add_all-new :
    (n : ℕ) (rs : List JobHistoryRecord) → 0 < n → (add_all rs (new n)).records ≡ latest n rs
unfolding new
add_all-new zero rs h = absurd (omega arith)
add_all-new (suc n) rs h = add_all-latest n [] rs (new (suc n)) refl nothing
  where
    nothing : [] ≡ drop {A = JobHistoryRecord} (0 - suc n) []
    nothing = rw (none_left (suc n))
