-- ===== src/Jobs/History/Pages.antt =====
-- The pages of the history are consecutive parts of the records that match.
use native.Mathlib.Nat.{zero-add, suc-add, zero-mul, suc-mul}
use acton_dx.Prelude.{
  ℕ, zero, suc, ◌+◌, ◌-◌, ◌*◌, ◌^◌, ◌≤◌, ◌<◌, ◌≡◌, refl, List, [], ◌∷◌, ◌++◌, String, arith, length,
  take, drop, max, min, leb, if◌then◌else◌, Option, none, some, length-drop, ltb, ◌/◌, dec_le,
  dec_lt, ◌%◌, lt→ltb, le→ltb, true, false,
}
use acton_dx.Prelude.Words.{add64, mul64}
use acton_dx.Jobs.History.{
  JobHistory, JobHistoryPage, JobHistoryRecord, page_new, Texts, page_of, get_page, filtered, slice,
}

zero_min : (n : ℕ) → min 0 n ≡ 0
zero_min n = omega arith

min_zero : (n : ℕ) → min n 0 ≡ 0
min_zero n = omega arith

suc-min-suc : (m n : ℕ) → min (suc m) (suc n) ≡ suc (min m n)
suc-min-suc m n = omega arith

drop_all {ℓ} : {A : Type ℓ} (k : ℕ) (xs : List A) → length xs ≤ k → drop k xs ≡ []
drop_all zero [] h = refl
drop_all zero (x ∷ xs) h = absurd (omega arith)
drop_all (suc k) [] h = refl
drop_all (suc k) (x ∷ xs) h = drop_all k xs (omega arith)

take-min {ℓ} : {A : Type ℓ} (n : ℕ) (xs : List A) → take (min n (length xs)) xs ≡ take n xs
take-min zero xs = rw (zero_min (length xs))
take-min (suc n) [] = rw (min_zero (suc n))
take-min (suc n) (x ∷ xs) = rw (suc-min-suc n (length xs), take-min n xs)

take-nil {ℓ} : {A : Type ℓ} (n : ℕ) → take {A = A} n [] ≡ []
take-nil zero = refl
take-nil (suc n) = refl

-- The branches of `page_of` at an exact start index agree.
cut : ℕ → ℕ → List JobHistoryRecord → Option (List JobHistoryRecord × ℕ)
cut start page_size xs =
    if leb (length xs) start
    then some ([], length xs)
    else elim (slice start (min (start + page_size) (length xs)) xs) [
      | none ↦ none
      | some page_records ↦ some (page_records, length xs)
    ]

cut_lem :
    (start page_size : ℕ) (xs : List JobHistoryRecord)
    → cut start page_size xs ≡ some (take page_size (drop start xs), length xs)
unfolding cut
cut_lem start page_size xs = elim (dec_le (length xs) start) [
  | yes past ↦
      let t : leb (length xs) start ≡ true = ground arith in
      rw (t, drop_all start xs past, take-nil page_size)
  | no within ↦
      let f : leb (length xs) start ≡ false = ground arith in
      let t : leb start (min (start + page_size) (length xs)) ≡ true = ground arith in
      let n : min (start + page_size) (length xs) - start ≡ min page_size (length (drop start xs)) =
        omega (arith, length-drop start xs) in
      rw (f, t, n, take-min page_size (drop start xs))
]

indices_exact :
    (p page_size : ℕ)
    → suc p * page_size < 2 ^ 64
    → (mul64 p page_size ≡ p * page_size)
      × (add64 (p * page_size) page_size ≡ p * page_size + page_size)
indices_exact p page_size h = omega arith

-- With no overflow a page has the `page_size` elements behind those of the pages before it.
page_of_lem :
    (p page_size : ℕ) (xs : List JobHistoryRecord)
    → suc p * page_size < 2 ^ 64
    → page_of (suc p) page_size xs ≡ some (take page_size (drop (p * page_size) xs), length xs)
unfolding page_of
page_of_lem p page_size xs h =
    let index : max (suc p) 1 - 1 ≡ p = omega arith in
    let (start, stop) = indices_exact p page_size h in
    rw (index, start, stop) (unfold cut in cut_lem (p * page_size) page_size xs)

-- The pages from the first up to page `k`, one behind the other; `none` if a page panics.
unfoldable pub pages : Texts → ℕ → ℕ → Option String → JobHistory → Option (List JobHistoryRecord)
pages t zero page_size query h = some []
pages t (suc k) page_size query h = elim (pages t k page_size query h) [
  | none ↦ none
  | some before ↦ elim (get_page t (suc k) page_size query h) [
    | none ↦ none
    | some (jobs, _) ↦ some (before ++ jobs)
  ]
]

take-append-take {ℓ} :
    {A : Type ℓ} (m n : ℕ) (xs : List A) → take m xs ++ take n (drop m xs) ≡ take (m + n) xs
take-append-take zero n xs = rw (zero-add n)
take-append-take (suc m) n [] = rw (take-nil n, take-nil (suc m + n))
take-append-take (suc m) n (x ∷ xs) = rw (suc-add m n, take-append-take m n xs)

-- As long as the indices fit into 64 bits, the first `k` pages together are the first `k *
-- page_size` records that match the query, latest first, each once.
pub pages-take :
    (t : Texts) (k page_size : ℕ) (query : Option String) (h : JobHistory)
    → k * page_size < 2 ^ 64
    → pages t k page_size query h ≡ some (take (k * page_size) (filtered t h query))
unfolding pages get_page
pages-take t zero page_size query h bound = rw (zero-mul page_size)
pages-take t (suc k) page_size query h bound =
    let ih = pages-take t k page_size query h (omega arith) in
    rw (
      ih,
      page_of_lem k page_size (filtered t h query) bound,
      take-append-take (k * page_size) page_size (filtered t h query),
      suc-mul k page_size,
    )

scale : (a b d : ℕ) → a ≤ b → a * suc d ≤ b * suc d
scale a b d h = grind arith

ceil_below : (page q r d n : ℕ) → n + d ≡ suc d * q + r → page < q → page * suc d < n
ceil_below page q r d n e h = omega (arith, scale (suc page) q d h)

ceil_above : (page q r d n : ℕ) → n + d ≡ suc d * q + r → r < suc d → q ≤ page → n ≤ page * suc d
ceil_above page q r d n e small h = omega (arith, scale q page d h)

ceil_lt : (page d n : ℕ) → ltb page ((n + d) / suc d) ≡ ltb (page * suc d) n
ceil_lt page d n =
    let q = (n + d) / suc d in
    let r = (n + d) % suc d in
    let e : n + d ≡ suc d * q + r = omega arith in
    let small : r < suc d = omega arith in
    elim (dec_lt page q) [
      | yes below ↦
          rw (lt→ltb page q below, lt→ltb (page * suc d) n (ceil_below page q r d n e below))
      | no above ↦
          let h : q ≤ page = omega arith in
          rw (le→ltb page q h, le→ltb (page * suc d) n (ceil_above page q r d n e small h))
    ]

-- A page that is built is announced as having a next one exactly when records stand behind it,
-- and a previous one exactly when it is not the first.
page_new-has_next :
    (jobs : List JobHistoryRecord) (page page_size total_count : ℕ) (p : JobHistoryPage)
    → page_new jobs page page_size total_count ≡ some p
    → (p.has_next ≡ ltb (page * page_size) total_count) × (p.has_prev ≡ ltb 1 page)
unfolding page_new
page_new-has_next jobs page zero total_count p e = cc
page_new-has_next jobs page (suc d) total_count p e = ground (arith, ceil_lt page d total_count)
