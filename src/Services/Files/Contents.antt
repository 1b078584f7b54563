-- ===== src/Services/Files/Contents.antt =====
-- What a client that puts the chunks of a download together has.
use acton_dx.Prelude.{
  ℕ, zero, suc, ◌+◌, ◌-◌, ◌≡◌, ◌≤◌, ◌<◌, ◌==◌, refl, sym, ap, ◌∙◌, true, Option, none, some, List,
  [], ◌∷◌, ◌++◌, length, take, drop, min, Bool-cases, inl, inr, arith, All, length-drop,
  take-append_drop,
}
use acton_dx.Prelude.Text.{concat}
use acton_dx.Services.Files.{Bytes}
use acton_dx.Services.Files.Download.{to_read, chunks}

-- The bytes that a download with this limit is about.
abbrev pub wanted : Option ℕ → (total_read : ℕ) → Bytes → Bytes
wanted none total_read rest = rest
wanted (some most) total_read rest = take (most - total_read) rest

abbrev pub IsChunk : (chunk_size : ℕ) → Bytes → Type 0
IsChunk chunk_size c = (0 < length c) × (length c ≤ chunk_size)

take-nil : (n : ℕ) → ◌≡◌ {A = Bytes} (take n []) []
take-nil zero = refl
take-nil (suc n) = refl

take-take-drop : (n k : ℕ) (xs : Bytes) → n ≤ k → take n xs ++ take (k - n) (drop n xs) ≡ take k xs
take-take-drop zero k xs h = ap (λ i. take i xs) (omega arith)
take-take-drop (suc n) zero xs h = absurd (omega arith)
take-take-drop (suc n) (suc k) [] h = take-nil (suc k - suc n)
take-take-drop (suc n) (suc k) (x ∷ xs) h =
    ap (λ l. x ∷ l)
      (ap (λ j. take n xs ++ take j (drop n xs)) (omega arith)
        ∙ take-take-drop n k xs (omega arith))

length-take : (n : ℕ) (xs : Bytes) → n ≤ length xs → length (take n xs) ≡ n
length-take zero xs h = omega arith
length-take (suc n) [] h = absurd (omega arith)
length-take (suc n) (x ∷ xs) h = omega (arith, length-take n xs (omega arith))

wanted_later :
    (most : Option ℕ) (n size total : ℕ) (rest : Bytes)
    → n ≤ to_read size most total
    → take n rest ++ wanted most (total + n) (drop n rest) ≡ wanted most total rest
unfolding to_read
wanted_later none n size total rest h = take-append_drop n rest
wanted_later (some m) n size total rest h =
    ap (λ k. take n rest ++ take k (drop n rest)) (omega arith)
    ∙ take-take-drop n (m - total) rest (omega arith)

-- Nothing is asked for where nothing is wanted.
wanted_none :
    (most : Option ℕ) (size total : ℕ) (rest : Bytes)
    → 0 < size
    → (to_read size most total == 0) ≡ true
    → wanted most total rest ≡ []
unfolding to_read
wanted_none none size total rest h e = absurd (ground arith)
wanted_none (some m) size total rest h e =
    ap (λ k. take k rest) {x = m - total} {y = 0} (ground arith)

wanted_nil : (most : Option ℕ) (total : ℕ) → wanted most total [] ≡ []
wanted_nil none total = refl
wanted_nil (some m) total = take-nil (m - total)

to_read-le : (size total : ℕ) (most : Option ℕ) → to_read size most total ≤ size
unfolding to_read
to_read-le size total none = omega arith
to_read-le size total (some m) = omega arith

nil_of_length : (xs : Bytes) → length xs ≡ 0 → xs ≡ []
nil_of_length [] h = refl
nil_of_length (x ∷ xs) h = absurd (omega arith)

-- One read and the loop behind it.
read_lem :
    (size n asked : ℕ) (rest : Bytes)
    → 0 < n
    → n ≤ length rest
    → n ≤ asked
    → asked ≤ size
    → IsChunk size (take n rest)
read_lem size n asked rest h k l b =
    (omega (arith, length-take n rest k), omega (arith, length-take n rest k))

-- Any fuel above the length is enough for the chunks to come to an end. Put together they are what is
-- wanted, whatever number of bytes each read gives, and each has at least one byte and no more than a
-- chunk may have.
pub chunks_lem :
    (fuel : ℕ) (reads : ℕ → ℕ) (size : ℕ) (most : Option ℕ) (i total : ℕ) (rest : Bytes)
    → 0 < size
    → length rest < fuel
    → (cs : List Bytes) × (chunks fuel reads size most i total rest ≡ some cs)
      × (concat cs ≡ wanted most total rest)
      × All (IsChunk size) cs
unfolding chunks concat
chunks_lem zero reads size most i total rest h f = absurd (omega arith)
chunks_lem (suc fuel) reads size most i total rest h f =
    let asked = to_read size most total in
    let n = min (suc (reads i)) (min asked (length rest)) in
    elim (Bool-cases (asked == 0)) [
      | inl done ↦ ([], rw (chunks, done) refl, sym (wanted_none most size total rest h done), tt)
      | inr more ↦ elim (Bool-cases (n == 0)) [
        | inl over ↦ (
          [],
          rw (chunks, more, over) refl,
          sym (ap (wanted most total) (nil_of_length rest (ground arith)) ∙ wanted_nil most total),
          tt,
        )
        | inr read ↦
            let some_read : 0 < n = ground arith in
            let in_rest : n ≤ length rest = omega arith in
            let in_asked : n ≤ asked = omega arith in
            let (cs, e, together, each) =
              chunks_lem fuel reads size most (suc i) (total + n) (drop n rest) h
                (omega (arith, length-drop n rest, some_read, in_rest)) in
            (
              take n rest ∷ cs,
              rw (chunks, more, read, e) refl,
              ap (λ l. take n rest ++ l) together ∙ wanted_later most n size total rest in_asked,
              (
                read_lem size n asked rest some_read in_rest in_asked (to_read-le size total most),
                each,
              ),
            )
      ]
    ]
