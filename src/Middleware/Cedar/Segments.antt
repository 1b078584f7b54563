-- ===== src/Middleware/Cedar/Segments.antt =====
-- What the replacement of numbers makes of the segments of a path.
use mathlib.Core.List.{append-nil}
use acton_dx.Prelude.{
  ℕ, suc, ◌+◌, ◌≡◌, refl, sym, ap, ◌∙◌, Bool, true, false, ◌&&◌, none, some, List, [], ◌∷◌, ◌++◌,
  length, if◌then◌else◌, All, Bool-cases, inl, inr, arith,
}
use acton_dx.Prelude.Text.{Text, codes, is_digit, Lacks}
use acton_dx.Prelude.Parts.{behind}
use acton_dx.Middleware.Cedar.Paths.{digits_at, replace_numbers}

-- Digits, and nothing else.
abbrev pub all_digits : Text → Bool
all_digits [] = true
all_digits (c ∷ w) = is_digit c && all_digits w

abbrev pub is_number : Text → Bool
is_number [] = false
is_number (c ∷ w) = all_digits (c ∷ w)

-- What the second replacement makes of the segments of a path: of two numbers that stand next to each
-- other, it leaves the later one.
unfoldable pub numbers_replaced : (behind_number : Bool) → List Text → List Text
numbers_replaced behind_number [] = []
numbers_replaced true (w ∷ ws) = w ∷ numbers_replaced false ws
numbers_replaced false (w ∷ ws) =
    if is_number w then codes "{id}" ∷ numbers_replaced true ws else w ∷ numbers_replaced false ws

replace_numbers-skip :
    (w s : Text) (c : ℕ) → replace_numbers (suc (length w)) (w ++ c ∷ s) ≡ replace_numbers 0 s
unfolding replace_numbers
replace_numbers-skip [] s c = refl
replace_numbers-skip (d ∷ w) s c = replace_numbers-skip w s c

replace_numbers-skip_all : (w : Text) → replace_numbers (length w) w ≡ []
unfolding replace_numbers
replace_numbers-skip_all [] = refl
replace_numbers-skip_all (d ∷ w) = replace_numbers-skip_all w

replace_numbers-Lacks :
    (w s : Text) → Lacks b'/' w → replace_numbers 0 (w ++ s) ≡ w ++ replace_numbers 0 s
unfolding replace_numbers
replace_numbers-Lacks [] s h = refl
replace_numbers-Lacks (c ∷ w) s h =
    rw (replace_numbers, h.0) (ap (λ l. c ∷ l) (replace_numbers-Lacks w s h.1))

digits_at-end :
    (n : ℕ) (w : Text)
    → Lacks b'/' w
    → digits_at (suc n) w ≡ (if all_digits w then some (suc n + length w, false) else none)
unfolding digits_at
digits_at-end n [] h = ground arith
digits_at-end n (c ∷ w) h = ground (arith, digits_at-end (suc n) w h.1)

digits_at-slash :
    (n : ℕ) (w s : Text)
    → Lacks b'/' w
    → digits_at (suc n) (w ++ b'/' ∷ s)
      ≡ (if all_digits w then some (suc n + length w, true) else none)
unfolding digits_at
digits_at-slash n [] s h = ground arith
digits_at-slash n (c ∷ w) s h = ground (arith, digits_at-slash (suc n) w s h.1)

digits_at-last :
    (w : Text)
    → Lacks b'/' w
    → digits_at 0 w ≡ (if is_number w then some (length w, false) else none)
unfolding digits_at
digits_at-last [] h = refl
digits_at-last (c ∷ w) h = ground (arith, digits_at-end 0 w h.1)

digits_at-more :
    (w s : Text)
    → Lacks b'/' w
    → digits_at 0 (w ++ b'/' ∷ s) ≡ (if is_number w then some (length w, true) else none)
unfolding digits_at
digits_at-more [] s h = refl
digits_at-more (c ∷ w) s h = ground (arith, digits_at-slash 0 w s h.1)

replace_numbers-unchanged : (w : Text) → Lacks b'/' w → replace_numbers 0 w ≡ w
unfolding replace_numbers
replace_numbers-unchanged w h =
    ap (replace_numbers 0) (sym (append-nil w)) ∙ replace_numbers-Lacks w [] h ∙ append-nil w

-- The last segment.
replace_numbers-last :
    (w : Text)
    → Lacks b'/' w
    → replace_numbers 0 (b'/' ∷ w) ≡ (if is_number w then codes "/{id}" else b'/' ∷ w)
unfolding replace_numbers
replace_numbers-last w h = elim (Bool-cases (is_number w)) [
  | inl number ↦
      rw (replace_numbers, digits_at-last w h, number)
        (ap (λ l. codes "/{id}" ++ l) (replace_numbers-skip_all w))
  | inr word ↦
      rw (replace_numbers, digits_at-last w h, word)
        (ap (λ l. b'/' ∷ l) (replace_numbers-unchanged w h))
]

-- A segment with others behind it.
replace_numbers-number :
    (w s : Text)
    → Lacks b'/' w
    → is_number w ≡ true
    → replace_numbers 0 (b'/' ∷ (w ++ b'/' ∷ s)) ≡ codes "/{id}/" ++ replace_numbers 0 s
unfolding replace_numbers
replace_numbers-number w s h number =
    rw (replace_numbers, digits_at-more w s h, number)
      (ap (λ l. codes "/{id}/" ++ l) (replace_numbers-skip w s b'/'))

replace_numbers-word :
    (w s : Text)
    → Lacks b'/' w
    → is_number w ≡ false
    → replace_numbers 0 (b'/' ∷ (w ++ b'/' ∷ s)) ≡ b'/' ∷ (w ++ replace_numbers 0 (b'/' ∷ s))
unfolding replace_numbers
replace_numbers-word w s h word =
    let none_here : digits_at 0 (w ++ b'/' ∷ s) ≡ none =
      digits_at-more w s h ∙ ap (λ b. if b then some (length w, true) else none) word in
    rw (replace_numbers, none_here) (ap (λ l. b'/' ∷ l) (replace_numbers-Lacks w (b'/' ∷ s) h))

-- Of the segments of a path, those that are numbers are replaced by `{id}`, and no other is changed; but a
-- number that stands behind one that was replaced is left as it is.
pub replace_numbers-behind :
    (ws : List Text)
    → All (Lacks b'/') ws
    → replace_numbers 0 (behind b'/' ws) ≡ behind b'/' (numbers_replaced false ws)
unfolding numbers_replaced behind
replace_numbers-behind [] h = replace_numbers-unchanged [] tt
replace_numbers-behind (w ∷ []) h =
    ap (λ l. replace_numbers 0 (b'/' ∷ l)) (append-nil w)
    ∙ replace_numbers-last w h.0
    ∙ elim (Bool-cases (is_number w)) [
      | inl number ↦ rw number refl
      | inr word ↦ rw word (ap (λ l. b'/' ∷ l) (sym (append-nil w)))
    ]
replace_numbers-behind (w ∷ v ∷ vs) h = elim (Bool-cases (is_number w)) [
  | inl number ↦ rw number (
      replace_numbers-number w (v ++ behind b'/' vs) h.0 number
      ∙ ap (λ l. codes "/{id}/" ++ l)
          (replace_numbers-Lacks v (behind b'/' vs) h.1.0
            ∙ ap (λ l. v ++ l) (replace_numbers-behind vs h.1.1)))
  | inr word ↦ rw word (
      replace_numbers-word w (v ++ behind b'/' vs) h.0 word
      ∙ ap (λ l. b'/' ∷ (w ++ l)) (replace_numbers-behind (v ∷ vs) h.1))
]
