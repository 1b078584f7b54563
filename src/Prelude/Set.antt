-- ===== src/Prelude/Set.antt =====
-- `HashSet` as a list of elements with a decidable equality.
use mathlib.Core.Path.{◌≡◌}
use mathlib.Core.Bool.{Bool, true, false}
use mathlib.Core.Logic.{ite, if_pos, if_neg, inl, inr}
use mathlib.Core.List.{List, [], ◌∷◌}
use native.Mathlib.Omega.{arith}
use acton_dx.Prelude.Tests.{if◌then◌else◌, Bool-cases}

module _ {ℓ} {K : Type ℓ} (dec : Discrete K) where
  unfoldable pub contains : K → List K → Bool
  contains k [] = false
  contains k (j ∷ s) = ite (dec j k) true (contains k s)

  unfoldable pub insert : K → List K → List K
  insert k s = if contains k s then s else k ∷ s

  unfoldable pub remove : K → List K → List K
  remove k [] = []
  remove k (j ∷ s) = ite (dec j k) (remove k s) (j ∷ remove k s)

module _ {ℓ} {K : Type ℓ} (dec : Discrete K) where
  pub contains-insert :
      (j k : K) (s : List K)
      → contains dec j (insert dec k s) ≡ ite (dec k j) true (contains dec j s)
  unfolding contains insert
  contains-insert j k s = elim (Bool-cases (contains dec k s)) [
    | inl old ↦ rw old (ground arith)
    | inr new ↦ rw new
  ]

  pub contains-remove :
      (j k : K) (s : List K)
      → contains dec j (remove dec k s) ≡ ite (dec k j) false (contains dec j s)
  unfolding contains remove
  contains-remove j k [] = ground arith
  contains-remove j k (i ∷ s) = elim (dec i k) [
    | yes e ↦ rw (if_pos (dec i k) e) (ground (arith, contains-remove j k s))
    | no n ↦ rw (if_neg (dec i k) n) (ground (arith, contains-remove j k s))
  ]
