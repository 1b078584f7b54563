-- ===== src/Prelude/Dict.antt =====
-- `HashMap` and `DashMap` as association lists over keys with a decidable equality, each key once.
-- The order of the entries stands for the unspecified order of the map's iteration.
use mathlib.Core.Path.{◌≡◌, refl, subst}
use mathlib.Core.Bool.{Bool}
use mathlib.Core.Logic.{ite, if_pos, if_neg, inl, inr}
use mathlib.Core.List.{List, [], ◌∷◌}
use mathlib.Core.Option.{Option, none, some}
use native.Mathlib.Omega.{arith}
use acton_dx.Prelude.Tests.{if◌then◌else◌, Bool-cases}

module _ {ℓ} {A B : Type ℓ} where
  -- `Option::map`, computing in every proof.
  abbrev pub option_map : (A → B) → Option A → Option B
  option_map f none = none
  option_map f (some a) = some (f a)

module _ {ℓ} {A : Type ℓ} where
  -- `Option::filter`
  abbrev pub option_filter : (A → Bool) → Option A → Option A
  option_filter p none = none
  option_filter p (some a) = if p a then some a else none

module _ {ℓ} {A : Type ℓ} where
  pub option_filter-some :
      (p : A → Bool) (o : Option A) {a : A} → option_filter p o ≡ some a → o ≡ some a
  option_filter-some p none e = e
  option_filter-some p (some b) e = ground arith

module _ {ℓ} {K V : Type ℓ} (dec : Discrete K) where
  -- `get`
  unfoldable pub lookup : K → List (K × V) → Option V
  lookup k [] = none
  lookup k ((j, v) ∷ m) = ite (dec j k) (some v) (lookup k m)

  -- `insert`
  unfoldable pub insert : K → V → List (K × V) → List (K × V)
  insert k v [] = (k, v) ∷ []
  insert k v ((j, w) ∷ m) = ite (dec j k) ((k, v) ∷ m) ((j, w) ∷ insert k v m)

  -- `remove`
  unfoldable pub remove : K → List (K × V) → List (K × V)
  remove k [] = []
  remove k ((j, w) ∷ m) = ite (dec j k) (remove k m) ((j, w) ∷ remove k m)

  -- A change of the value at a key through `get_mut`, if it is there.
  unfoldable pub modify : K → (V → V) → List (K × V) → List (K × V)
  modify k f [] = []
  modify k f ((j, w) ∷ m) = ite (dec j k) ((j, f w) ∷ m) ((j, w) ∷ modify k f m)

  -- `retain`, with a test of the value
  unfoldable pub retain : (V → Bool) → List (K × V) → List (K × V)
  retain p [] = []
  retain p ((j, w) ∷ m) = if p w then (j, w) ∷ retain p m else retain p m

  -- Each key stands once.
  abbrev pub Distinct : List (K × V) → Type ℓ
  Distinct [] = Unit
  Distinct ((k, v) ∷ m) = (lookup k m ≡ none) × Distinct m

module _ {ℓ} {K V : Type ℓ} (dec : Discrete K) where
  pub lookup-insert :
      (j k : K) (v : V) (m : List (K × V))
      → lookup dec j (insert dec k v m) ≡ ite (dec k j) (some v) (lookup dec j m)
  unfolding lookup insert
  lookup-insert j k v [] = refl
  lookup-insert j k v ((i, w) ∷ m) = ground (arith, lookup-insert j k v m)

  pub lookup-remove :
      (j k : K) (m : List (K × V))
      → lookup dec j (remove dec k m) ≡ ite (dec k j) none (lookup dec j m)
  unfolding lookup remove
  lookup-remove j k [] = ground arith
  lookup-remove j k ((i, w) ∷ m) = ground (arith, lookup-remove j k m)

  pub lookup-modify :
      (j k : K) (f : V → V) (m : List (K × V))
      → lookup dec j (modify dec k f m)
        ≡ ite (dec k j) (option_map f (lookup dec j m)) (lookup dec j m)
  unfolding lookup modify
  lookup-modify j k f [] = ground arith
  lookup-modify j k f ((i, w) ∷ m) = ground (arith, lookup-modify j k f m)

  pub lookup-retain :
      (j : K) (p : V → Bool) (m : List (K × V))
      → Distinct dec m
      → lookup dec j (retain dec p m) ≡ option_filter p (lookup dec j m)
  unfolding lookup retain
  lookup-retain j p [] d = refl
  lookup-retain j p ((i, w) ∷ m) d = ground (arith, lookup-retain j p m d.1)

  pub lookup-retain_absent :
      (j : K) (p : V → Bool) (m : List (K × V))
      → lookup dec j m ≡ none
      → lookup dec j (retain dec p m) ≡ none
  unfolding lookup retain
  lookup-retain_absent j p [] e = refl
  lookup-retain_absent j p ((i, w) ∷ m) e = ground (arith, lookup-retain_absent j p m)

  pub Distinct-insert :
      (k : K) (v : V) (m : List (K × V)) → Distinct dec m → Distinct dec (insert dec k v m)
  unfolding lookup insert
  Distinct-insert k v [] d = (refl, tt)
  Distinct-insert k v ((i, w) ∷ m) d =
      ground (arith, Distinct-insert k v m d.1, lookup-insert i k v m)

  pub Distinct-remove : (k : K) (m : List (K × V)) → Distinct dec m → Distinct dec (remove dec k m)
  unfolding remove
  Distinct-remove k [] d = tt
  Distinct-remove k ((i, w) ∷ m) d = ground (arith, Distinct-remove k m d.1, lookup-remove i k m)

  pub Distinct-retain :
      (p : V → Bool) (m : List (K × V)) → Distinct dec m → Distinct dec (retain dec p m)
  unfolding retain
  Distinct-retain p [] d = tt
  Distinct-retain p ((i, w) ∷ m) d =
      ground (arith, Distinct-retain p m d.1, lookup-retain i p m d.1)

  pub Distinct-modify :
      (k : K) (f : V → V) (m : List (K × V)) → Distinct dec m → Distinct dec (modify dec k f m)
  unfolding modify
  Distinct-modify k f [] d = tt
  Distinct-modify k f ((i, w) ∷ m) d =
      ground (arith, Distinct-modify k f m d.1, lookup-modify i k f m)

-- A property of every value.
abbrev pub AllValues {ℓ κ} : {K V : Type ℓ} → (V → Type κ) → List (K × V) → Type κ
AllValues P [] = Unit
AllValues P ((k, v) ∷ m) = P v × AllValues P m

module _ {ℓ κ} {K V : Type ℓ} (dec : Discrete K) (P : V → Type κ) where
  pub AllValues-lookup :
      (k : K) (v : V) (m : List (K × V)) → AllValues P m → lookup dec k m ≡ some v → P v
  unfolding lookup
  AllValues-lookup k v [] a e = absurd (ground arith)
  AllValues-lookup k v ((j, w) ∷ m) a e = elim (dec j k) [
    | yes same ↦ subst P (ground arith) a.0
    | no other ↦ AllValues-lookup k v m a.1 (ground arith)
  ]

  pub AllValues-insert :
      (k : K) (v : V) (m : List (K × V)) → P v → AllValues P m → AllValues P (insert dec k v m)
  unfolding insert
  AllValues-insert k v [] p a = (p, tt)
  AllValues-insert k v ((j, w) ∷ m) p a = elim (dec j k) [
    | yes same ↦ rw (if_pos (dec j k) same) (p, a.1)
    | no other ↦ rw (if_neg (dec j k) other) (a.0, AllValues-insert k v m p a.1)
  ]

  pub AllValues-remove : (k : K) (m : List (K × V)) → AllValues P m → AllValues P (remove dec k m)
  unfolding remove
  AllValues-remove k [] a = tt
  AllValues-remove k ((j, w) ∷ m) a = elim (dec j k) [
    | yes same ↦ rw (if_pos (dec j k) same) (AllValues-remove k m a.1)
    | no other ↦ rw (if_neg (dec j k) other) (a.0, AllValues-remove k m a.1)
  ]

  pub AllValues-retain :
      (p : V → Bool) (m : List (K × V)) → AllValues P m → AllValues P (retain dec p m)
  unfolding retain
  AllValues-retain p [] a = tt
  AllValues-retain p ((j, w) ∷ m) a = elim (Bool-cases (p w)) [
    | inl kept ↦ rw kept (a.0, AllValues-retain p m a.1)
    | inr dropped ↦ rw dropped (AllValues-retain p m a.1)
  ]
