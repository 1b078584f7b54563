-- ===== src/Jobs/Cancellation/Waiting.antt =====
-- The wait for the running jobs, and the shutdown.
use acton_dx.Prelude.{
  ℕ, zero, suc, ◌+◌, ◌*◌, ◌≡◌, ◌≢◌, ◌≤◌, ◌<◌, refl, sym, ◌∙◌, Bool, true, false, some, inl, inr,
  List, [], ◌∷◌, ◌⊎◌, leb, arith, Bool-cases,
}
use native.Mathlib.Nat.{suc-mul}
use acton_dx.Jobs.Queue.{JobId}
use acton_dx.Jobs.Cancellation.{
  TokenId, World, is_cancelled, active_count, Action, act_all, wait_from,
}
use acton_dx.Jobs.Cancellation.Signals.{act_all_keeps}

-- Empty or not, for the split in `wait_from`.
List-cases : {A : Type 0} → (l : List A) → (l ≡ []) ⊎ ((a : A) × (rest : List A) × (l ≡ a ∷ rest))
List-cases [] = inl refl
List-cases (a ∷ rest) = inr (a, rest, refl)

module _ (elapsed : ℕ → ℕ) (others : ℕ → List Action) where
  -- The world at the `k`th poll after the `i`th.
  unfoldable pub polled : ℕ → ℕ → World → World
  polled zero i w = w
  polled (suc k) i w = polled k (suc i) (act_all (others i) w)

  wait_from-empty :
      (fuel max_wait i : ℕ) (w : World)
      → w.tokens ≡ []
      → wait_from elapsed others (suc fuel) max_wait i w ≡ some (true, w)
  unfolding wait_from
  wait_from-empty fuel max_wait i w empty = simp (wait_from, empty)

  wait_from-over :
      (fuel max_wait i : ℕ) (w : World) (e : JobId × TokenId) (es : List (JobId × TokenId))
      → w.tokens ≡ e ∷ es
      → leb max_wait (elapsed i) ≡ true
      → wait_from elapsed others (suc fuel) max_wait i w ≡ some (false, w)
  unfolding wait_from
  wait_from-over fuel max_wait i w e es busy over = simp (wait_from, busy, over)

  wait_from-early :
      (fuel max_wait i : ℕ) (w : World) (e : JobId × TokenId) (es : List (JobId × TokenId))
      → w.tokens ≡ e ∷ es
      → leb max_wait (elapsed i) ≡ false
      → wait_from elapsed others (suc fuel) max_wait i w
        ≡ wait_from elapsed others fuel max_wait (suc i) (act_all (others i) w)
  unfolding wait_from
  wait_from-early fuel max_wait i w e es busy early = simp (wait_from, busy, early)

  wait_from-none :
      (max_wait i : ℕ) (w : World) (r : Bool × World)
      → wait_from elapsed others zero max_wait i w ≢ some r
  unfolding wait_from
  wait_from-none max_wait i w r h = ground arith

  -- What a poll does: it ends the wait with no job left, or with time up, or it sleeps.
  poll-cases :
      (fuel max_wait i : ℕ) (w : World)
      → ((w.tokens ≡ []) × (wait_from elapsed others (suc fuel) max_wait i w ≡ some (true, w)))
        ⊎ ((max_wait ≤ elapsed i)
            × (wait_from elapsed others (suc fuel) max_wait i w ≡ some (false, w)))
        ⊎ ((elapsed i < max_wait)
            × (wait_from elapsed others (suc fuel) max_wait i w
                ≡ wait_from elapsed others fuel max_wait (suc i) (act_all (others i) w)))
  poll-cases fuel max_wait i w = elim (List-cases w.tokens) [
    | inl empty ↦ inl (empty, wait_from-empty fuel max_wait i w empty)
    | inr (e, es, busy) ↦ elim (Bool-cases (leb max_wait (elapsed i))) [
      | inl over ↦ inr (inl (ground (arith, over), wait_from-over fuel max_wait i w e es busy over))
      | inr early ↦
          inr (inr (ground (arith, early), wait_from-early fuel max_wait i w e es busy early))
    ]
  ]

  -- A wait that ends well leaves no job.
  pub wait_from-active_count :
      (fuel max_wait i : ℕ) (w w' : World)
      → wait_from elapsed others fuel max_wait i w ≡ some (true, w')
      → active_count w' ≡ 0
  unfolding active_count
  wait_from-active_count zero max_wait i w w' h = absurd (wait_from-none max_wait i w _ h)
  wait_from-active_count (suc fuel) max_wait i w w' h = elim (poll-cases fuel max_wait i w) [
    | inl (empty, ended) ↦ let same : w ≡ w' = ground arith in rw (← same, empty) refl
    | inr (inl (over, ended)) ↦ absurd (ground arith)
    | inr (inr (early, goes_on)) ↦
        wait_from-active_count fuel max_wait (suc i) (act_all (others i) w) w' (sym goes_on ∙ h)
  ]

  pub wait_from_keeps :
      (t : TokenId) (fuel max_wait i : ℕ) (w w' : World) (b : Bool)
      → is_cancelled t w ≡ true
      → wait_from elapsed others fuel max_wait i w ≡ some (b, w')
      → is_cancelled t w' ≡ true
  wait_from_keeps t zero max_wait i w w' b c h = absurd (wait_from-none max_wait i w _ h)
  wait_from_keeps t (suc fuel) max_wait i w w' b c h = elim (poll-cases fuel max_wait i w) [
    | inl (empty, ended) ↦ let same : w ≡ w' = ground arith in rw⁻¹ same c
    | inr (inl (over, ended)) ↦ let same : w ≡ w' = ground arith in rw⁻¹ same c
    | inr (inr (early, goes_on)) ↦
        wait_from_keeps t fuel max_wait (suc i) (act_all (others i) w) w' b
          (act_all_keeps t (others i) w c) (sym goes_on ∙ h)
  ]

  -- A clock that moves by the sleep, of 100 ms, at least.
  pub wait_from-returns :
      ((i : ℕ) → elapsed i + 100000000 ≤ elapsed (suc i))
      → (fuel max_wait i : ℕ) (w : World) → max_wait ≤ elapsed i + fuel * 100000000
      → (b : Bool) × (w' : World) × (wait_from elapsed others (suc fuel) max_wait i w
          ≡ some (b, w'))
  wait_from-returns clock zero max_wait i w enough = elim (poll-cases zero max_wait i w) [
    | inl (empty, ended) ↦ (true, w, ended)
    | inr (inl (over, ended)) ↦ (false, w, ended)
    | inr (inr (early, goes_on)) ↦ absurd (omega arith)
  ]
  wait_from-returns clock (suc fuel) max_wait i w enough =
      elim (poll-cases (suc fuel) max_wait i w) [
        | inl (empty, ended) ↦ (true, w, ended)
        | inr (inl (over, ended)) ↦ (false, w, ended)
        | inr (inr (early, goes_on)) ↦
            let (b, w', ended) =
              wait_from-returns clock fuel max_wait (suc i) (act_all (others i) w)
                (omega (arith, clock i, suc-mul fuel 100000000)) in
            (b, w', goes_on ∙ ended)
      ]

  -- A wait at whose `k`th poll, before the time is up, no job is left.
  pub wait_from-graceful :
      (k fuel max_wait i : ℕ) (w : World)
      → k < fuel
      → ((j : ℕ) → i ≤ j → j < i + k → elapsed j < max_wait)
      → (polled k i w).tokens ≡ []
      → (w' : World) × (wait_from elapsed others fuel max_wait i w ≡ some (true, w'))
  unfolding polled
  wait_from-graceful k zero max_wait i w more early free = absurd (omega arith)
  wait_from-graceful zero (suc fuel) max_wait i w more early free =
      (w, wait_from-empty fuel max_wait i w free)
  wait_from-graceful (suc k) (suc fuel) max_wait i w more early free =
      elim (poll-cases fuel max_wait i w) [
        | inl (empty, ended) ↦ (w, ended)
        | inr (inl (over, ended)) ↦ absurd (omega (arith, early i (omega arith) (omega arith)))
        | inr (inr (time, goes_on)) ↦
            let (w', ended) =
              wait_from-graceful k fuel max_wait (suc i) (act_all (others i) w) (omega arith)
                (λ j from below. early j (omega arith) (omega arith)) free in
            (w', goes_on ∙ ended)
      ]
