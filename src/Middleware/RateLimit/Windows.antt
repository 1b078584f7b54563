-- ===== src/Middleware/RateLimit/Windows.antt =====
-- How many requests of a key pass in a window.
use acton_dx.Prelude.{
  ℕ, ◌+◌, ◌-◌, ◌^◌, ◌≡◌, ◌≤◌, ◌<◌, refl, ◌∙◌, false, Option, none, some, List, [], ◌∷◌, leb, ltb,
  if◌then◌else◌, Result, ok, err, length, min, arith, Bool-cases, inl, inr, if_pos,
}
use acton_dx.Prelude.Dict
use acton_dx.Prelude.Text.{Text, text_discrete}
use acton_dx.Prelude.Words.{add32}
use acton_dx.Middleware.RateLimit.{
  RateLimitConfig, RateLimitEntry, RateLimitError, exceeded, Store, window_duration, entry_or_new,
  advance, check_rate_limit_memory, check_rate_limit, cleanup_expired, is_live,
}

-- The number of requests, at these times and with these answers of Redis, that are let through.
abbrev passed : Result Unit RateLimitError → ℕ
passed (ok done) = 1
passed (err e) = 0

unfoldable pub let_through :
    RateLimitConfig → Text → ℕ → List (ℕ × Option (Result Unit RateLimitError)) → Store → ℕ
let_through c key limit [] store = 0
let_through c key limit ((now, redis) ∷ requests) store =
    let (store', answer) = check_rate_limit c redis now key limit store in
    passed answer + let_through c key limit requests store'

-- Requests in the window that starts at `start`, that Redis did not let through.
abbrev pub InWindow : RateLimitConfig → ℕ → List (ℕ × Option (Result Unit RateLimitError)) → Type 0
InWindow c start [] = Unit
InWindow c start ((now, some (ok done)) ∷ requests) = ⊥
InWindow c start ((now, _) ∷ requests) =
    (start ≤ now) × (now < start + window_duration c) × InWindow c start requests

advance-in_window :
    (window now n start : ℕ)
    → start ≤ now
    → now < start + window
    → n + 1 < 2 ^ 32
    → advance window now (record { count = n; window_start = start })
      ≡ record { count = n + 1; window_start = start }
unfolding advance
advance-in_window window now n start from until fits =
    let early : leb window (now - start) ≡ false = ground arith in
    let counted : add32 n 1 ≡ n + 1 = omega arith in rw (advance, early, counted) refl

-- A check in the window of the entry that is found or made, with `n` requests before it.
check_in_window :
    (c : RateLimitConfig) (now : ℕ) (key : Text) (limit : ℕ) (store : Store) (n start : ℕ)
    → entry_or_new now (Dict.lookup text_discrete key store)
      ≡ record { count = n; window_start = start }
    → start ≤ now
    → now < start + window_duration c
    → n + 1 < 2 ^ 32
    → check_rate_limit_memory c now key limit store ≡ (
      Dict.insert text_discrete key (record { count = n + 1; window_start = start }) store,
      if ltb limit (n + 1) then err (exceeded limit (window_duration c)) else ok tt,
    )
unfolding check_rate_limit_memory
check_in_window c now key limit store n start there from until fits =
    rw
      (
        check_rate_limit_memory,
        there,
        advance-in_window (window_duration c) now n start from until fits,
      )
      refl

InWindow-memory :
    (c : RateLimitConfig) (start now : ℕ) (redis : Option (Result Unit RateLimitError))
    (requests : List (ℕ × Option (Result Unit RateLimitError))) (key : Text) (limit : ℕ)
    (store : Store)
    → InWindow c start ((now, redis) ∷ requests)
    → (check_rate_limit c redis now key limit store ≡ check_rate_limit_memory c now key limit store)
      × (start ≤ now)
      × (now < start + window_duration c)
      × InWindow c start requests
unfolding check_rate_limit
InWindow-memory c start now none requests key limit store h = (refl, h.0, h.1, h.2)
InWindow-memory c start now (some (ok done)) requests key limit store h = absurd h
InWindow-memory c start now (some (err e)) requests key limit store h = (refl, h.0, h.1, h.2)

passed-below :
    (limit n : ℕ) (e : RateLimitError)
    → passed (if ltb limit (n + 1) then err e else ok tt) ≡ min (n + 1) limit - min n limit
passed-below limit n e = elim (Bool-cases (ltb limit (n + 1))) [
  | inl above ↦ rw above (ground arith)
  | inr below ↦ rw below (ground arith)
]

-- The requests after the first `n` of a window.
let_through-from :
    (c : RateLimitConfig) (key : Text) (limit n start : ℕ)
    (requests : List (ℕ × Option (Result Unit RateLimitError))) (store : Store)
    → Dict.lookup text_discrete key store ≡ some (record { count = n; window_start = start })
    → InWindow c start requests
    → n + length requests < 2 ^ 32
    → let_through c key limit requests store ≡ min (n + length requests) limit - min n limit
unfolding let_through entry_or_new
let_through-from c key limit n start [] store there h fits = omega arith
let_through-from c key limit n start ((now, redis) ∷ requests) store there h fits =
    let (memory, from, until, rest) =
      InWindow-memory c start now redis requests key limit store h in
    let counted : RateLimitEntry = record { count = n + 1; window_start = start } in
    let store' : Store = Dict.insert text_discrete key counted store in
    let here : entry_or_new now (Dict.lookup text_discrete key store)
        ≡ record { count = n; window_start = start } =
      rw there refl in
    let after : Dict.lookup text_discrete key store' ≡ some counted =
      Dict.lookup-insert text_discrete key key counted store
      ∙ if_pos (text_discrete key key) refl _ _ in
    rw
      (
        let_through,
        memory,
        check_in_window c now key limit store n start here from until (omega arith),
        let_through-from c key limit (n + 1) start requests store' after rest (omega arith),
        passed-below limit n (exceeded limit (window_duration c)),
      )
      (omega arith)

-- Of the requests of a key that is not in the store, in the window that the first of them starts, as
-- many pass as the limit says, or all if they are fewer, where they are less than 2^32 and Redis lets
-- none of them through; a refusal by Redis does not count.
pub let_through-window :
    (c : RateLimitConfig) (key : Text) (limit start : ℕ)
    (redis : Option (Result Unit RateLimitError))
    (requests : List (ℕ × Option (Result Unit RateLimitError))) (store : Store)
    → Dict.lookup text_discrete key store ≡ none
    → InWindow c start ((start, redis) ∷ requests)
    → length requests + 1 < 2 ^ 32
    → let_through c key limit ((start, redis) ∷ requests) store ≡ min (length requests + 1) limit
unfolding let_through entry_or_new
let_through-window c key limit start redis requests store absent h fits =
    let (memory, from, until, rest) =
      InWindow-memory c start start redis requests key limit store h in
    let counted : RateLimitEntry = record { count = 1; window_start = start } in
    let store' : Store = Dict.insert text_discrete key counted store in
    let here : entry_or_new start (Dict.lookup text_discrete key store)
        ≡ record { count = 0; window_start = start } =
      rw absent refl in
    let after : Dict.lookup text_discrete key store' ≡ some counted =
      Dict.lookup-insert text_discrete key key counted store
      ∙ if_pos (text_discrete key key) refl _ _ in
    rw
      (
        let_through,
        memory,
        check_in_window c start key limit store 0 start here from until (omega arith),
        let_through-from c key limit 1 start requests store' after rest (omega arith),
        passed-below limit 0 (exceeded limit (window_duration c)),
      )
      (omega arith)

advance-is_live :
    (window cleaned now : ℕ) (o : Option RateLimitEntry)
    → cleaned ≤ now
    → (advance window now (entry_or_new now (Dict.option_filter (is_live window cleaned) o))).count
      ≡ (advance window now (entry_or_new now o)).count
unfolding advance entry_or_new is_live
advance-is_live window cleaned now none later = refl
advance-is_live window cleaned now (some e) later = elim (Bool-cases (is_live window cleaned e)) [
  | inl live ↦ rw live refl
  | inr over ↦ rw over (ground arith)
]

-- Removing the entries whose windows are over, from a store with each key once, changes no answer, then
-- or later, with a clock that does not go back.
check_rate_limit_memory-cleanup_expired :
    (c : RateLimitConfig) (cleaned now : ℕ) (key : Text) (limit : ℕ) (store : Store)
    → Dict.Distinct text_discrete store
    → cleaned ≤ now
    → (check_rate_limit_memory c now key limit (cleanup_expired c cleaned store).0).1
      ≡ (check_rate_limit_memory c now key limit store).1
unfolding check_rate_limit_memory cleanup_expired advance entry_or_new is_live
check_rate_limit_memory-cleanup_expired c cleaned now key limit store d later =
    rw
      (
        check_rate_limit_memory,
        cleanup_expired,
        Dict.lookup-retain text_discrete key (is_live (window_duration c) cleaned) store d,
        advance-is_live (window_duration c) cleaned now (Dict.lookup text_discrete key store) later,
      )
      refl
