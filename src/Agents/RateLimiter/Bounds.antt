-- ===== src/Agents/RateLimiter/Bounds.antt =====
-- No bucket holds more tokens than its capacity.
use acton_dx.Prelude.{
  ℕ, ◌≡◌, true, List, [], ◌∷◌, String, string_discrete, some, Bool-cases, inl, inr,
}
use acton_dx.Prelude.Dict
use acton_dx.Agents.RateLimiter.{
  Floats, TokenBucket, RateLimiterConfig, RateLimiterAgent, Clock, refill, try_consume,
  available_tokens, bucket_of, consume, new, check_rate_limit, cleanup_expired, update_config,
  reset_bucket,
}
use acton_dx.Agents.RateLimiter.Counts.{Message, checks, cleans, configures, resets, step, run}

module _ (f : Floats) where
  open f use {Float, from_int, least, minus, at_least}

  -- What the documentation of `f64::min` says: the result is not above an argument that is not NaN, as
  -- the values of a `u32` are not.
  pub record Laws : Type 0 where
    pub least_le : (x : Float) (n : ℕ) → at_least (from_int n) (least x (from_int n)) ≡ true

  abbrev pub IsBounded : TokenBucket Float → Type 0
  IsBounded b = at_least (from_int b.capacity) b.tokens ≡ true

  module _ (laws : Laws) where
    refill-IsBounded : (now : ℕ) (b : TokenBucket Float) → IsBounded (refill f now b)
    unfolding refill
    refill-IsBounded now b = laws.least_le _ b.capacity

    consume-IsBounded :
        (t : Clock) (tokens : ℕ) (b : TokenBucket Float) → IsBounded (consume f t tokens b).0
    unfolding consume available_tokens
    consume-IsBounded t tokens b =
        refill-IsBounded t.answered (try_consume f t.refilled t.accessed tokens b).0

    check-IsBounded :
        (t : Clock) (key : String) (tokens : ℕ) (m : RateLimiterAgent Float)
        → Dict.AllValues IsBounded m.buckets
        → Dict.AllValues IsBounded (check_rate_limit f t key tokens m).0.buckets
    unfolding check_rate_limit
    check-IsBounded t key tokens m a = elim (Bool-cases m.config.enabled) [
      | inl on ↦
          rw (check_rate_limit, on)
            (Dict.AllValues-insert string_discrete IsBounded key _ m.buckets
              (consume-IsBounded t tokens (bucket_of f t.created key m)) a)
      | inr off ↦ rw (check_rate_limit, off) a
    ]

    run-IsBounded :
        (cs : List (Message Float)) (m : RateLimiterAgent Float)
        → Dict.AllValues IsBounded m.buckets
        → Dict.AllValues IsBounded (run f cs m).buckets
    unfolding run step cleanup_expired update_config reset_bucket
    run-IsBounded [] m a = a
    run-IsBounded (checks t key tokens ∷ cs) m a =
        run-IsBounded cs (check_rate_limit f t key tokens m).0 (check-IsBounded t key tokens m a)
    run-IsBounded (cleans now ∷ cs) m a =
        run-IsBounded cs (cleanup_expired f now m)
          (Dict.AllValues-retain string_discrete IsBounded _ m.buckets a)
    run-IsBounded (configures config ∷ cs) m a = run-IsBounded cs (update_config f config m) a
    run-IsBounded (resets key ∷ cs) m a =
        run-IsBounded cs (reset_bucket f key m)
          (Dict.AllValues-remove string_discrete IsBounded key m.buckets a)

    -- After any messages to a new agent, a bucket that is stored holds at most as many tokens as its
    -- capacity, if the minimum of numbers is as documented.
    pub run-new-bounded :
        (cs : List (Message Float)) (config : RateLimiterConfig Float) (key : String)
        (b : TokenBucket Float)
        → Dict.lookup string_discrete key (run f cs (new f config)).buckets ≡ some b
        → at_least (from_int b.capacity) b.tokens ≡ true
    unfolding new
    run-new-bounded cs config key b e =
        Dict.AllValues-lookup string_discrete IsBounded key b (run f cs (new f config)).buckets
          (run-IsBounded cs (new f config) tt) e
