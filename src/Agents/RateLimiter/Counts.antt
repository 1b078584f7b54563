-- ===== src/Agents/RateLimiter/Counts.antt =====
-- The counters, and histories of an agent.
use acton_dx.Prelude.{
  ℕ, suc, ◌+◌, ◌^◌, ◌≡◌, ◌<◌, refl, true, List, [], ◌∷◌, String, arith, if◌then◌else◌,
  string_discrete, ite, none, Bool-cases, inl, inr,
}
use acton_dx.Prelude.Dict
use acton_dx.Agents.RateLimiter.{
  Floats, RateLimiterConfig, RateLimiterAgent, Clock, new, check_rate_limit, cleanup_expired,
  update_config, reset_bucket, bucket_of, consume, refill, try_consume, available_tokens,
}

-- The messages that change the model.
pub data Message (F : Type 0) : Type 0 where
  checks : Clock → String → ℕ → Message F
  cleans : ℕ → Message F
  configures : RateLimiterConfig F → Message F
  resets : String → Message F

module _ (f : Floats) where
  open f use {Float, at_least, from_int}

  unfoldable pub step : Message Float → RateLimiterAgent Float → RateLimiterAgent Float
  step (checks t key tokens) m = (check_rate_limit f t key tokens m).0
  step (cleans now) m = cleanup_expired f now m
  step (configures config) m = update_config f config m
  step (resets key) m = reset_bucket f key m

  unfoldable pub run : List (Message Float) → RateLimiterAgent Float → RateLimiterAgent Float
  run [] m = m
  run (c ∷ cs) m = run cs (step c m)

  -- The requests of a history.
  unfoldable pub requests : List (Message Float) → ℕ
  requests [] = 0
  requests (checks t key tokens ∷ cs) = suc (requests cs)
  requests (cleans now ∷ cs) = requests cs
  requests (configures config ∷ cs) = requests cs
  requests (resets key ∷ cs) = requests cs

  -- The agent has counted `n` requests, each as allowed or as denied.
  record Counts (n : ℕ) (m : RateLimiterAgent Float) : Type 0 where
    pub total : m.request_count ≡ n
    pub split : m.allowed_count + m.denied_count ≡ n

  check-Counts :
      (n : ℕ) (t : Clock) (key : String) (tokens : ℕ) (m : RateLimiterAgent Float)
      → suc n < 2 ^ 64
      → Counts n m
      → Counts (suc n) (check_rate_limit f t key tokens m).0
  unfolding check_rate_limit
  check-Counts n t key tokens m h c = ground arith

  run-Counts :
      (cs : List (Message Float)) (n : ℕ) (m : RateLimiterAgent Float)
      → n + requests cs < 2 ^ 64
      → Counts n m
      → Counts (n + requests cs) (run cs m)
  unfolding run step requests cleanup_expired update_config reset_bucket
  run-Counts [] n m h c = record { total = omega (arith, c.total); split = omega (arith, c.split) }
  run-Counts (checks t key tokens ∷ cs) n m h c =
      let next =
        run-Counts cs (suc n) (check_rate_limit f t key tokens m).0 (omega arith)
          (check-Counts n t key tokens m (omega arith) c) in
      record { total = omega (arith, next.total); split = omega (arith, next.split) }
  run-Counts (cleans now ∷ cs) n m h c =
      run-Counts cs n (cleanup_expired f now m) h (record { total = c.total; split = c.split })
  run-Counts (configures config ∷ cs) n m h c =
      run-Counts cs n (update_config f config m) h (record { total = c.total; split = c.split })
  run-Counts (resets key ∷ cs) n m h c =
      run-Counts cs n (reset_bucket f key m) h (record { total = c.total; split = c.split })

  -- After any messages to a new agent the request count is the number of requests, and the allowed
  -- and denied ones add up to it, as long as it fits into 64 bits.
  pub run-new-counts :
      (cs : List (Message Float)) (config : RateLimiterConfig Float)
      → requests cs < 2 ^ 64
      → ((run cs (new f config)).request_count ≡ requests cs)
        × ((run cs (new f config)).allowed_count + (run cs (new f config)).denied_count
            ≡ requests cs)
  unfolding new
  run-new-counts cs config h =
      let c =
        run-Counts cs 0 (new f config) (omega arith)
          (record { total = refl; split = omega arith }) in
      (omega (arith, c.total), omega (arith, c.split))

  -- An agent that is switched off allows every request and touches no bucket. One that is switched on
  -- allows a request exactly if the refilled bucket of its key has the tokens for it, and
  -- touches the bucket of no other key.
  check_rate_limit-allowed :
      (t : Clock) (key j : String) (tokens : ℕ) (m : RateLimiterAgent Float)
      → let r = check_rate_limit f t key tokens m in
        let b = refill f t.refilled (bucket_of f t.created key m) in
        (r.1.allowed ≡ (if m.config.enabled then at_least b.tokens (from_int tokens) else true))
        × (ite (string_discrete key j) none (Dict.lookup string_discrete j r.0.buckets)
            ≡ ite (string_discrete key j) none (Dict.lookup string_discrete j m.buckets))
        × ((if m.config.enabled then [] else r.0.buckets)
            ≡ (if m.config.enabled then [] else m.buckets))
  unfolding check_rate_limit consume try_consume available_tokens
  check_rate_limit-allowed t key j tokens m = elim (Bool-cases m.config.enabled) [
    | inl on ↦ (
      ground arith,
      ground (
        arith,
        Dict.lookup-insert string_discrete j key
            (consume f t tokens (bucket_of f t.created key m)).0 m.buckets,
      ),
      ground arith,
    )
    | inr off ↦ (ground arith, ground arith, ground arith)
  ]
