-- ===== src/Agents/RateLimiter/Tests.antt =====
-- A limiter on concrete requests, over whole numbers in place of floating-point ones.
use acton_dx.Prelude.{
  ℕ, ◌+◌, ◌-◌, ◌*◌, ◌/◌, ◌≡◌, refl, true, some, List, [], ◌∷◌, arith, string_discrete, leb, min,
}
use acton_dx.Prelude.Dict
use acton_dx.Prelude.Time.{second}
use acton_dx.Agents.RateLimiter.{
  Floats, TokenBucket, RateLimiterConfig, RateLimiterAgent, Clock, new, check_rate_limit, refill,
  bucket_of, try_consume, available_tokens, consume, bucket_new, reset_bucket,
}
use acton_dx.Agents.RateLimiter.Counts.{
  Message, checks, resets, step, run, requests, run-new-counts,
}
use acton_dx.Agents.RateLimiter.Bounds.{Laws, run-new-bounded}

abbrev whole : Floats
whole = record {
  Float = ℕ;
  from_int = λ n. n;
  as_secs = λ d. d / second;
  plus = λ a b. a + b;
  minus = λ a b. a - b;
  times = λ a b. a * b;
  least = λ a b. min a b;
  at_least = λ a b. leb b a;
  floor = λ a. a;
}

min_le : (x n : ℕ) → leb (min x n) n ≡ true
min_le x n = ground arith

laws : Laws whole
laws = record { least_le = λ x n. min_le x n }

abbrev config : RateLimiterConfig ℕ
config = record {
  bucket_capacity = 2;
  refill_rate = 1;
  cleanup_interval = 60 * second;
  bucket_expiration = 300 * second;
  enabled = true;
}

abbrev at : ℕ → Clock
at now = record { created = now; refilled = now; accessed = now; answered = now }

abbrev history : List (Message ℕ)
history = checks (at 1) "ip" 1 ∷ checks (at 2) "ip" 2 ∷ resets "user" ∷ []

abbrev agent : RateLimiterAgent ℕ
agent = run whole history (new whole config)

two_requests : requests whole history ≡ 2
unfolding requests
two_requests = refl

run-new-counts_example :
    (agent.request_count ≡ requests whole history)
    × (agent.allowed_count + agent.denied_count ≡ requests whole history)
run-new-counts_example = run-new-counts whole history config (rw two_requests (omega arith))

abbrev left : TokenBucket ℕ
left = record { tokens = 1; capacity = 2; refill_rate = 1; last_update = 2; last_access = 2 }

left_is_stored : Dict.lookup string_discrete "ip" agent.buckets ≡ some left
unfolding run step check_rate_limit new bucket_of consume try_consume available_tokens refill
    bucket_new Dict.lookup Dict.insert Dict.remove string_discrete reset_bucket
left_is_stored = refl

run-new-bounded_example : leb left.tokens left.capacity ≡ true
run-new-bounded_example = run-new-bounded whole laws history config "ip" left left_is_stored
