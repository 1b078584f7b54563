-- ===== src/Agents/RateLimiter.antt =====
-- acton-dx/src/htmx/agents/rate_limiter.rs: a token bucket for each key. The floating-point numbers
-- are a parameter. Each reading of the clock is an argument, and replies are results.
pub mod Bounds
pub mod Counts
mod Tests
use acton_dx.Prelude.{
  ℕ, ◌+◌, ◌-◌, ◌*◌, ◌≡◌, Bool, true, false, not, Option, none, some, List, [], ◌∷◌, String,
  string_discrete, leb, if◌then◌else◌, length,
}
use acton_dx.Prelude.Dict
use acton_dx.Prelude.Time.{second}
use acton_dx.Prelude.Words.{add64}

-- `f64`: `from` of a `u32`, `as_secs_f64` of a duration, the operators, and `floor() as u32`.
pub record Floats : Type 1 where
  pub Float : Type 0
  pub from_int : ℕ → Float
  pub as_secs : ℕ → Float
  pub plus : Float → Float → Float
  pub minus : Float → Float → Float
  pub times : Float → Float → Float
  pub least : Float → Float → Float
  pub at_least : Float → Float → Bool
  pub floor : Float → ℕ

pub record TokenBucket (F : Type 0) : Type 0 where
  pub tokens : F
  pub capacity : ℕ
  pub refill_rate : F
  pub last_update : ℕ
  pub last_access : ℕ

pub record RateLimiterConfig (F : Type 0) : Type 0 where
  pub bucket_capacity : ℕ
  pub refill_rate : F
  pub cleanup_interval : ℕ
  pub bucket_expiration : ℕ
  pub enabled : Bool

pub record RateLimiterAgent (F : Type 0) : Type 0 where
  pub config : RateLimiterConfig F
  pub buckets : List (String × TokenBucket F)
  pub request_count : ℕ
  pub allowed_count : ℕ
  pub denied_count : ℕ

pub record RateLimitResult : Type 0 where
  pub allowed : Bool
  pub remaining_tokens : ℕ
  pub key : String

pub record RateLimiterStats : Type 0 where
  pub request_count : ℕ
  pub allowed_count : ℕ
  pub denied_count : ℕ
  pub bucket_count : ℕ
  pub enabled : Bool

-- The readings of the clock by `CheckRateLimit`: for a new bucket, for the refill, for the access, and
-- for the refill before the answer.
pub record Clock : Type 0 where
  pub created : ℕ
  pub refilled : ℕ
  pub accessed : ℕ
  pub answered : ℕ

module _ (f : Floats) where
  open f use {Float, from_int, as_secs, plus, minus, times, least, at_least, floor}

  unfoldable pub bucket_new : ℕ → ℕ → Float → TokenBucket Float
  bucket_new now capacity refill_rate = record {
    tokens = from_int capacity;
    capacity = capacity;
    refill_rate = refill_rate;
    last_update = now;
    last_access = now;
  }

  unfoldable pub refill : ℕ → TokenBucket Float → TokenBucket Float
  refill now b =
      let new_tokens = times (as_secs (now - b.last_update)) b.refill_rate in
      record b {
        tokens = least (plus b.tokens new_tokens) (from_int b.capacity);
        last_update = now;
      }

  unfoldable pub try_consume : ℕ → ℕ → ℕ → TokenBucket Float → TokenBucket Float × Bool
  unfolding refill
  try_consume now accessed tokens b =
      let filled = record (refill now b) { last_access = accessed } in
      let requested = from_int tokens in
      if at_least filled.tokens requested
      then (record filled { tokens = minus filled.tokens requested }, true)
      else (filled, false)

  unfoldable pub available_tokens : ℕ → TokenBucket Float → TokenBucket Float × ℕ
  unfolding refill
  available_tokens now b = let filled = refill now b in (filled, floor filled.tokens)

  unfoldable pub is_expired : ℕ → ℕ → TokenBucket Float → Bool
  is_expired now expiration b = leb expiration (now - b.last_access)

  unfoldable pub new : RateLimiterConfig Float → RateLimiterAgent Float
  new config = record {
    config = config;
    buckets = [];
    request_count = 0;
    allowed_count = 0;
    denied_count = 0;
  }

  -- The bucket that `CheckRateLimit` works on: that of the key, or a new one.
  unfoldable pub bucket_of : ℕ → String → RateLimiterAgent Float → TokenBucket Float
  unfolding bucket_new
  bucket_of now key m = elim (Dict.lookup string_discrete key m.buckets) [
    | none ↦ bucket_new now m.config.bucket_capacity m.config.refill_rate
    | some b ↦ b
  ]

  -- What it leaves of the bucket, whether the request is allowed, and the tokens that remain.
  unfoldable pub consume : Clock → ℕ → TokenBucket Float → TokenBucket Float × Bool × ℕ
  unfolding try_consume available_tokens
  consume t tokens b =
      let (taken, allowed) = try_consume t.refilled t.accessed tokens b in
      let (left, remaining) = available_tokens t.answered taken in (left, allowed, remaining)

  -- `CheckRateLimit`
  unfoldable pub check_rate_limit :
      Clock → String → ℕ → RateLimiterAgent Float → RateLimiterAgent Float × RateLimitResult
  unfolding bucket_of consume
  check_rate_limit t key tokens m =
      let counted = record m { request_count = add64 m.request_count 1 } in
      let (left, allowed, remaining) = consume t tokens (bucket_of t.created key m) in
      if not m.config.enabled
      then (
        record counted { allowed_count = add64 m.allowed_count 1 },
        record { allowed = true; remaining_tokens = m.config.bucket_capacity; key = key },
      )
      else (
        record counted {
          buckets = Dict.insert string_discrete key left m.buckets;
          allowed_count = (if allowed then add64 m.allowed_count 1 else m.allowed_count);
          denied_count = (if allowed then m.denied_count else add64 m.denied_count 1);
        },
        record { allowed = allowed; remaining_tokens = remaining; key = key },
      )

  -- `GetStats`
  unfoldable pub stats : RateLimiterAgent Float → RateLimiterStats
  stats m = record {
    request_count = m.request_count;
    allowed_count = m.allowed_count;
    denied_count = m.denied_count;
    bucket_count = length m.buckets;
    enabled = m.config.enabled;
  }

  -- `CleanupExpired`, with one reading of the clock for all buckets.
  unfoldable pub cleanup_expired : ℕ → RateLimiterAgent Float → RateLimiterAgent Float
  unfolding is_expired
  cleanup_expired now m = record m {
    buckets =
        Dict.retain string_discrete (λ b. not (is_expired now m.config.bucket_expiration b))
          m.buckets;
  }

  -- `UpdateConfig`: the buckets that are there keep their capacity and rate.
  unfoldable pub update_config :
      RateLimiterConfig Float → RateLimiterAgent Float → RateLimiterAgent Float
  update_config config m = record m { config = config }

  -- `ResetBucket`
  unfoldable pub reset_bucket : String → RateLimiterAgent Float → RateLimiterAgent Float
  reset_bucket key m = record m { buckets = Dict.remove string_discrete key m.buckets }
