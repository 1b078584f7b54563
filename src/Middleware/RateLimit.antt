-- ===== src/Middleware/RateLimit.antt =====
-- acton-dx/src/htmx/middleware/rate_limit.rs: the limit on the requests of a key in a window of time.
-- Keys and paths are those of Prelude/Text, and an id of a user is its decimal text. The replies of Redis
-- are arguments, and so are the readings of the clock. The lock on the store makes a check one step.
pub mod Windows
mod Tests
use acton_dx.Prelude.{
  ℕ, ◌+◌, ◌-◌, ◌*◌, ◌==◌, Bool, true, false, Option, none, some, List, [], ◌∷◌, ◌++◌, String, leb,
  ltb, if◌then◌else◌, Result, ok, err, length,
}
use acton_dx.Prelude.Dict
use acton_dx.Prelude.Time.{second}
use acton_dx.Prelude.Words.{add32}
use acton_dx.Prelude.Text.{Text, codes, text_discrete, strip_prefix}

-- `RateLimitConfig`, as far as it is read.
pub record RateLimitConfig : Type 0 where
  pub enabled : Bool
  pub per_user_rpm : ℕ
  pub per_ip_rpm : ℕ
  pub per_route_rpm : ℕ
  pub window_secs : ℕ
  pub redis_enabled : Bool
  pub strict_routes : List Text

pub record RateLimitEntry : Type 0 where
  pub count : ℕ
  pub window_start : ℕ

abbrev pub Store : Type 0
Store = List (Text × RateLimitEntry)

-- The errors, with the limit and the window, or the message of the backend.
pub data RateLimitError : Type 0 where
  exceeded : ℕ → ℕ → RateLimitError
  backend : String → RateLimitError

unfoldable pub starts_any : List Text → Text → Bool
starts_any [] path = false
starts_any (route ∷ routes) path = elim (strip_prefix route path) [
  | none ↦ starts_any routes path
  | some rest ↦ true
]

-- The key and the limit of a request: on a strict route, or not.
unfoldable pub key_and_limit : Bool → RateLimitConfig → Option Text → Option Text → Text × ℕ
key_and_limit true c (some uid) ip = (codes "ratelimit:route:user:" ++ uid, c.per_route_rpm)
key_and_limit true c none (some ip) = (codes "ratelimit:route:ip:" ++ ip, c.per_route_rpm)
key_and_limit true c none none = (codes "ratelimit:route:unknown", c.per_route_rpm)
key_and_limit false c (some uid) ip = (codes "ratelimit:user:" ++ uid, c.per_user_rpm)
key_and_limit false c none (some ip) = (codes "ratelimit:ip:" ++ ip, c.per_ip_rpm)
key_and_limit false c none none = (codes "ratelimit:unknown", c.per_ip_rpm)

unfoldable pub determine_key_and_limit :
    RateLimitConfig → Option Text → Option Text → Text → Text × ℕ
determine_key_and_limit c user_id ip_addr path =
    key_and_limit (starts_any c.strict_routes path) c user_id ip_addr

abbrev pub window_duration : RateLimitConfig → ℕ
window_duration c = c.window_secs * second

-- The entry of a key that a check finds or makes.
unfoldable pub entry_or_new : ℕ → Option RateLimitEntry → RateLimitEntry
entry_or_new now none = record { count = 0; window_start = now }
entry_or_new now (some e) = e

-- The entry after a request: a new window, or one more in this one.
unfoldable pub advance : ℕ → ℕ → RateLimitEntry → RateLimitEntry
advance window now e =
    if leb window (now - e.window_start)
    then record { count = 1; window_start = now }
    else record e { count = add32 e.count 1 }

unfoldable pub check_rate_limit_memory :
    RateLimitConfig → ℕ → Text → ℕ → Store → Store × Result Unit RateLimitError
check_rate_limit_memory c now key limit store =
    let e =
      advance (window_duration c) now (entry_or_new now (Dict.lookup text_discrete key store)) in
    (
      Dict.insert text_discrete key e store,
      if ltb limit e.count then err (exceeded limit (window_duration c)) else ok tt,
    )

-- `check_rate_limit_redis`: the connection, the count after `INCR`, and the reply to `EXPIRE`.
unfoldable pub check_rate_limit_redis :
    RateLimitConfig → Result ℕ String → Result Unit String → ℕ → Result Unit RateLimitError
check_rate_limit_redis c (err e) expire limit = err (backend e)
check_rate_limit_redis c (ok count) expire limit =
    let checked : Result Unit RateLimitError =
      if ltb limit count then err (exceeded limit (window_duration c)) else ok tt in
    if count == 1 then elim expire [ err e ↦ err (backend e) | ok done ↦ checked ] else checked

-- `check_rate_limit`, with the answer of Redis where there is a pool.
unfoldable pub check_rate_limit :
    RateLimitConfig
    → Option (Result Unit RateLimitError)
    → ℕ
    → Text
    → ℕ
    → Store
    → Store × Result Unit RateLimitError
check_rate_limit c none now key limit store = check_rate_limit_memory c now key limit store
check_rate_limit c (some (ok done)) now key limit store =
    if c.redis_enabled then (store, ok tt) else check_rate_limit_memory c now key limit store
check_rate_limit c (some (err e)) now key limit store =
    check_rate_limit_memory c now key limit store

-- What a request tells, and when it is checked.
pub record Request : Type 0 where
  pub user_id : Option Text
  pub ip_addr : Option Text
  pub path : Text

-- `RateLimit::middleware`, up to the call of the next service.
unfoldable pub middleware :
    RateLimitConfig
    → Option (Result Unit RateLimitError)
    → ℕ
    → Request
    → Store
    → Store × Result Unit RateLimitError
middleware c redis now request store =
    let (key, limit) = determine_key_and_limit c request.user_id request.ip_addr request.path in
    if c.enabled then check_rate_limit c redis now key limit store else (store, ok tt)

unfoldable pub is_live : ℕ → ℕ → RateLimitEntry → Bool
is_live window now e = ltb (now - e.window_start) window

unfoldable pub cleanup_expired : RateLimitConfig → ℕ → Store → Store × ℕ
cleanup_expired c now store =
    let kept = Dict.retain text_discrete (is_live (window_duration c) now) store in
    (kept, length store - length kept)
