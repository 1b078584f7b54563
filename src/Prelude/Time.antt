-- ===== src/Prelude/Time.antt =====
-- Instants (`DateTime<Utc>`, `Instant`) are numbers of nanoseconds since a fixed origin, spans
-- (`chrono::Duration`) are signed.
use Prim.Native.Nat.{ℕ, suc, ◌+◌, ◌-◌, ◌*◌}

-- `negsuc n` is -(n + 1).
pub data ℤ : Type 0 where
  pos : ℕ → ℤ
  negsuc : ℕ → ℤ

-- `t + d`. Below the origin, where chrono panics, it stops at 0.
abbrev pub shift : ℕ → ℤ → ℕ
shift t (pos n) = t + n
shift t (negsuc n) = t - suc n

abbrev pub second : ℕ
second = 1_000_000_000

-- `Duration::hours(24)`
abbrev pub hours_24 : ℤ
hours_24 = pos (86_400 * second)
