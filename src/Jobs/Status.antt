-- ===== src/Jobs/Status.antt =====
-- acton-dx/src/htmx/jobs/status.rs: where a job is in its life.
use acton_dx.Prelude.{ℕ, Bool, true, false, String}

pub data JobStatus : Type 0 where
  pending : JobStatus
  running completed cancelled : ℕ → JobStatus
  -- The attempts so far, the failure, the next try, and the error.
  retrying : ℕ → ℕ → ℕ → String → JobStatus
  -- The failure, the attempts made, and the error.
  failed : ℕ → ℕ → String → JobStatus

unfoldable pub is_terminal : JobStatus → Bool
is_terminal (completed at) = true
is_terminal (failed at attempts e) = true
is_terminal (cancelled at) = true
is_terminal pending = false
is_terminal (running at) = false
is_terminal (retrying attempt at next e) = false

unfoldable pub is_running : JobStatus → Bool
is_running (running at) = true
is_running _ = false

unfoldable pub is_pending : JobStatus → Bool
is_pending pending = true
is_pending _ = false

unfoldable pub is_retrying : JobStatus → Bool
is_retrying (retrying attempt at next e) = true
is_retrying _ = false

unfoldable pub name : JobStatus → String
name pending = "pending"
name (running at) = "running"
name (completed at) = "completed"
name (retrying attempt at next e) = "retrying"
name (failed at attempts e) = "failed"
name (cancelled at) = "cancelled"
