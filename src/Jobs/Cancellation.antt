-- ===== src/Jobs/Cancellation.antt =====
-- acton-dx/src/htmx/jobs/cancellation.rs: cancelling running jobs, and shutting down. The clones of a
-- token share a watch channel: a token is a reference, and the references whose channels hold `true`
-- are a set. Waiting on a channel (`cancelled`, `run_until_cancelled`) and the limit on the whole
-- shutdown (`shutdown_with_timeout`) are left out.
pub mod Signals
pub mod Waiting
pub mod Shutdown
mod Tests
use acton_dx.Prelude.{
  ℕ, zero, suc, ◌*◌, ◌≡◌, Bool, true, false, Option, none, some, List, [], ◌∷◌, ℕ_discrete, leb,
  if◌then◌else◌, length,
}
use acton_dx.Prelude.Dict
use acton_dx.Prelude.Set
use acton_dx.Jobs.Queue.{JobId}

abbrev pub TokenId : Type 0
TokenId = ℕ

-- The tokens of `JobCancellationManager`, and the channels of all tokens.
pub record World : Type 0 where
  pub tokens : List (JobId × TokenId)
  pub signalled : List TokenId

unfoldable pub is_cancelled : TokenId → World → Bool
is_cancelled t w = Set.contains ℕ_discrete t w.signalled

-- `CancellationToken::cancel`
unfoldable pub cancel : TokenId → World → World
cancel t w = record w { signalled = Set.insert ℕ_discrete t w.signalled }

unfoldable pub register : JobId → TokenId → World → World
register id t w = record w { tokens = Dict.insert ℕ_discrete id t w.tokens }

unfoldable pub unregister : JobId → World → World
unregister id w = record w { tokens = Dict.remove ℕ_discrete id w.tokens }

unfoldable pub cancel_job : JobId → World → World × Bool
unfolding cancel
cancel_job id w = elim (Dict.lookup ℕ_discrete id w.tokens) [
  | none ↦ (w, false)
  | some t ↦ (cancel t w, true)
]

-- The loop of `cancel_all`.
unfoldable pub cancel_each : List (JobId × TokenId) → World → World
cancel_each [] w = w
cancel_each ((id, t) ∷ rest) w = cancel_each rest (cancel t w)

unfoldable pub cancel_all : World → World
cancel_all w = cancel_each w.tokens w

unfoldable pub active_count : World → ℕ
active_count w = length w.tokens

-- What other tasks do with the manager.
pub data Action : Type 0 where
  registers : JobId → TokenId → Action
  unregisters cancels : JobId → Action

unfoldable pub act : Action → World → World
act (registers id t) w = register id t w
act (unregisters id) w = unregister id w
act (cancels id) w = (cancel_job id w).0

unfoldable pub act_all : List Action → World → World
act_all [] w = w
act_all (a ∷ actions) w = act_all actions (act a w)

pub data ShutdownResult : Type 0 where
  graceful : ShutdownResult
  forced : ℕ → ShutdownResult

unfoldable pub is_graceful : ShutdownResult → Bool
is_graceful graceful = true
is_graceful (forced n) = false

unfoldable pub jobs_remaining : ShutdownResult → ℕ
jobs_remaining graceful = 0
jobs_remaining (forced n) = n

-- The elapsed time at the `i`th poll, and what other tasks do in the sleep after it.
module _ (elapsed : ℕ → ℕ) (others : ℕ → List Action) where
  -- The loop of `wait_for_completion` from its `i`th poll: its answer and the world then. `none` means
  -- that the fuel ran out.
  unfoldable pub wait_from : ℕ → ℕ → ℕ → World → Option (Bool × World)
  wait_from zero max_wait i w = none
  wait_from (suc fuel) max_wait i w =
      let rest = wait_from fuel max_wait (suc i) (act_all (others i) w) in
      elim w.tokens [
        | [] ↦ some (true, w)
        | e ∷ es ↦ if leb max_wait (elapsed i) then some (false, w) else rest
      ]

  unfoldable pub wait_for_completion : ℕ → ℕ → World → Option (Bool × World)
  wait_for_completion fuel max_wait w = wait_from fuel max_wait 0 w

  -- `JobShutdownCoordinator::shutdown`, with the coordinator's own token. What other tasks do between
  -- the end of the wait and the count of the remaining jobs are the actions `late`.
  unfoldable pub shutdown : ℕ → TokenId → List Action → ℕ → World → Option (ShutdownResult × World)
  unfolding wait_for_completion
  shutdown fuel shutdown_token late graceful_timeout w =
      elim (wait_for_completion fuel graceful_timeout (cancel_all (cancel shutdown_token w))) [
        | none ↦ none
        | some (true, w') ↦ some (graceful, w')
        | some (false, w') ↦ some (forced (active_count (act_all late w')), act_all late w')
      ]
