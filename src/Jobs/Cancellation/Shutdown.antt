-- ===== src/Jobs/Cancellation/Shutdown.antt =====
-- What a shutdown does, from its first step to its answer.
use acton_dx.Prelude.{
  ℕ, suc, ◌+◌, ◌*◌, ◌≡◌, ◌≤◌, ◌<◌, refl, sym, Bool, true, false, some, List, [], ℕ_discrete,
  if◌then◌else◌, arith,
}
use acton_dx.Prelude.Dict
use acton_dx.Jobs.Queue.{JobId}
use acton_dx.Jobs.Cancellation.{
  TokenId, World, is_cancelled, cancel, cancel_all, active_count, Action, act_all, ShutdownResult,
  graceful, forced, jobs_remaining, is_graceful, wait_from, wait_for_completion, shutdown,
}
use acton_dx.Jobs.Cancellation.Signals.{
  cancel_self, cancel_each_keeps, cancel_each-lookup, act_all_keeps,
}
use acton_dx.Jobs.Cancellation.Waiting.{
  polled, wait_from-active_count, wait_from_keeps, wait_from-returns, wait_from-graceful,
}

-- The world in which the wait begins.
abbrev stopping : TokenId → World → World
stopping shutdown_token w = cancel_all (cancel shutdown_token w)

stopping-shutdown_token :
    (shutdown_token : TokenId) (w : World)
    → is_cancelled shutdown_token (stopping shutdown_token w) ≡ true
unfolding cancel_all
stopping-shutdown_token shutdown_token w =
    cancel_each_keeps shutdown_token _ (cancel shutdown_token w) (cancel_self shutdown_token w)

stopping-registered :
    (shutdown_token : TokenId) (w : World) (id : JobId) (t : TokenId)
    → Dict.lookup ℕ_discrete id w.tokens ≡ some t
    → is_cancelled t (stopping shutdown_token w) ≡ true
unfolding cancel_all cancel
stopping-registered shutdown_token w id t e =
    cancel_each-lookup id t w.tokens (cancel shutdown_token w) e

module _ (elapsed : ℕ → ℕ) (others : ℕ → List Action) (shutdown_token : TokenId)
    (late : List Action) where
  shutdown-waited :
      (fuel graceful_timeout : ℕ) (w w' : World) (b : Bool)
      → wait_from elapsed others fuel graceful_timeout 0 (stopping shutdown_token w) ≡ some (b, w')
      → shutdown elapsed others fuel shutdown_token late graceful_timeout w ≡ (
          if b
          then some (graceful, w')
          else some (forced (active_count (act_all late w')), act_all late w'))
  unfolding shutdown wait_for_completion
  shutdown-waited fuel graceful_timeout w w' true h = rw (shutdown, wait_for_completion, h) refl
  shutdown-waited fuel graceful_timeout w w' false h = rw (shutdown, wait_for_completion, h) refl

  -- What holds when the shutdown is over: the answer counts the jobs that are left, and the
  -- coordinator's token and that of each job that ran at its beginning are cancelled.
  pub record IsStopped (w : World) (r : ShutdownResult) (w' : World) : Type 0 where
    pub counted : jobs_remaining r ≡ active_count w'
    pub signalled_shutdown : is_cancelled shutdown_token w' ≡ true
    pub signalled_jobs :
        (id : JobId) (t : TokenId)
        → Dict.lookup ℕ_discrete id w.tokens ≡ some t
        → is_cancelled t w' ≡ true

  waited-IsStopped :
      (fuel graceful_timeout : ℕ) (w w' : World) (b : Bool)
      → wait_from elapsed others fuel graceful_timeout 0 (stopping shutdown_token w) ≡ some (b, w')
      → (r : ShutdownResult) × (w'' : World) × (shutdown elapsed others fuel shutdown_token late
            graceful_timeout w
          ≡ some (r, w''))
        × (is_graceful r ≡ b)
        × IsStopped w r w''
  unfolding jobs_remaining is_graceful
  waited-IsStopped fuel graceful_timeout w w' true h = (
    graceful,
    w',
    shutdown-waited fuel graceful_timeout w w' true h,
    refl,
    record {
      counted = sym (wait_from-active_count elapsed others fuel graceful_timeout 0 _ w' h);
      signalled_shutdown =
          wait_from_keeps elapsed others shutdown_token fuel graceful_timeout 0 _ w' true
            (stopping-shutdown_token shutdown_token w) h;
      signalled_jobs = λ id t e.
          wait_from_keeps elapsed others t fuel graceful_timeout 0 _ w' true
            (stopping-registered shutdown_token w id t e) h;
    },
  )
  waited-IsStopped fuel graceful_timeout w w' false h = (
    forced (active_count (act_all late w')),
    act_all late w',
    shutdown-waited fuel graceful_timeout w w' false h,
    refl,
    record {
      counted = refl;
      signalled_shutdown = act_all_keeps shutdown_token late w' (
          wait_from_keeps elapsed others shutdown_token fuel graceful_timeout 0 _ w' false
            (stopping-shutdown_token shutdown_token w) h);
      signalled_jobs = λ id t e. act_all_keeps t late w' (
          wait_from_keeps elapsed others t fuel graceful_timeout 0 _ w' false
            (stopping-registered shutdown_token w id t e) h);
    },
  )

  -- A shutdown ends, whatever other tasks register and cancel meanwhile: where each sleep takes
  -- 100 ms at least, it polls at most once more than the timeout has such sleeps. When it is over,
  -- its answer counts the jobs that are left, and the coordinator's token and that of each job that
  -- was registered at its beginning are cancelled.
  pub shutdown-returns :
      (fuel graceful_timeout : ℕ) (w : World)
      → ((i : ℕ) → elapsed i + 100000000 ≤ elapsed (suc i))
      → graceful_timeout ≤ elapsed 0 + fuel * 100000000
      → (r : ShutdownResult) × (w' : World) × (shutdown elapsed others
            (suc fuel)
            shutdown_token
            late
            graceful_timeout
            w
          ≡ some (r, w'))
        × IsStopped w r w'
  shutdown-returns fuel graceful_timeout w clock enough =
      let (b, w', h) =
        wait_from-returns elapsed others clock fuel graceful_timeout 0 (stopping shutdown_token w)
          enough in
      let (r, w'', ended, kind, stopped) = waited-IsStopped (suc fuel) graceful_timeout w w' b h in
      (r, w'', ended, stopped)

  -- If at some poll no job is registered any more, and the time is not up before it, the shutdown is
  -- graceful, with no job left.
  pub shutdown-graceful :
      (k fuel graceful_timeout : ℕ) (w : World)
      → k < fuel
      → ((j : ℕ) → j < k → elapsed j < graceful_timeout)
      → (polled elapsed others k 0 (cancel_all (cancel shutdown_token w))).tokens ≡ []
      → (w' : World) × (shutdown elapsed others fuel shutdown_token late graceful_timeout w
          ≡ some (graceful, w'))
        × (active_count w' ≡ 0)
  shutdown-graceful k fuel graceful_timeout w more early free =
      let (w', h) =
        wait_from-graceful elapsed others k fuel graceful_timeout 0 (stopping shutdown_token w) more
          (λ j from below. early j (omega arith)) free in
      (
        w',
        shutdown-waited fuel graceful_timeout w w' true h,
        wait_from-active_count elapsed others fuel graceful_timeout 0 _ w' h,
      )
