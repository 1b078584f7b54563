-- ===== src/Jobs/Cancellation/Tests.antt =====
-- Shutdowns of concrete sets of jobs.
use acton_dx.Prelude.{ℕ, zero, suc, ◌*◌, ◌≡◌, refl, some, List, [], ◌∷◌, ℕ_discrete, arith}
use acton_dx.Jobs.Cancellation.{
  World, cancel, cancel_all, active_count, Action, unregisters, act_all, ShutdownResult, graceful,
  forced, shutdown, wait_from, cancel_each, act, unregister,
}
use acton_dx.Prelude.Dict
use acton_dx.Prelude.Set
use acton_dx.Jobs.Cancellation.Waiting.{polled}
use acton_dx.Jobs.Cancellation.Shutdown.{IsStopped, shutdown-returns, shutdown-graceful}

-- Polls exactly 100 ms apart.
abbrev clock : ℕ → ℕ
clock i = i * 100000000

abbrev two_jobs : World
two_jobs = record { tokens = (1, 11) ∷ (2, 12) ∷ []; signalled = [] }

-- Job 1 ends in the first sleep, job 2 in the second, or never.
abbrev both_end : ℕ → List Action
both_end zero = unregisters 1 ∷ []
both_end (suc zero) = unregisters 2 ∷ []
both_end (suc (suc i)) = []

abbrev one_stays : ℕ → List Action
one_stays zero = unregisters 1 ∷ []
one_stays (suc i) = []

stopped-cancels :
    shutdown clock one_stays 4 9 [] 250000000 two_jobs
    ≡ some (forced 1, record { tokens = (2, 12) ∷ []; signalled = 12 ∷ 11 ∷ 9 ∷ [] })
unfolding shutdown wait_from cancel_all cancel_each cancel act_all act unregister Dict.remove
    ℕ_discrete active_count Set.insert Set.contains
stopped-cancels = refl

shutdown-returns_example :
    (r : ShutdownResult) × (w' : World) × (shutdown clock one_stays 4 9 [] 250000000 two_jobs
      ≡ some (r, w'))
    × IsStopped clock one_stays 9 [] two_jobs r w'
shutdown-returns_example =
    shutdown-returns clock one_stays 9 [] 3 250000000 two_jobs (λ i. omega arith) (omega arith)

shutdown-graceful_example :
    (w' : World) × (shutdown clock both_end 4 9 [] 250000000 two_jobs ≡ some (graceful, w'))
    × (active_count w' ≡ 0)
unfolding polled act_all act unregister Dict.remove cancel_all cancel_each cancel ℕ_discrete
shutdown-graceful_example =
    shutdown-graceful clock both_end 9 [] 2 4 250000000 two_jobs (omega arith) (λ j h. omega arith)
      refl
