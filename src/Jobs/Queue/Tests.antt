-- ===== src/Jobs/Queue/Tests.antt =====
-- The queue on concrete jobs.
use acton_dx.Prelude.{ℕ, ◌≡◌, refl, [], ◌∷◌, err, All, ℕ_discrete, some}
use acton_dx.Prelude.Set
use acton_dx.Prelude.Time.{ℤ, pos}
use acton_dx.Jobs.Queue.{JobId, QueuedJob, QueueEntry, JobQueue, new, enqueue, remove, queue_full}
use acton_dx.Jobs.Queue.Order.{compare_int, cmp, IsAtMost, IsTop-lowest}
use acton_dx.Jobs.Queue.Validity.{IsValid, enqueues, removes, apply_all, apply_all-new-IsValid}
use acton_dx.Jobs.Queue.Contract.{
  contents, spec_enqueue, spec_remove, enqueue-refines, remove-refines,
}

abbrev job : JobId → ℤ → ℕ → QueuedJob
job id priority at = record {
  id = id;
  job_type = "email";
  payload = [];
  priority = priority;
  max_retries = 3;
  timeout = 300;
  enqueued_at = at;
  attempt = 0;
}

abbrev entry : JobId → ℤ → ℕ → QueueEntry
entry id priority at = record { job = job id priority at }

-- A full queue of two jobs.
abbrev two_jobs : JobQueue
two_jobs = apply_all (enqueues (job 1 (pos 9) 10) ∷ enqueues (job 2 (pos 5) 11) ∷ []) (new 2)

two_jobs-IsValid : IsValid two_jobs
two_jobs-IsValid =
    apply_all-new-IsValid 2 (enqueues (job 1 (pos 9) 10) ∷ enqueues (job 2 (pos 5) 11) ∷ [])

full_queue : (enqueue (job 3 (pos 1) 12) two_jobs).1 ≡ err (queue_full 2)
unfolding enqueue new Set.contains Set.insert ℕ_discrete
full_queue = refl

removed_job : (remove 1 two_jobs).1 ≡ some (job 1 (pos 9) 10)
unfolding remove enqueue new Set.contains Set.insert ℕ_discrete
removed_job = refl

apply_all-new-IsValid_example :
    IsValid (apply_all (enqueues (job 1 (pos 9) 10) ∷ removes 1 ∷ []) (new 2))
apply_all-new-IsValid_example =
    apply_all-new-IsValid 2 (enqueues (job 1 (pos 9) 10) ∷ removes 1 ∷ [])

enqueue-refines_example :
    (contents (enqueue (job 3 (pos 1) 12) two_jobs).0
      ≡ (spec_enqueue (job 3 (pos 1) 12) (contents two_jobs)).0)
    × ((enqueue (job 3 (pos 1) 12) two_jobs).1
        ≡ (spec_enqueue (job 3 (pos 1) 12) (contents two_jobs)).1)
enqueue-refines_example = enqueue-refines (job 3 (pos 1) 12) two_jobs two_jobs-IsValid

remove-refines_example :
    (contents (remove 1 two_jobs).0 ≡ (spec_remove 1 (contents two_jobs)).0)
    × ((remove 1 two_jobs).1 ≡ (spec_remove 1 (contents two_jobs)).1)
remove-refines_example = remove-refines 1 two_jobs two_jobs-IsValid

-- Of two jobs the one of priority 5 is on top, not the one of priority 9.
IsTop-lowest_example :
    All (λ (x : QueueEntry). IsAtMost (pos 5) x.job.priority) (entry 1 (pos 9) 10 ∷ [])
unfolding cmp compare_int
IsTop-lowest_example = IsTop-lowest (entry 2 (pos 5) 11) (entry 1 (pos 9) 10 ∷ []) ((λ e. cc), tt)
