-- ===== src/Jobs/Queue.antt =====
-- acton-dx/src/htmx/jobs/agent/queue.rs: the queue of pending jobs. The heap is a list in the
-- unspecified order of `BinaryHeap::into_vec`; no code takes a job from its top.
pub mod Contract
pub mod Order
pub mod Validity
pub mod View
mod Tests
use acton_dx.Prelude.{
  ℕ, ◌≡◌, ite, Bool, true, false, not, Option, none, some, List, [], ◌∷◌, String, ℕ_discrete,
  length, select, leb, if◌then◌else◌, Result, ok, err,
}
use acton_dx.Prelude.Dict.{option_map}
use acton_dx.Prelude.Set
use acton_dx.Prelude.Time.{ℤ}

-- A UUID, as the number of its 128 bits.
abbrev pub JobId : Type 0
JobId = ℕ

pub record QueuedJob : Type 0 where
  pub id : JobId
  pub job_type : String
  pub payload : List ℕ
  pub priority : ℤ
  pub max_retries : ℕ
  pub timeout : ℕ
  pub enqueued_at : ℕ
  pub attempt : ℕ

pub record QueueEntry : Type 0 where
  pub job : QueuedJob

pub record JobQueue : Type 0 where
  pub heap : List QueueEntry
  pub ids : List JobId
  pub max_size : ℕ

-- The two formatted messages of `enqueue`.
pub data EnqueueError : Type 0 where
  queue_full : ℕ → EnqueueError
  already_queued : JobId → EnqueueError

unfoldable pub new : ℕ → JobQueue
new max_size = record { heap = []; ids = []; max_size = max_size }

unfoldable pub enqueue : QueuedJob → JobQueue → JobQueue × Result (Unit {0}) EnqueueError
enqueue job q =
    if leb q.max_size (length q.heap)
    then (q, err (queue_full q.max_size))
    else if Set.contains ℕ_discrete job.id q.ids
    then (q, err (already_queued job.id))
    else (
      record q { ids = Set.insert ℕ_discrete job.id q.ids; heap = record { job = job } ∷ q.heap },
      ok tt,
    )

unfoldable pub contains : JobId → JobQueue → Bool
contains id q = Set.contains ℕ_discrete id q.ids

-- The test that `remove` partitions the entries by.
abbrev pub has_id : JobId → QueueEntry → Bool
has_id id e = ite (ℕ_discrete e.job.id id) true false

-- `into_iter().next()`
abbrev pub first {ℓ} : {A : Type ℓ} → List A → Option A
first [] = none
first (a ∷ rest) = some a

unfoldable pub remove : JobId → JobQueue → JobQueue × Option QueuedJob
remove id q =
    if Set.contains ℕ_discrete id q.ids
    then (
      record q {
        ids = Set.remove ℕ_discrete id q.ids;
        heap = select (λ e. not (has_id id e)) q.heap;
      },
      option_map (λ (e : QueueEntry). e.job) (first (select (has_id id) q.heap)),
    )
    else (q, none)

unfoldable pub len : JobQueue → ℕ
len q = length q.heap

unfoldable pub is_empty : JobQueue → Bool
is_empty q = elim q.heap [ [] ↦ true | e ∷ es ↦ false ]
