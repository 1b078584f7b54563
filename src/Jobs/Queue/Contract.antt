-- ===== src/Jobs/Queue/Contract.antt =====
-- What the queue promises, with the heap and the id set forgotten: a bounded partial map.
use mathlib.Core.Path.{fun_ext}
use acton_dx.Prelude.{
  ℕ, ◌+◌, ◌-◌, ◌≡◌, refl, ite, Option, none, some, inl, inr, arith, ℕ_discrete, length, leb,
  if◌then◌else◌, Result, ok, err, is_some, Bool-cases, Option-cases,
}
use acton_dx.Jobs.Queue.{
  JobId, QueuedJob, JobQueue, EnqueueError, queue_full, already_queued, enqueue, contains, remove,
}
use acton_dx.Jobs.Queue.View.{find, find-drop, first-find, length-drop_present}
use acton_dx.Jobs.Queue.Validity.{IsValid}

pub record Contents : Type 0 where
  pub jobs : JobId → Option QueuedJob
  pub size : ℕ
  pub limit : ℕ

abbrev pub contents : JobQueue → Contents
contents q = record { jobs = λ id. find id q.heap; size = length q.heap; limit = q.max_size }

-- Refuse at the limit, refuse an id that is there, else add the job.
unfoldable pub spec_enqueue : QueuedJob → Contents → Contents × Result (Unit {0}) EnqueueError
spec_enqueue job c =
    if leb c.limit c.size then (c, err (queue_full c.limit)) else elim (c.jobs job.id) [
      | some _ ↦ (c, err (already_queued job.id))
      | none ↦ (
        record c {
          jobs = λ id. ite (ℕ_discrete job.id id) (some job) (c.jobs id);
          size = c.size + 1;
        },
        ok tt,
      )
    ]

-- Take the job out, if it is there.
unfoldable pub spec_remove : JobId → Contents → Contents × Option QueuedJob
spec_remove id c = elim (c.jobs id) [
  | none ↦ (c, none)
  | some job ↦
      (record c { jobs = λ j. ite (ℕ_discrete id j) none (c.jobs j); size = c.size - 1 }, some job)
]

Contents-ext :
    {c d : Contents}
    → ((id : JobId) → c.jobs id ≡ d.jobs id)
    → c.size ≡ d.size
    → c.limit ≡ d.limit
    → c ≡ d
Contents-ext h s l = λ i. record { jobs = fun_ext h i; size = s i; limit = l i }

-- On a valid queue `enqueue` does to the contents what the contract says, and returns its result.
pub enqueue-refines :
    (job : QueuedJob) (q : JobQueue)
    → IsValid q
    → (contents (enqueue job q).0 ≡ (spec_enqueue job (contents q)).0)
      × ((enqueue job q).1 ≡ (spec_enqueue job (contents q)).1)
unfolding enqueue spec_enqueue
enqueue-refines job q v = elim (Bool-cases (leb q.max_size (length q.heap))) [
  | inl full ↦ rw full (refl, refl)
  | inr room ↦ elim (Option-cases (find job.id q.heap)) [
    | inl absent ↦
        rw (room, v.agree job.id, absent, spec_enqueue)
          (Contents-ext (unfold find in λ id. refl) (omega arith) refl, refl)
    | inr (old, present) ↦ rw (room, v.agree job.id, present, spec_enqueue) (refl, refl)
  ]
]

-- On a valid queue `remove` does to the contents what the contract says, and returns its job.
pub remove-refines :
    (id : JobId) (q : JobQueue)
    → IsValid q
    → (contents (remove id q).0 ≡ (spec_remove id (contents q)).0)
      × ((remove id q).1 ≡ (spec_remove id (contents q)).1)
unfolding remove spec_remove
remove-refines id q v = elim (Option-cases (find id q.heap)) [
  | inl absent ↦ rw (v.agree id, absent, spec_remove) (refl, refl)
  | inr (job, present) ↦
      rw (v.agree id, first-find id q.heap, present, spec_remove)
        (
          Contents-ext (λ j. find-drop j id q.heap)
              (omega (arith, length-drop_present id q.heap v.once (rw present))) refl,
          refl,
        )
]

-- On a valid queue `contains` answers whether the contents have the id.
pub contains-refines :
    (id : JobId) (q : JobQueue) → IsValid q → contains id q ≡ is_some ((contents q).jobs id)
unfolding contains
contains-refines id q v = v.agree id
