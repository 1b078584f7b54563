-- ===== src/Jobs/Queue/Validity.antt =====
-- What every operation of the queue keeps.
use acton_dx.Prelude.{
  List, [], ◌∷◌, ℕ, ◌≤◌, ◌≡◌, refl, not, arith, ℕ_discrete, length, length-select-le, is_some,
}
use acton_dx.Prelude.Set
use acton_dx.Jobs.Queue.{JobId, QueuedJob, JobQueue, new, enqueue, remove, has_id}
use acton_dx.Jobs.Queue.View.{find, Once, find-drop, Once-drop}

-- The heap fits, holds each job once, and `ids` is the set of the ids in it.
pub record IsValid (q : JobQueue) : Type 0 where
  pub bounded : length q.heap ≤ q.max_size
  pub once : Once q.heap
  pub agree : (id : JobId) → Set.contains ℕ_discrete id q.ids ≡ is_some (find id q.heap)

-- A new queue of any size is valid.
pub new-IsValid : (max_size : ℕ) → IsValid (new max_size)
unfolding new find Set.contains
new-IsValid n = record { bounded = omega arith; once = tt; agree = λ id. refl }

-- `enqueue` keeps a queue valid, whether it takes the job or refuses it.
pub enqueue-IsValid : (job : QueuedJob) (q : JobQueue) → IsValid q → IsValid (enqueue job q).0
unfolding enqueue find
enqueue-IsValid job q v = record {
  bounded = ground (arith, v.agree job.id);
  once = ground (arith, v.agree job.id);
  agree = λ id. ground (arith, v.agree id, Set.contains-insert ℕ_discrete id job.id q.ids);
}

-- `remove` keeps a queue valid.
pub remove-IsValid : (id : JobId) (q : JobQueue) → IsValid q → IsValid (remove id q).0
unfolding remove
remove-IsValid id q v = record {
  bounded = ground (arith, length-select-le (λ e. not (has_id id e)) q.heap);
  once = ground (arith, Once-drop id q.heap v.once);
  agree = λ j.
      ground (arith, v.agree j, find-drop j id q.heap, Set.contains-remove ℕ_discrete j id q.ids);
}

-- What the other actors' code does to a queue.
pub data Operation : Type 0 where
  enqueues : QueuedJob → Operation
  removes : JobId → Operation

abbrev pub apply : Operation → JobQueue → JobQueue
apply (enqueues job) q = (enqueue job q).0
apply (removes id) q = (remove id q).0

abbrev pub apply_all : List Operation → JobQueue → JobQueue
apply_all [] q = q
apply_all (o ∷ os) q = apply_all os (apply o q)

apply_all-IsValid : (os : List Operation) (q : JobQueue) → IsValid q → IsValid (apply_all os q)
apply_all-IsValid [] q v = v
apply_all-IsValid (enqueues job ∷ os) q v = apply_all-IsValid os _ (enqueue-IsValid job q v)
apply_all-IsValid (removes id ∷ os) q v = apply_all-IsValid os _ (remove-IsValid id q v)

-- After any calls of `enqueue` and `remove` on a new queue the heap is within its limit, no two
-- entries of it have one id, and the id set holds the ids of the heap and no others.
pub apply_all-new-IsValid :
    (max_size : ℕ) (os : List Operation) → IsValid (apply_all os (new max_size))
apply_all-new-IsValid max_size os = apply_all-IsValid os (new max_size) (new-IsValid max_size)
