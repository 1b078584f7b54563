-- ===== src/Jobs/Queue/Order.antt =====
-- The order that the heap is kept by.
use Prim.Native.Nat.{compare, Ordering}
use acton_dx.Prelude.{List, [], ◌∷◌, ◌≢◌, List, arith, All}
use acton_dx.Prelude.Time.{ℤ, pos, negsuc}
use acton_dx.Jobs.Queue.{QueueEntry}

-- `i32::cmp`
unfoldable pub compare_int : ℤ → ℤ → Ordering
compare_int (pos a) (pos b) = compare a b
compare_int (pos a) (negsuc b) = Ordering.gt
compare_int (negsuc a) (pos b) = Ordering.lt
compare_int (negsuc a) (negsuc b) = compare b a

-- `Ord for QueueEntry`
unfoldable pub cmp : QueueEntry → QueueEntry → Ordering
cmp self other = elim (compare_int other.job.priority self.job.priority) [
  | Ordering.eq ↦ compare self.job.enqueued_at other.job.enqueued_at
  | Ordering.lt ↦ Ordering.lt
  | Ordering.gt ↦ Ordering.gt
]

-- `x ≤ y` between integers.
abbrev pub IsAtMost : ℤ → ℤ → Type 0
IsAtMost x y = compare_int x y ≢ Ordering.gt

-- What the documentation of `BinaryHeap` says of its top entry: no other is greater.
abbrev pub IsTop : QueueEntry → List QueueEntry → Type 0
IsTop e = All (λ x. cmp x e ≢ Ordering.gt)

top-le : (x e : QueueEntry) → cmp x e ≢ Ordering.gt → IsAtMost e.job.priority x.job.priority
unfolding cmp
top-le x e h = ground arith

-- An entry that no other entry exceeds by `cmp`, as the top of a max-heap, has the lowest
-- priority of all.
pub IsTop-lowest :
    (e : QueueEntry) (es : List QueueEntry)
    → IsTop e es
    → All (λ x. IsAtMost e.job.priority x.job.priority) es
IsTop-lowest e [] h = tt
IsTop-lowest e (x ∷ es) h = (top-le x e h.0, IsTop-lowest e es h.1)
