-- ===== src/Jobs/Queue/View.antt =====
-- The queue seen as a partial map from job ids to jobs.
use acton_dx.Prelude.{
  ◌+◌, ◌≡◌, refl, ite, true, not, Option, none, some, List, [], ◌∷◌, arith, ℕ_discrete, length,
  select, is_some,
}
use acton_dx.Prelude.Dict.{option_map}
use acton_dx.Jobs.Queue.{JobId, QueuedJob, QueueEntry, has_id, first}

-- The first entry with an id.
unfoldable pub find : JobId → List QueueEntry → Option QueuedJob
find id [] = none
find id (e ∷ es) = ite (ℕ_discrete e.job.id id) (some e.job) (find id es)

-- No two entries have the same id.
abbrev pub Once : List QueueEntry → Type 0
Once [] = Unit
Once (e ∷ es) = (find e.job.id es ≡ none) × Once es

pub find-drop :
    (j id : JobId) (es : List QueueEntry)
    → find j (select (λ e. not (has_id id e)) es) ≡ ite (ℕ_discrete id j) none (find j es)
unfolding find
find-drop j id [] = ground arith
find-drop j id (e ∷ es) = ground (arith, find-drop j id es)

pub first-find :
    (id : JobId) (es : List QueueEntry)
    → option_map (λ (e : QueueEntry). e.job) (first (select (has_id id) es)) ≡ find id es
unfolding find
first-find id [] = refl
first-find id (e ∷ es) = ground (arith, first-find id es)

pub Once-drop :
    (id : JobId) (es : List QueueEntry) → Once es → Once (select (λ e. not (has_id id e)) es)
Once-drop id [] o = tt
Once-drop id (e ∷ es) o = ground (arith, Once-drop id es o.1, find-drop e.job.id id es)

pub length-drop_absent :
    (id : JobId) (es : List QueueEntry)
    → find id es ≡ none
    → length (select (λ e. not (has_id id e)) es) ≡ length es
unfolding find
length-drop_absent id [] h = refl
length-drop_absent id (e ∷ es) h = ground (arith, length-drop_absent id es)

pub length-drop_present :
    (id : JobId) (es : List QueueEntry)
    → Once es
    → is_some (find id es) ≡ true
    → length (select (λ e. not (has_id id e)) es) + 1 ≡ length es
unfolding find
length-drop_present id [] o h = ground arith
length-drop_present id (e ∷ es) o h =
    ground (arith, length-drop_present id es o.1, length-drop_absent id es)
