-- ===== src/Jobs/History.antt =====
-- acton-dx/src/htmx/jobs/agent/history.rs and `JobHistoryPage` of jobs/agent/messages.rs: finished
-- jobs in a bounded buffer, and their pages. Lower-casing and substring search of texts, and the
-- text of a job id, belong to the standard library and the uuid crate: they are parameters.
pub mod Buffer
pub mod Pages
mod Tests
use mathlib.Core.List.{reverse}
use acton_dx.Prelude.{
  ℕ, zero, suc, ◌+◌, ◌-◌, ◌*◌, ◌/◌, ◌≡◌, ◌<◌, Bool, true, false, ◌||◌, Option, none, some, List, [],
  ◌∷◌, ◌++◌, String, length, take, drop, select, leb, ltb, ◌==◌, if◌then◌else◌, min, max,
}
use acton_dx.Prelude.Words.{add64, mul64, sub64}
use acton_dx.Jobs.Queue.{JobId}

pub data HistoryStatus : Type 0 where
  completed failed : HistoryStatus

pub record JobHistoryRecord : Type 0 where
  pub id : JobId
  pub job_type : String
  pub status : HistoryStatus
  pub enqueued_at : ℕ
  pub started_at : ℕ
  pub finished_at : ℕ
  pub duration_ms : ℕ
  pub attempts : ℕ
  pub error_message : Option String

-- `(finished_at - started_at).num_milliseconds().max(0)`; a span of instants always fits.
abbrev pub millis_between : ℕ → ℕ → ℕ
millis_between started finished = (finished - started) / 1_000_000

unfoldable pub completed_record : JobId → String → ℕ → ℕ → ℕ → ℕ → JobHistoryRecord
completed_record id job_type enqueued_at started_at finished_at attempts = record {
  id = id;
  job_type = job_type;
  status = completed;
  enqueued_at = enqueued_at;
  started_at = started_at;
  finished_at = finished_at;
  duration_ms = millis_between started_at finished_at;
  attempts = attempts;
  error_message = none;
}

unfoldable pub failed_record : JobId → String → ℕ → ℕ → ℕ → ℕ → String → JobHistoryRecord
failed_record id job_type enqueued_at started_at finished_at attempts message = record {
  id = id;
  job_type = job_type;
  status = failed;
  enqueued_at = enqueued_at;
  started_at = started_at;
  finished_at = finished_at;
  duration_ms = millis_between started_at finished_at;
  attempts = attempts;
  error_message = some message;
}

pub record Texts : Type 0 where
  pub to_lowercase : String → String
  pub has : String → String → Bool
  pub id_text : JobId → String

abbrev pub is_empty_text : String → Bool
is_empty_text String.[] = true
is_empty_text (String.◌∷◌ c s) = false

unfoldable pub matches_search : Texts → JobHistoryRecord → String → Bool
matches_search t r query =
    if is_empty_text query
    then true
    else t.has (t.to_lowercase r.job_type) (t.to_lowercase query)
      || (t.has (t.to_lowercase (t.id_text r.id)) (t.to_lowercase query) || elim r.error_message [
        | none ↦ false
        | some message ↦ t.has (t.to_lowercase message) (t.to_lowercase query)
      ])

-- Oldest first, as in the deque.
pub record JobHistory : Type 0 where
  pub records : List JobHistoryRecord
  pub max_records : ℕ

unfoldable pub new : ℕ → JobHistory
new max_records = record { records = []; max_records = max_records }

-- `VecDeque::pop_front`
abbrev pub pop_front {ℓ} : {A : Type ℓ} → List A → List A
pop_front [] = []
pop_front (x ∷ xs) = xs

unfoldable pub add : JobHistoryRecord → JobHistory → JobHistory
add r h = record h {
  records =
      (if leb h.max_records (length h.records) then pop_front h.records else h.records) ++ (r ∷ []);
}

-- The records that a query matches, latest first.
unfoldable pub filtered : Texts → JobHistory → Option String → List JobHistoryRecord
filtered t h none = reverse h.records
filtered t h (some query) = select (λ r. matches_search t r query) (reverse h.records)

-- `xs[start..end].to_vec()`; `none` is the panic of a slice that ends before it starts.
abbrev pub slice {ℓ} : {A : Type ℓ} → ℕ → ℕ → List A → Option (List A)
slice start end xs = if leb start end then some (take (end - start) (drop start xs)) else none

-- The page of `xs` with `page_size` elements, and how many there are.
unfoldable pub page_of : ℕ → ℕ → List JobHistoryRecord → Option (List JobHistoryRecord × ℕ)
page_of page page_size xs =
    let total_count = length xs in
    let start_index = mul64 (max page 1 - 1) page_size in
    let end_index = min (add64 start_index page_size) total_count in
    if leb total_count start_index
    then some ([], total_count)
    else elim (slice start_index end_index xs) [
      | none ↦ none
      | some page_records ↦ some (page_records, total_count)
    ]

unfoldable pub get_page :
    Texts → ℕ → ℕ → Option String → JobHistory → Option (List JobHistoryRecord × ℕ)
get_page t page page_size search_query h = page_of page page_size (filtered t h search_query)

pub record JobHistoryPage : Type 0 where
  pub jobs : List JobHistoryRecord
  pub page : ℕ
  pub page_size : ℕ
  pub total_count : ℕ
  pub has_prev : Bool
  pub has_next : Bool

-- `usize::div_ceil`; `none` is its panic on a division by zero.
abbrev pub div_ceil : ℕ → ℕ → Option ℕ
div_ceil n zero = none
div_ceil n (suc d) = some ((n + d) / suc d)

unfoldable pub page_new : List JobHistoryRecord → ℕ → ℕ → ℕ → Option JobHistoryPage
page_new jobs page page_size total_count = elim (div_ceil total_count page_size) [
  | none ↦ none
  | some total_pages ↦ some (record {
    jobs = jobs;
    page = page;
    page_size = page_size;
    total_count = total_count;
    has_prev = ltb 1 page;
    has_next = ltb page total_pages;
  })
]

-- The answer to `GetJobHistoryRequest`.
unfoldable pub history_page : Texts → ℕ → ℕ → Option String → JobHistory → Option JobHistoryPage
history_page t page page_size search_query h = elim (get_page t page page_size search_query h) [
  | none ↦ none
  | some (jobs, total_count) ↦ page_new jobs page page_size total_count
]

unfoldable pub prev_page : JobHistoryPage → ℕ
prev_page p = max (p.page - 1) 1

unfoldable pub next_page : JobHistoryPage → ℕ
next_page p = add64 p.page 1

unfoldable pub page_start : JobHistoryPage → ℕ
page_start p = elim p.jobs [ [] ↦ 0 | r ∷ rs ↦ add64 (mul64 (sub64 p.page 1) p.page_size) 1 ]

unfoldable pub page_end : JobHistoryPage → ℕ
unfolding page_start
page_end p = elim p.jobs [ [] ↦ 0 | r ∷ rs ↦ sub64 (add64 (page_start p) (length p.jobs)) 1 ]
