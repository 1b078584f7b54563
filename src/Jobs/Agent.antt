-- ===== src/Jobs/Agent.antt =====
-- acton-dx/src/htmx/jobs/agent/mod.rs and the messages and metrics of jobs/agent/messages.rs: the
-- actor that holds the queue. Replies are results; persistence in Redis and the job context are
-- left out. Nothing in this code runs a job, or puts one among the running or the dead jobs.
pub mod Accounts
pub mod Cancelling
pub mod Retrying
mod Tests
use acton_dx.Prelude.{
  ℕ, ◌+◌, ◌-◌, ◌*◌, ◌/◌, ◌%◌, ◌^◌, ◌≡◌, Bool, true, false, ◌||◌, Option, none, some, List, [], ◌∷◌,
  String, map, ℕ_discrete, length, ltb, ◌==◌, if◌then◌else◌, Result, ok, err, is_some, is_ok, max,
}
use acton_dx.Prelude.Dict
use acton_dx.Prelude.Time.{ℤ}
use acton_dx.Prelude.Words.{add64, saturating_add64}
use acton_dx.Jobs.Queue
use acton_dx.Jobs.Queue.{JobId, QueuedJob, JobQueue}
use acton_dx.Jobs.History
use acton_dx.Jobs.History.{JobHistory, JobHistoryPage, Texts}
use acton_dx.Jobs.Status.{JobStatus, pending}

pub record JobMetrics : Type 0 where
  pub jobs_enqueued : ℕ
  pub jobs_dequeued : ℕ
  pub jobs_completed : ℕ
  pub jobs_failed : ℕ
  pub jobs_rejected : ℕ
  pub jobs_in_dlq : ℕ
  pub current_queue_size : ℕ
  pub current_running : ℕ
  pub total_execution_time_ms : ℕ
  pub avg_execution_time_ms : ℕ
  pub min_execution_time_ms : ℕ
  pub max_execution_time_ms : ℕ
  pub p50_execution_time_ms : ℕ
  pub p95_execution_time_ms : ℕ
  pub p99_execution_time_ms : ℕ

unfoldable pub no_metrics : JobMetrics
no_metrics = record {
  jobs_enqueued = 0;
  jobs_dequeued = 0;
  jobs_completed = 0;
  jobs_failed = 0;
  jobs_rejected = 0;
  jobs_in_dlq = 0;
  current_queue_size = 0;
  current_running = 0;
  total_execution_time_ms = 0;
  avg_execution_time_ms = 0;
  min_execution_time_ms = 0;
  max_execution_time_ms = 0;
  p50_execution_time_ms = 0;
  p95_execution_time_ms = 0;
  p99_execution_time_ms = 0;
}

pub record JobAgent : Type 0 where
  pub queue : JobQueue
  pub running : List (JobId × JobStatus)
  pub dead_letter : List (JobId × QueuedJob)
  pub history : JobHistory
  pub metrics : JobMetrics

-- `JobAgent::new`
unfoldable pub new : JobAgent
unfolding no_metrics
new = record {
  queue = Queue.new 10_000;
  running = [];
  dead_letter = [];
  history = History.new 1_000;
  metrics = no_metrics;
}

pub record EnqueueJob : Type 0 where
  pub id : JobId
  pub job_type : String
  pub payload : List ℕ
  pub priority : ℤ
  pub max_retries : ℕ
  pub timeout : ℕ

abbrev pub queued_job : ℕ → EnqueueJob → QueuedJob
queued_job now msg = record {
  id = msg.id;
  job_type = msg.job_type;
  payload = msg.payload;
  priority = msg.priority;
  max_retries = msg.max_retries;
  timeout = msg.timeout;
  enqueued_at = now;
  attempt = 0;
}

-- `EnqueueJob`: the id of `JobEnqueued`, or no reply where the queue refuses the job.
unfoldable pub enqueue_job : ℕ → EnqueueJob → JobAgent → JobAgent × Option JobId
enqueue_job now msg m =
    let (queue, result) = Queue.enqueue (queued_job now msg) m.queue in
    let metrics = m.metrics in
    elim result [
      | ok _ ↦ (
        record m {
          queue = queue;
          metrics = record metrics { jobs_enqueued = add64 metrics.jobs_enqueued 1 };
        },
        some msg.id,
      )
      | err _ ↦ (
        record m {
          queue = queue;
          metrics = record metrics { jobs_rejected = add64 metrics.jobs_rejected 1 };
        },
        none,
      )
    ]

-- `GetJobStatus` and `GetJobStatusRequest`
unfoldable pub job_status : JobId → JobAgent → Option JobStatus
job_status id m = elim (Dict.lookup ℕ_discrete id m.running) [
  | some status ↦ some status
  | none ↦ if Queue.contains id m.queue then some pending else none
]

abbrev pub reset : QueuedJob → QueuedJob
reset job = record job { attempt = 0 }

-- `RetryJobRequest`
unfoldable pub retry_job : JobId → JobAgent → JobAgent × Bool
retry_job id m =
    let dead_letter = Dict.remove ℕ_discrete id m.dead_letter in
    elim (Dict.lookup ℕ_discrete id m.dead_letter) [
      | none ↦ (record m { dead_letter = dead_letter }, false)
      | some job ↦
          let (queue, result) = Queue.enqueue (reset job) m.queue in
          (record m { queue = queue; dead_letter = dead_letter }, is_ok result)
    ]

-- The loop of `RetryAllFailedRequest`: the queue, and the jobs that it took.
unfoldable pub enqueue_all : List QueuedJob → JobQueue × ℕ → JobQueue × ℕ
enqueue_all [] s = s
enqueue_all (job ∷ jobs) (queue, retried) =
    let (queue', result) = Queue.enqueue job queue in
    enqueue_all jobs (queue', if is_ok result then retried + 1 else retried)

-- `RetryAllFailedRequest`; the jobs are drained in the unspecified order of the map.
unfoldable pub retry_all_failed : JobAgent → JobAgent × ℕ
unfolding enqueue_all
retry_all_failed m =
    let (queue, retried) = enqueue_all (map (λ e. reset e.1) m.dead_letter) (m.queue, 0) in
    (record m { queue = queue; dead_letter = [] }, retried)

-- `CancelJobRequest`
unfoldable pub cancel_job : JobId → JobAgent → JobAgent × Bool
cancel_job id m =
    let (queue, removed) = Queue.remove id m.queue in
    if is_some removed then (record m { queue = queue }, true) else (
      record m { queue = queue; running = Dict.remove ℕ_discrete id m.running },
      is_some (Dict.lookup ℕ_discrete id m.running),
    )

-- `ClearDeadLetterQueueRequest`
unfoldable pub clear_dead_letter_queue : JobAgent → JobAgent × ℕ
clear_dead_letter_queue m =
    let metrics = m.metrics in
    (
      record m { dead_letter = []; metrics = record metrics { jobs_in_dlq = 0 } },
      length m.dead_letter,
    )

-- `GetJobHistoryRequest`; `none` is a panic.
unfoldable pub job_history : Texts → ℕ → ℕ → Option String → JobAgent → Option JobHistoryPage
job_history t page page_size search_query m =
    History.history_page t page page_size search_query m.history

-- `JobMetrics::record_execution_time`
unfoldable pub record_execution_time : ℕ → JobMetrics → JobMetrics
record_execution_time t m =
    let total = saturating_add64 m.total_execution_time_ms t in
    let least =
      if m.min_execution_time_ms == 0 || ltb t m.min_execution_time_ms
      then t
      else m.min_execution_time_ms in
    let most = if ltb m.max_execution_time_ms t then t else m.max_execution_time_ms in
    let average =
      if ltb 0 m.jobs_completed then total / m.jobs_completed else m.avg_execution_time_ms in
    record m {
      total_execution_time_ms = total;
      min_execution_time_ms = least;
      max_execution_time_ms = most;
      avg_execution_time_ms = average;
      p50_execution_time_ms = average;
      p95_execution_time_ms = add64 average (((most - average) * 75 % 2 ^ 64) / 100);
      p99_execution_time_ms = most;
    }
