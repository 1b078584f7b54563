-- ===== src/Jobs/History/Tests.antt =====
-- The history on concrete records.
use acton_dx.Prelude.{ℕ, ◌≡◌, true, false, some, none, List, [], ◌∷◌, arith}
use acton_dx.Jobs.History.{JobHistoryRecord, Texts, JobHistoryPage, completed, new, filtered}
use acton_dx.Jobs.History.Buffer.{add_all, add_all-new}
use acton_dx.Jobs.History.Pages.{pages, pages-take}

abbrev job : ℕ → JobHistoryRecord
job id = record {
  id = id;
  job_type = "email";
  status = completed;
  enqueued_at = 0;
  started_at = 1;
  finished_at = 2;
  duration_ms = 0;
  attempts = 1;
  error_message = none;
}

abbrev three : List JobHistoryRecord
three = job 1 ∷ job 2 ∷ job 3 ∷ []

-- Texts that are left as they are, and have only themselves as a part.
abbrev plain : Texts
plain = record { to_lowercase = λ s. s; has = λ s t. true; id_text = λ i. "id" }

add_all-new_example : (add_all three (new 2)).records ≡ job 2 ∷ job 3 ∷ []
add_all-new_example = add_all-new 2 three (omega arith)

pages-take_example :
    pages plain 2 1 none (record { records = three; max_records = 5 }) ≡ some (job 3 ∷ job 2 ∷ [])
unfolding filtered
pages-take_example =
    pages-take plain 2 1 none (record { records = three; max_records = 5 }) (omega arith)

abbrev first_page : JobHistoryPage
first_page = record {
  jobs = three;
  page = 1;
  page_size = 3;
  total_count = 4;
  has_prev = false;
  has_next = true;
}
