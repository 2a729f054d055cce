-- ===== src/Queue/Examples.antt =====
-- A queue of three jobs, and the theorems of the queue's modules at inputs that meet their
-- hypotheses.
use mai_rust.Common.{ℕ, ◌≡◌, refl, true, some, List, [], ◌∷◌, All, if◌then◌else◌, arith, map}
use mai_rust.Common.Text.{lit, eq_text}
use mai_rust.Common.Results.{ok, err}
use mai_rust.Queue.Manager.{
  completed, failed, eq_status, DeliveryJob, Job, Services, calculate_backoff, new_job, started,
  retried, process_pending_jobs, enqueue_delivery, deliver_message, process_job, process_jobs,
  due_jobs, is_due, run_payload, report_delivery, mark_job_failed, schedule_retry, try_update,
  update_job, gave_up,
}
use mai_rust.Queue.Retry.{IsQueued, process_pending_jobs-IsQueued}
use mai_rust.Queue.Rounds.{rows_of, process_pending_jobs-rows_of}
use mai_rust.Queue.Attempts.{rounds, rounds-gives_up}

abbrev delivery : DeliveryJob
delivery = record {
  message_id = 1;
  tenant_id = 1;
  from = lit "a";
  to = lit "no-domain" ∷ [];
  storage_path = lit "m";
}

-- Messages at the path "m" cannot be read.
abbrev broken : Services
broken = record {
  to_value = λ job. ok (lit "j");
  from_value = λ payload. ok delivery;
  retrieve = λ path. if eq_text path (lit "m") then err (lit "gone") else ok [];
  mx_lookup = λ domain. err (lit "no answer");
  by_scheduled_at = λ jobs. jobs;
  can_insert = true;
  can_start = λ id. true;
  can_finish = λ id. true;
  now = 1000;
}

abbrev job : ℕ → Job
job id = new_job broken id (lit "j")

abbrev jobs : List Job
jobs = job 1 ∷ record (job 2) { status = completed } ∷ record (job 3) { scheduled_at = 2000 } ∷ []

opened : Unit {0}
unfolding process_pending_jobs process_jobs process_job due_jobs is_due run_payload report_delivery
    deliver_message mark_job_failed schedule_retry try_update update_job started retried gave_up
    new_job eq_status eq_text lit calculate_backoff
opened = tt

-- The first job is due and fails; it is tried again after two minutes.
first_round : map (λ j. j.scheduled_at) (process_pending_jobs broken jobs) ≡ 1120 ∷ 1000 ∷ 2000 ∷ []
unfolding opened
first_round = refl

jobs-IsQueued : All IsQueued jobs
unfolding opened
jobs-IsQueued = (
  (record { five = refl; left = λ e. omega arith }),
  (
    (record { five = refl; left = λ e. omega arith }),
    ((record { five = refl; left = λ e. omega arith }), tt),
  ),
)

process_pending_jobs-IsQueued_example :
    All IsQueued (process_pending_jobs broken jobs)
    × All IsQueued (enqueue_delivery broken 4 delivery jobs).1
process_pending_jobs-IsQueued_example =
    process_pending_jobs-IsQueued broken jobs 4 delivery (λ P js h. h) jobs-IsQueued

process_pending_jobs-rows_of_example :
    rows_of broken 2 (process_pending_jobs broken jobs) ≡ rows_of broken 2 jobs
unfolding opened
process_pending_jobs-rows_of_example =
    process_pending_jobs-rows_of broken 2 jobs (λ P js h. h)
      ((λ e. refl), ((λ due. let completed_is = due.waiting in cc), ((λ e. refl), tt)))

-- The job is tried at five times, four hours from each other.
abbrev times : List ℕ
times = 1000 ∷ 15_400 ∷ 29_800 ∷ 44_200 ∷ 58_600 ∷ []

rounds-gives_up_example :
    (row : Job) × (rounds broken times (job 1 ∷ []) ≡ row ∷ [])
    × (row.status ≡ failed)
    × (row.last_error ≡ some (lit "gone"))
    × (row.attempts ≡ 4)
unfolding opened
rounds-gives_up_example =
    rounds-gives_up broken (lit "gone") 4 times (job 1)
      (record {
        delivery = delivery;
        parses = refl;
        unread = refl;
        starts = refl;
        finishes = refl;
        listed = λ j. refl;
      })
      refl refl (omega arith) refl refl
