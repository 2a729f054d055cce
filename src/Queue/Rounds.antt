-- ===== src/Queue/Rounds.antt =====
-- What a round of the queue leaves alone.
use mai_rust.Common.{
  ℕ, ◌≤◌, leb→le, ◌+◌, ◌≡◌, refl, ◌∙◌, Bool-cases, inl, inr, true, false, List, [], ◌∷◌, keep, take,
  All, ◌==◌, leb, arith,
}
use mai_rust.Common.Text.{lit, eq_text, eq_text_sound}
use mai_rust.Common.Results.{Result, ok, err}
use mai_rust.Queue.Manager.{
  Status, pending, processing, completed, failed, eq_status, DeliveryJob, Job, Services, update_job,
  started, finished, gave_up, retried, try_update, mark_job_completed, mark_job_failed,
  schedule_retry, report_delivery, run_payload, process_job, is_due, due_jobs, process_jobs,
  process_pending_jobs,
}
use mai_rust.Queue.Retry.{IsSort, take-All}

-- A job that waits for delivery and whose time has come.
pub record IsDue (sv : Services) (j : Job) : Type 0 where
  pub waiting : j.status ≡ pending
  pub ours : j.queue ≡ lit "delivery"
  pub time : j.scheduled_at ≤ sv.now

eq_status-pending : (s : Status) → eq_status s pending ≡ true → s ≡ pending
unfolding eq_status
eq_status-pending pending h = refl
eq_status-pending processing h = cc
eq_status-pending completed h = cc
eq_status-pending failed h = cc

is_due-IsDue : (sv : Services) (j : Job) → is_due sv j ≡ true → IsDue sv j
unfolding is_due
is_due-IsDue sv j h = elim (Bool-cases (eq_status j.status pending)) [
  | inr other ↦ cc (rw other at h)
  | inl waiting ↦ elim (Bool-cases (eq_text j.queue (lit "delivery"))) [
    | inr elsewhere ↦ cc (rw (waiting, elsewhere) at h)
    | inl ours ↦ record {
      waiting = eq_status-pending j.status waiting;
      ours = eq_text_sound j.queue (lit "delivery") ours;
      time = leb→le j.scheduled_at sv.now (rw (waiting, ours) at h);
    }
  ]
]

module _ (sv : Services) (x : ℕ) where
  abbrev pub rows_of : List Job → List Job
  rows_of jobs = keep (λ j. j.id == x) jobs

  abbrev IsOther : Job → Type 0
  IsOther j = (j.id == x) ≡ false

  rows_of-update_job :
      (f : Job → Job) (id : ℕ) (jobs : List Job)
      → ((j : Job) → (f j).id ≡ j.id)
      → (id == x) ≡ false
      → rows_of (update_job f id jobs) ≡ rows_of jobs
  unfolding update_job
  rows_of-update_job f id [] same h = refl
  rows_of-update_job f id (j ∷ jobs) same h =
      ground (arith, rows_of-update_job f id jobs same h, same j)

  rows_of-try_update :
      (f : Job → Job) (id : ℕ) (jobs : List Job)
      → ((j : Job) → (f j).id ≡ j.id)
      → (id == x) ≡ false
      → rows_of (try_update sv f id jobs) ≡ rows_of jobs
  unfolding try_update
  rows_of-try_update f id jobs same h = elim (Bool-cases (sv.can_finish id)) [
    | inl done ↦ rw done (rows_of-update_job f id jobs same h)
    | inr lost ↦ rw lost refl
  ]

  rows_of-report_delivery :
      (job : Job) (r : Result (Unit {0})) (jobs : List Job)
      → IsOther job
      → rows_of (report_delivery sv job r jobs) ≡ rows_of jobs
  unfolding report_delivery mark_job_completed mark_job_failed schedule_retry finished gave_up
      retried
  rows_of-report_delivery job (ok u) jobs h = rows_of-try_update _ job.id jobs (λ j. refl) h
  rows_of-report_delivery job (err e) jobs h =
      elim (Bool-cases (leb job.max_attempts (job.attempts + 1))) [
        | inl spent ↦ rw spent (rows_of-try_update _ job.id jobs (λ j. refl) h)
        | inr again ↦ rw again (rows_of-try_update _ job.id jobs (λ j. refl) h)
      ]

  rows_of-run_payload :
      (job : Job) (r : Result DeliveryJob) (jobs : List Job)
      → IsOther job
      → rows_of (run_payload sv job r jobs) ≡ rows_of jobs
  unfolding run_payload mark_job_failed gave_up
  rows_of-run_payload job (ok d) jobs h = rows_of-report_delivery job _ jobs h
  rows_of-run_payload job (err e) jobs h = rows_of-try_update _ job.id jobs (λ j. refl) h

  rows_of-process_job :
      (job : Job) (jobs : List Job) → IsOther job → rows_of (process_job sv job jobs) ≡ rows_of jobs
  unfolding process_job started
  rows_of-process_job job jobs h = elim (Bool-cases (sv.can_start job.id)) [
    | inr stopped ↦ rw stopped refl
    | inl begun ↦
        rw begun (rows_of-run_payload job _ _ h ∙ rows_of-update_job _ job.id jobs (λ j. refl) h)
  ]

  rows_of-process_jobs :
      (js jobs : List Job) → All IsOther js → rows_of (process_jobs sv js jobs) ≡ rows_of jobs
  unfolding process_jobs
  rows_of-process_jobs [] jobs h = refl
  rows_of-process_jobs (j ∷ js) jobs (p, h) =
      rows_of-process_jobs js (process_job sv j jobs) h ∙ rows_of-process_job j jobs p

  due-IsOther :
      (jobs : List Job)
      → All (λ j. IsDue sv j → IsOther j) jobs
      → All IsOther (keep (is_due sv) jobs)
  due-IsOther [] h = tt
  due-IsOther (j ∷ jobs) (p, h) = elim (Bool-cases (is_due sv j)) [
    | inl due ↦ rw due (p (is_due-IsDue sv j due), due-IsOther jobs h)
    | inr idle ↦ rw idle (due-IsOther jobs h)
  ]

  -- A round of the queue leaves alone what is not due: if no row with an identifier has at once the
  -- status `pending`, the queue `delivery` and a time that has come, the rows with it are the same
  -- after the round, whatever their status, provided that ORDER BY lists no rows but those selected.
  pub process_pending_jobs-rows_of :
      (jobs : List Job)
      → IsSort sv
      → All (λ j. IsDue sv j → IsOther j) jobs
      → rows_of (process_pending_jobs sv jobs) ≡ rows_of jobs
  unfolding process_pending_jobs due_jobs
  process_pending_jobs-rows_of jobs sort h =
      rows_of-process_jobs (take 10 (sv.by_scheduled_at (keep (is_due sv) jobs))) jobs
        (take-All sv IsOther 10 _ (sort IsOther _ (due-IsOther jobs h)))
