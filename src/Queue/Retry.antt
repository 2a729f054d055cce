-- ===== src/Queue/Retry.antt =====
-- Attempts, backoff, and which jobs a round of the queue touches.
use Prim.Native.Nat.pow
use mai_rust.Common.{
  ℕ, zero, suc, ◌+◌, ◌*◌, ◌^◌, ◌≤◌, ◌<◌, min, ◌≡◌, refl, ap, ◌∙◌, Bool, Bool-cases, inl, inr, List,
  [], ◌∷◌, keep, take, All, All-append, ◌==◌, leb, arith,
}
use mai_rust.Common.Text.{Text}
use mai_rust.Common.Results.{Result, ok, err, ◌>>=◌, Result-cases}
use mai_rust.Queue.Manager.{
  pending, DeliveryJob, Job, Services, calculate_backoff, update_job, new_job, insert_job, inserted,
  enqueue_delivery, started, finished, gave_up, retried, try_update, mark_job_completed,
  mark_job_failed, schedule_retry, resolve_mx, hosts_of, deliver_to_domain, deliver_domains,
  domains_from, deliver_message, report_delivery, run_payload, process_job, is_due, due_jobs,
  process_jobs, process_pending_jobs,
}

pow_positive : (a : ℕ) → 1 ≤ 2 ^ a
pow_positive zero = omega arith
pow_positive (suc a) =
    let twice : 2 ^ suc a ≡ 2 ^ a * 2 = pow.suc 2 a in omega (arith, pow_positive a)

-- The first retry waits two minutes, each further one twice as long, and none longer than four
-- hours.
pub calculate_backoff-doubles :
    (a : ℕ)
    → (calculate_backoff 1 ≡ 120)
      × (calculate_backoff (suc a) ≡ min (2 * calculate_backoff a) 14400)
      × (60 ≤ calculate_backoff a)
      × (calculate_backoff a ≤ 14400)
unfolding calculate_backoff
calculate_backoff-doubles a =
    let twice : 2 ^ suc a ≡ 2 ^ a * 2 = pow.suc 2 a in
    let positive = pow_positive a in (refl, omega arith, omega arith, omega arith)

-- What holds of every row: a pending job has attempts left.
pub record IsQueued (j : Job) : Type 0 where
  pub five : j.max_attempts ≡ 5
  pub left : j.status ≡ pending → j.attempts < 5

abbrev IsKept : (Job → Job) → Type 0
IsKept f = (j : Job) → IsQueued j → IsQueued (f j)

update_job-IsQueued :
    (f : Job → Job) (id : ℕ) (jobs : List Job)
    → IsKept f
    → All IsQueued jobs
    → All IsQueued (update_job f id jobs)
unfolding update_job
update_job-IsQueued f id [] k h = tt
update_job-IsQueued f id (j ∷ jobs) k (p, h) = elim (Bool-cases (j.id == id)) [
  | inl this ↦ rw this (k j p, update_job-IsQueued f id jobs k h)
  | inr other ↦ rw other (p, update_job-IsQueued f id jobs k h)
]

module _ (sv : Services) where
  started-IsQueued : IsKept (started sv)
  unfolding started
  started-IsQueued j q = record { five = q.five; left = λ e. cc }

  finished-IsQueued : IsKept (finished sv)
  unfolding finished
  finished-IsQueued j q = record { five = q.five; left = λ e. cc }

  gave_up-IsQueued : (error : Text) → IsKept (gave_up sv error)
  unfolding gave_up
  gave_up-IsQueued error j q = record { five = q.five; left = λ e. cc }

  retried-IsQueued :
      (attempts : ℕ) (error : Text) (delay : ℕ)
      → attempts < 5
      → IsKept (retried sv attempts error delay)
  unfolding retried
  retried-IsQueued attempts error delay h j q = record { five = q.five; left = λ e. h }

  try_update-IsQueued :
      (f : Job → Job) (id : ℕ) (jobs : List Job)
      → IsKept f
      → All IsQueued jobs
      → All IsQueued (try_update sv f id jobs)
  unfolding try_update
  try_update-IsQueued f id jobs k h = elim (Bool-cases (sv.can_finish id)) [
    | inl done ↦ rw done (update_job-IsQueued f id jobs k h)
    | inr lost ↦ rw lost h
  ]

  report_delivery-IsQueued :
      (job : Job) (r : Result (Unit {0})) (jobs : List Job)
      → IsQueued job
      → All IsQueued jobs
      → All IsQueued (report_delivery sv job r jobs)
  unfolding report_delivery mark_job_completed mark_job_failed schedule_retry
  report_delivery-IsQueued job (ok u) jobs q h =
      try_update-IsQueued (finished sv) job.id jobs finished-IsQueued h
  report_delivery-IsQueued job (err e) jobs q h =
      elim (Bool-cases (leb job.max_attempts (job.attempts + 1))) [
        | inl spent ↦
            rw spent (try_update-IsQueued (gave_up sv e) job.id jobs (gave_up-IsQueued e) h)
        | inr again ↦
            let five = q.five in
            rw again (try_update-IsQueued _ job.id jobs (retried-IsQueued _ e _ (ground arith)) h)
      ]

  run_payload-IsQueued :
      (job : Job) (r : Result DeliveryJob) (jobs : List Job)
      → IsQueued job
      → All IsQueued jobs
      → All IsQueued (run_payload sv job r jobs)
  unfolding run_payload mark_job_failed
  run_payload-IsQueued job (ok d) jobs q h = report_delivery-IsQueued job _ jobs q h
  run_payload-IsQueued job (err e) jobs q h =
      try_update-IsQueued (gave_up sv e) job.id jobs (gave_up-IsQueued e) h

  process_job-IsQueued :
      (job : Job) (jobs : List Job)
      → IsQueued job
      → All IsQueued jobs
      → All IsQueued (process_job sv job jobs)
  unfolding process_job
  process_job-IsQueued job jobs q h = elim (Bool-cases (sv.can_start job.id)) [
    | inr stopped ↦ rw stopped h
    | inl started_ ↦ rw started_ (
        run_payload-IsQueued job _ _ q
          (update_job-IsQueued (started sv) job.id jobs started-IsQueued h))
  ]

  process_jobs-IsQueued :
      (js jobs : List Job)
      → All IsQueued js
      → All IsQueued jobs
      → All IsQueued (process_jobs sv js jobs)
  unfolding process_jobs
  process_jobs-IsQueued [] jobs hs h = h
  process_jobs-IsQueued (j ∷ js) jobs (q, hs) h =
      process_jobs-IsQueued js (process_job sv j jobs) hs (process_job-IsQueued j jobs q h)

  pub take-All : (P : Job → Type 0) (n : ℕ) (js : List Job) → All P js → All P (take n js)
  take-All P zero js h = tt
  take-All P (suc n) [] h = tt
  take-All P (suc n) (j ∷ js) (p, h) = (p, take-All P n js h)

  keep-All : (P : Job → Type 0) (p : Job → Bool) (js : List Job) → All P js → All P (keep p js)
  keep-All P p [] h = tt
  keep-All P p (j ∷ js) (q, h) = elim (Bool-cases (p j)) [
    | inl kept ↦ rw kept (q, keep-All P p js h)
    | inr left ↦ rw left (keep-All P p js h)
  ]

  -- ORDER BY lists no rows but those selected.
  abbrev pub IsSort : Type 1
  IsSort = (P : Job → Type 0) (js : List Job) → All P js → All P (sv.by_scheduled_at js)

  -- A round of the queue and the enqueueing of a delivery keep the rows in order: every job has five
  -- attempts, and one that is pending has some of them left, whatever the deliveries meet, provided
  -- that ORDER BY lists no rows but those selected.
  pub process_pending_jobs-IsQueued :
      (jobs : List Job) (id : ℕ) (job : DeliveryJob)
      → IsSort
      → All IsQueued jobs
      → All IsQueued (process_pending_jobs sv jobs)
        × All IsQueued (enqueue_delivery sv id job jobs).1
  unfolding process_pending_jobs due_jobs enqueue_delivery inserted insert_job new_job
  process_pending_jobs-IsQueued jobs id job sort h = (
    process_jobs-IsQueued (take 10 (sv.by_scheduled_at (keep (is_due sv) jobs))) jobs
        (take-All IsQueued 10 _ (sort IsQueued _ (keep-All IsQueued (is_due sv) jobs h))) h,
    (enqueued (sv.to_value job)),
  )
    where
      enqueued : (r : Result Text) → All IsQueued (inserted sv id jobs r).1
      enqueued (err e) = h
      enqueued (ok payload) = elim (Bool-cases sv.can_insert) [
        | inr lost ↦ simp lost h
        | inl done ↦ simp done (
            All-append IsQueued jobs (new_job sv id payload ∷ []) h
              ((record { five = refl; left = λ e. omega arith }), tt))
      ]

  hosts_of-ok :
      (d : Text) (r : Result (List (ℕ × Text)))
      → let done : Result (Unit {0}) = hosts_of sv d r >>= λ hosts. ok tt in done ≡ ok tt
  unfolding hosts_of
  hosts_of-ok d (ok hosts) = refl
  hosts_of-ok d (err e) = refl

  deliver_domains-ok : (ds : List Text) → deliver_domains sv ds ≡ ok tt
  unfolding deliver_domains deliver_to_domain resolve_mx
  deliver_domains-ok [] = refl
  deliver_domains-ok (d ∷ ds) =
      ap (λ (r : Result (Unit {0})). r >>= λ _. deliver_domains sv ds)
        (hosts_of-ok d (sv.mx_lookup d))
      ∙ deliver_domains-ok ds

  -- A delivery succeeds exactly if the stored message can be read: whatever its recipients are, with
  -- a domain or without, and whatever DNS answers.
  pub deliver_message-retrieve :
      (job : DeliveryJob)
      → deliver_message sv job ≡ (sv.retrieve job.storage_path >>= λ data_. ok tt)
  unfolding deliver_message
  deliver_message-retrieve job = elim (Result-cases (sv.retrieve job.storage_path)) [
    | inl (bytes, e) ↦ rw e (deliver_domains-ok (domains_from sv [] job.to))
    | inr (x, e) ↦ rw e refl
  ]
