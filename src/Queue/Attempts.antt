-- ===== src/Queue/Attempts.antt =====
-- A job is not retried for ever.
use mai_rust.Common.{
  ℕ, ◌≤◌, zero, suc, ◌+◌, ◌≡◌, refl, ap, ◌∙◌, Bool-cases, inl, inr, true, false, some, List, [],
  ◌∷◌, length, if◌then◌else◌, ==_refl, leb, arith,
}
use mai_rust.Common.Text.{Text, lit, eq_text, eq_text_refl}
use mai_rust.Common.Results.{ok, err}
use mai_rust.Queue.Manager.{
  pending, failed, eq_status, DeliveryJob, Job, Services, calculate_backoff, update_job, started,
  gave_up, retried, try_update, mark_job_failed, schedule_retry, deliver_message, report_delivery,
  run_payload, process_job, is_due, due_jobs, process_jobs, process_pending_jobs,
}
use mai_rust.Queue.Retry.{deliver_message-retrieve}
use mai_rust.Queue.Rounds.{IsDue}

-- What holds of the server at every time for a job whose payload parses, whose message cannot be read,
-- and whose updates succeed; ORDER BY lists one row as it is.
pub record IsHopeless (sv : Services) (error : Text) (id : ℕ) (payload : Text) : Type 0 where
  pub delivery : DeliveryJob
  pub parses : sv.from_value payload ≡ ok delivery
  pub unread : sv.retrieve delivery.storage_path ≡ err error
  pub starts : sv.can_start id ≡ true
  pub finishes : sv.can_finish id ≡ true
  pub listed : (j : Job) → sv.by_scheduled_at (j ∷ []) ≡ j ∷ []

-- The rounds of the worker at the times of a list.
unfoldable pub rounds : Services → List ℕ → List Job → List Job
rounds sv [] jobs = jobs
rounds sv (t ∷ ts) jobs = rounds sv ts (process_pending_jobs (record sv { now = t }) jobs)

-- Times from `start` on, each at least four hours, the longest delay, behind the one before.
abbrev pub IsSpaced : ℕ → List ℕ → Type 0
IsSpaced start [] = Unit
IsSpaced start (t ∷ ts) = (start ≤ t) × IsSpaced (t + 14_400) ts

calculate_backoff_le : (n : ℕ) → calculate_backoff n ≤ 14_400
unfolding calculate_backoff
calculate_backoff_le n = ground arith

IsSpaced-mono : (a b : ℕ) (ts : List ℕ) → a ≤ b → IsSpaced b ts → IsSpaced a ts
IsSpaced-mono a b [] le h = tt
IsSpaced-mono a b (t ∷ ts) le h = (omega arith, h.1)

module _ (sv : Services) (error : Text) where
  -- One failing attempt of a row that is due.
  round_fails :
      (t : ℕ) (j : Job)
      → IsHopeless sv error j.id j.payload
      → IsDue (record sv { now = t }) j
      → process_pending_jobs (record sv { now = t }) (j ∷ [])
        ≡ (if leb j.max_attempts (j.attempts + 1)
            then gave_up (record sv { now = t }) error (started (record sv { now = t }) j)
            else retried
                (record sv { now = t })
                (j.attempts + 1)
                error
                (calculate_backoff (j.attempts + 1))
                (started (record sv { now = t }) j))
          ∷ []
  unfolding process_pending_jobs due_jobs process_jobs is_due eq_status process_job run_payload
      report_delivery mark_job_failed schedule_retry try_update update_job started gave_up retried
  round_fails t j h due =
      let failing : deliver_message (record sv { now = t }) h.delivery ≡ err error =
        deliver_message-retrieve (record sv { now = t }) h.delivery ∙ rw h.unread refl in
      let queue : eq_text j.queue (lit "delivery") ≡ true =
        rw due.ours (eq_text_refl (lit "delivery")) in
      let time : leb j.scheduled_at t ≡ true = let le = due.time in ground arith in
      elim (Bool-cases (leb j.max_attempts (j.attempts + 1))) [
        | inl spent ↦
            simp
              (
                due.waiting,
                queue,
                time,
                h.listed j,
                h.starts,
                h.parses,
                failing,
                spent,
                h.finishes,
                ==_refl j.id,
              )
              refl
        | inr again ↦
            simp
              (
                due.waiting,
                queue,
                time,
                h.listed j,
                h.starts,
                h.parses,
                failing,
                again,
                h.finishes,
                ==_refl j.id,
              )
              refl
      ]

  -- Delivery is not tried for ever: a job that is alone in the table, pending in the delivery queue,
  -- whose payload parses, whose message cannot be read, and whose updates succeed, is fetched by every
  -- one of the worker's rounds, if the first comes at the job's time or later and each next one at
  -- least four hours behind the one before; with `n + 1` attempts left, it is failed after `n + 1`
  -- rounds, shows the error, and has counted `n` more attempts.
  pub rounds-gives_up :
      (n : ℕ) (ts : List ℕ) (j : Job)
      → IsHopeless sv error j.id j.payload
      → j.status ≡ pending
      → j.queue ≡ lit "delivery"
      → IsSpaced j.scheduled_at ts
      → length ts ≡ suc n
      → j.attempts + suc n ≡ j.max_attempts
      → (row : Job) × (rounds sv ts (j ∷ []) ≡ row ∷ [])
        × (row.status ≡ failed)
        × (row.last_error ≡ some error)
        × (row.attempts ≡ j.attempts + n)
  unfolding rounds gave_up started retried
  rounds-gives_up n [] j h waiting ours spaced l e = absurd (omega arith)
  rounds-gives_up zero (t ∷ u ∷ ts) j h waiting ours spaced l e = absurd (omega arith)
  rounds-gives_up zero (t ∷ []) j h waiting ours spaced l e =
      let last : leb j.max_attempts (j.attempts + 1) ≡ true = ground arith in
      let failing =
        round_fails t j h (record { waiting = waiting; ours = ours; time = spaced.0 }) in
      (
        gave_up (record sv { now = t }) error (started (record sv { now = t }) j),
        failing ∙ rw last refl,
        refl,
        refl,
        omega arith,
      )
  rounds-gives_up (suc n) (t ∷ ts) j h waiting ours spaced l e =
      let more : leb j.max_attempts (j.attempts + 1) ≡ false = ground arith in
      let failing =
        round_fails t j h (record { waiting = waiting; ours = ours; time = spaced.0 }) in
      let k =
        retried (record sv { now = t }) (j.attempts + 1) error (calculate_backoff (j.attempts + 1))
          (started (record sv { now = t }) j) in
      let next : process_pending_jobs (record sv { now = t }) (j ∷ []) ≡ k ∷ [] =
        failing ∙ rw more refl in
      let delay = calculate_backoff_le (j.attempts + 1) in
      let (row, a, b, c, d) =
        rounds-gives_up n ts k h refl ours
          (IsSpaced-mono (t + calculate_backoff (j.attempts + 1)) (t + 14_400) ts (omega arith)
            spaced.1)
          (omega arith) (omega arith) in
      (row, ap (rounds sv ts) next ∙ a, b, c, d ∙ omega arith)
