-- ===== src/Queue/Manager.antt =====
-- `QueueManager` (queue/manager.rs) on the rows of the table `jobs`. Its statuses are the four that
-- the code writes; times are in seconds.
use mai_rust.Common.{
  ℕ, ◌+◌, ◌*◌, ◌^◌, min, ◌++◌, Bool, true, false, ◌&&◌, Option, none, some, List, [], ◌∷◌, map,
  keep, take, length, if◌then◌else◌, ◌==◌, leb,
}
use mai_rust.Common.Text.{Text, Bytes, lit, eq_text, split_once}
use mai_rust.Common.Results.{Result, ok, err, ◌>>=◌}

pub data Status : Type 0 where
  pending processing completed failed : Status

unfoldable pub eq_status : Status → Status → Bool
eq_status pending pending = true
eq_status processing processing = true
eq_status completed completed = true
eq_status failed failed = true
eq_status _ _ = false

pub record DeliveryJob : Type 0 where
  pub message_id : ℕ
  pub tenant_id : ℕ
  pub from : Text
  pub to : List Text
  pub storage_path : Text

pub record Job : Type 0 where
  pub id : ℕ
  pub queue : Text
  pub payload : Text
  pub status : Status
  pub attempts : ℕ
  pub max_attempts : ℕ
  pub last_error : Option Text
  pub scheduled_at : ℕ
  pub started_at : Option ℕ
  pub completed_at : Option ℕ
  pub created_at : ℕ

-- Outside the source: JSON, the file storage, DNS, the order of ORDER BY, whether an update of a
-- row succeeds, and the clock.
pub record Services : Type 0 where
  pub to_value : DeliveryJob → Result Text
  pub from_value : Text → Result DeliveryJob
  pub retrieve : Text → Result Bytes
  pub mx_lookup : Text → Result (List (ℕ × Text))
  pub by_scheduled_at : List Job → List Job
  pub can_insert : Bool
  pub can_start : ℕ → Bool
  pub can_finish : ℕ → Bool
  pub now : ℕ

-- Minutes, in seconds. `attempts` is below `max_attempts`, so the power does not overflow.
unfoldable pub calculate_backoff : ℕ → ℕ
calculate_backoff attempts = min (2 ^ attempts) 240 * 60

-- `UPDATE jobs … WHERE id = $1`.
unfoldable pub update_job : (Job → Job) → ℕ → List Job → List Job
update_job f id jobs = map (λ j. if j.id == id then f j else j) jobs

module _ (sv : Services) where
  unfoldable pub new_job : ℕ → Text → Job
  new_job id payload = record {
    id = id;
    queue = lit "delivery";
    payload = payload;
    status = pending;
    attempts = 0;
    max_attempts = 5;
    last_error = none;
    scheduled_at = sv.now;
    started_at = none;
    completed_at = none;
    created_at = sv.now;
  }

  unfoldable pub insert_job : ℕ → List Job → Text → Result ℕ × List Job
  unfolding new_job
  insert_job id jobs payload =
      if sv.can_insert
      then (ok id, jobs ++ new_job id payload ∷ [])
      else (err (lit "insert failed"), jobs)

  unfoldable pub inserted : ℕ → List Job → Result Text → Result ℕ × List Job
  unfolding insert_job
  inserted id jobs (ok payload) = insert_job id jobs payload
  inserted id jobs (err e) = (err e, jobs)

  -- `id` is the identifier that `now_v7` generates.
  unfoldable pub enqueue_delivery : ℕ → DeliveryJob → List Job → Result ℕ × List Job
  unfolding inserted
  enqueue_delivery id job jobs = inserted id jobs (sv.to_value job)

  unfoldable pub started : Job → Job
  started j = record j { status = processing; started_at = some sv.now }

  unfoldable pub finished : Job → Job
  finished j = record j { status = completed; completed_at = some sv.now }

  unfoldable pub gave_up : Text → Job → Job
  gave_up error j = record j {
    status = failed;
    last_error = some error;
    completed_at = some sv.now;
  }

  unfoldable pub retried : ℕ → Text → ℕ → Job → Job
  retried attempts error delay j = record j {
    status = pending;
    attempts = attempts;
    last_error = some error;
    scheduled_at = sv.now + delay;
  }

  -- An update whose failure is ignored.
  unfoldable pub try_update : (Job → Job) → ℕ → List Job → List Job
  unfolding update_job
  try_update f id jobs = if sv.can_finish id then update_job f id jobs else jobs

  unfoldable pub mark_job_completed : ℕ → List Job → List Job
  unfolding try_update finished
  mark_job_completed id jobs = try_update finished id jobs

  unfoldable pub mark_job_failed : ℕ → Text → List Job → List Job
  unfolding try_update gave_up
  mark_job_failed id error jobs = try_update (gave_up error) id jobs

  unfoldable pub schedule_retry : ℕ → ℕ → Text → ℕ → List Job → List Job
  unfolding try_update retried
  schedule_retry id attempts error delay jobs = try_update (retried attempts error delay) id jobs

  -- `sort_by_key` on the preferences, which is stable.
  unfoldable pub insert_host : ℕ × Text → List (ℕ × Text) → List (ℕ × Text)
  insert_host h [] = h ∷ []
  insert_host h (k ∷ ks) =
      let rest = insert_host h ks in if leb h.0 k.0 then h ∷ k ∷ ks else k ∷ rest

  unfoldable pub sort_hosts : List (ℕ × Text) → List (ℕ × Text)
  unfolding insert_host
  sort_hosts [] = []
  sort_hosts (h ∷ hs) = insert_host h (sort_hosts hs)

  -- Without MX records, the domain itself.
  unfoldable pub hosts_of : Text → Result (List (ℕ × Text)) → Result (List Text)
  unfolding sort_hosts
  hosts_of domain (ok hosts) = ok (map (λ h. h.1) (sort_hosts hosts))
  hosts_of domain (err e) = ok (domain ∷ [])

  unfoldable pub resolve_mx : Text → Result (List Text)
  unfolding hosts_of
  resolve_mx domain = hosts_of domain (sv.mx_lookup domain)

  unfoldable pub deliver_to_domain : Text → Result (Unit {0})
  unfolding resolve_mx
  deliver_to_domain domain = resolve_mx domain >>= λ hosts. ok tt

  -- The part between the first and the second `@`, for each recipient that has an `@`; the map by
  -- domain has each of them once.
  unfoldable pub domain_of : Text × Option Text → Option Text
  domain_of (local, none) = none
  domain_of (local, some rest) = some (split_once b'@' rest).0

  unfoldable pub has_domain : Text → List Text → Bool
  has_domain d [] = false
  has_domain d (e ∷ es) = let rest = has_domain d es in if eq_text d e then true else rest

  unfoldable pub add_domain : Option Text → List Text → List Text
  unfolding has_domain
  add_domain none ds = ds
  add_domain (some d) ds = if has_domain d ds then ds else ds ++ d ∷ []

  unfoldable pub domains_from : List Text → List Text → List Text
  unfolding add_domain domain_of
  domains_from ds [] = ds
  domains_from ds (r ∷ rs) = domains_from (add_domain (domain_of (split_once b'@' r)) ds) rs

  unfoldable pub deliver_domains : List Text → Result (Unit {0})
  unfolding deliver_to_domain
  deliver_domains [] = ok tt
  deliver_domains (d ∷ ds) = deliver_to_domain d >>= λ _. deliver_domains ds

  unfoldable pub deliver_message : DeliveryJob → Result (Unit {0})
  unfolding deliver_domains domains_from
  deliver_message job =
      sv.retrieve job.storage_path >>= λ _. deliver_domains (domains_from [] job.to)

  -- The match on the result of the delivery.
  unfoldable pub report_delivery : Job → Result (Unit {0}) → List Job → List Job
  unfolding mark_job_completed mark_job_failed schedule_retry
  report_delivery job (ok _) jobs = mark_job_completed job.id jobs
  report_delivery job (err e) jobs =
      let attempts = job.attempts + 1 in
      if leb job.max_attempts attempts
      then mark_job_failed job.id e jobs
      else schedule_retry job.id attempts e (calculate_backoff attempts) jobs

  unfoldable pub run_payload : Job → Result DeliveryJob → List Job → List Job
  unfolding report_delivery
  run_payload job (err e) jobs = mark_job_failed job.id e jobs
  run_payload job (ok delivery_job) jobs = report_delivery job (deliver_message delivery_job) jobs

  unfoldable pub process_job : Job → List Job → List Job
  unfolding run_payload started
  process_job job jobs =
      if sv.can_start job.id
      then run_payload job (sv.from_value job.payload) (update_job started job.id jobs)
      else jobs

  -- The query for at most ten due jobs.
  unfoldable pub is_due : Job → Bool
  is_due j =
      eq_status j.status pending && eq_text j.queue (lit "delivery") && leb j.scheduled_at sv.now

  unfoldable pub due_jobs : List Job → List Job
  unfolding is_due
  due_jobs jobs = take 10 (sv.by_scheduled_at (keep is_due jobs))

  unfoldable pub process_jobs : List Job → List Job → List Job
  unfolding process_job
  process_jobs [] jobs = jobs
  process_jobs (j ∷ js) jobs = process_jobs js (process_job j jobs)

  unfoldable pub process_pending_jobs : List Job → List Job
  unfolding process_jobs due_jobs
  process_pending_jobs jobs = process_jobs (due_jobs jobs) jobs

pub record QueueStats : Type 0 where
  pub pending_count : ℕ
  pub processing_count : ℕ
  pub failed_count : ℕ

unfoldable pub count_status : Status → List Job → ℕ
unfolding eq_status
count_status s jobs =
    length (keep (λ j. eq_status j.status s && eq_text j.queue (lit "delivery")) jobs)

unfoldable pub get_stats : List Job → QueueStats
unfolding count_status
get_stats jobs = record {
  pending_count = count_status pending jobs;
  processing_count = count_status processing jobs;
  failed_count = count_status failed jobs;
}
