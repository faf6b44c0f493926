-- ===== src/Scheduler/Api.antt =====
-- What the backup manager uses of the scheduler: a map from job keys to what runs for them. The
-- scheduler over any lawful cron fills it in.
use docker_backup.Base.{Bool, Option, none, some, ◌≡◌, if◌then◌else◌, Text, ◌==◌, Result}
use docker_backup.Scheduler.{Cron, IsLawful, Scheduler, remove_job, add_job, scheduled}
use docker_backup.Scheduler.Laws.{
  IsConsistent, remove_job-IsConsistent, scheduled-remove_job, add_job-IsConsistent,
  scheduled-add_job,
}

pub record Jobs (Job : Type 0) : Type 1 where
  pub State : Type 0
  pub IsValid : State → Type 0
  pub add : Text → Text → Job → State → Result (Unit {0}) × State
  pub remove : Text → State → State
  pub find : Text → State → Option (Text × Job)
  pub accepts : Text → Bool
  pub add-IsValid :
      (k spec : Text) (job : Job) (s : State) → IsValid s → IsValid (add k spec job s).1
  pub remove-IsValid : (k : Text) (s : State) → IsValid s → IsValid (remove k s)
  pub find-add :
      (k spec : Text) (job : Job) (s : State)
      → IsValid s
      → (j : Text)
      → find j (add k spec job s).1
        ≡ (if k == j then (if accepts spec then some (spec, job) else none) else find j s)
  pub find-remove :
      (k : Text) (s : State)
      → IsValid s
      → (j : Text) → find j (remove k s) ≡ (if k == j then none else find j s)

-- The scheduler of internal/scheduler as such a map.
abbrev pub scheduler_jobs : {Job : Type 0} (C : Cron Job) → IsLawful C → Jobs Job
scheduler_jobs C L = record {
  State = Scheduler C;
  IsValid = IsConsistent C;
  add = add_job C;
  remove = remove_job C;
  find = scheduled C;
  accepts = C.accepts;
  add-IsValid = λ k spec job s v. add_job-IsConsistent C L s v k spec job;
  remove-IsValid = λ k s v. remove_job-IsConsistent C L s v k;
  find-add = λ k spec job s v. scheduled-add_job C L s v k spec job;
  find-remove = λ k s v. scheduled-remove_job C L s v k;
}
