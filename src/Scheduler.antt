-- ===== src/Scheduler.antt =====
-- internal/scheduler/scheduler.go: one cron entry for each job key.
pub mod Laws
pub mod Api
use docker_backup.Base.{
  ℕ, Bool, true, false, Option, none, some, List, [], ◌∷◌, map, ◌≡◌, ◌≢◌, arith, length, nat_eq,
  if◌then◌else◌, Text, Error, Result, ok, err,
}
use docker_backup.Base.Map.{Map, get, put, remove, has}

-- What the program uses of github.com/robfig/cron: a store of entries under numbers that it hands
-- out. `entry` is the schedule and the function of a live entry, `next` its next run.
pub record Cron (Job : Type 0) : Type 1 where
  pub State : Type 0
  pub add_func : Text → Job → State → Result ℕ × State
  pub remove_entry : ℕ → State → State
  pub entry : ℕ → State → Option (Text × Job)
  pub next : ℕ → State → ℕ
  pub accepts : Text → Bool

-- What it documents: a schedule that its parser rejects adds nothing, any other adds one entry
-- under a number that no live entry has, and Remove takes away that entry alone.
pub record IsLawful {Job : Type 0} (C : Cron Job) : Type 0 where
  pub added :
      (spec : Text) (job : Job) (s t : C.State) (id : ℕ)
      → C.add_func spec job s ≡ (ok id, t)
      → (C.accepts spec ≡ true)
        × (C.entry id s ≡ none)
        × ((j : ℕ) → C.entry j t ≡ (if nat_eq id j then some (spec, job) else C.entry j s))
  pub refused :
      (spec : Text) (job : Job) (s t : C.State) (e : Error)
      → C.add_func spec job s ≡ (err e, t)
      → (C.accepts spec ≡ false) × ((j : ℕ) → C.entry j t ≡ C.entry j s)
  pub removed :
      (id j : ℕ) (s : C.State)
      → C.entry j (C.remove_entry id s) ≡ (if nat_eq id j then none else C.entry j s)

module _ {Job : Type 0} (C : Cron Job) where
  pub record Scheduler : Type 0 where
    pub cron : C.State
    pub jobs : Map ℕ

  -- The locks are held for the whole of each call, so a call is one step.
  unfoldable pub remove_job : Text → Scheduler → Scheduler
  remove_job key s = elim (get key s.jobs) [
    | none ↦ s
    | some id ↦ record s { cron = C.remove_entry id s.cron; jobs = remove key s.jobs }
  ]

  -- What follows the call of AddFunc in AddJob.
  unfoldable pub record_entry : Text → Map ℕ → Result ℕ × C.State → Result (Unit {0}) × Scheduler
  record_entry key jobs (ok id, cron) = (ok tt, record { cron = cron; jobs = put key id jobs })
  record_entry key jobs (err e, cron) = (err e, record { cron = cron; jobs = jobs })

  unfoldable pub register : Text → Text → Job → Scheduler → Result (Unit {0}) × Scheduler
  unfolding record_entry
  register key spec job s = record_entry key s.jobs (C.add_func spec job s.cron)

  -- An entry that the key has is removed first, also if the new schedule is then refused.
  unfoldable pub add_job : Text → Text → Job → Scheduler → Result (Unit {0}) × Scheduler
  unfolding register remove_job
  add_job key spec job s = register key spec job (remove_job key s)

  unfoldable pub update_job : Text → Text → Job → Scheduler → Result (Unit {0}) × Scheduler
  unfolding add_job
  update_job key spec job s = add_job key spec job s

  unfoldable pub has_job : Text → Scheduler → Bool
  has_job key s = has key s.jobs

  unfoldable pub job_count : Scheduler → ℕ
  job_count s = length s.jobs

  pub record JobInfo : Type 0 where
    pub container_id : Text
    pub next_run : ℕ

  unfoldable pub list_jobs : Scheduler → Map JobInfo
  list_jobs s =
      map (λ (p : Text × ℕ). (p.0, record { container_id = p.0; next_run = C.next p.1 s.cron }))
        s.jobs

  -- What runs for a key: the schedule and the function of its cron entry.
  unfoldable pub scheduled : Text → Scheduler → Option (Text × Job)
  scheduled key s = elim (get key s.jobs) [ none ↦ none | some id ↦ C.entry id s.cron ]
