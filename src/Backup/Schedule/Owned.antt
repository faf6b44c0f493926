-- ===== src/Backup/Schedule/Owned.antt =====
-- scheduleContainer and removeContainer of internal/backup/manager.go: to whom the jobs belong.
use docker_backup.Base.{
  Option, some, List, [], ◌∷◌, ◌≡◌, ◌≢◌, ◌⊎◌, inl, inr, refl, sym, ap, subst, ◌∙◌, arith,
  Bool-cases, Option-cases, Text, ◌==◌, In,
}
use docker_backup.Base.Strings.Laws.{==_iff, ==_refl, ==→eq}
use docker_backup.Base.Map.{Map, get, get-put, get-remove}
use docker_backup.Config.Labels.{BackupConfig, ContainerConfig}
use docker_backup.Scheduler.Api.{Jobs}
use docker_backup.Backup.{BackupType, Env, Job}
use docker_backup.Backup.Schedule.{
  make_job_key, remove_jobs, schedule_backup_config, schedule_all, Manager, forget_jobs, track,
  schedule_container, remove_container,
}
use docker_backup.Backup.Schedule.Keys.{
  keyed, In-keyed, remove_jobs-IsValid, find-remove_jobs, job_of, schedule_cases,
  schedule_backup_config-IsValid,
}

module _ {W : Type 0} (J : Jobs (Job W)) (env : Env W) where
  -- The job runs a configuration that its tracked container has, under its key and schedule.
  pub record Owns (containers : Map ContainerConfig) (k spec : Text) (job : Job W) : Type 0 where
    pub tracked : get job.container_id containers ≡ some job.cfg
    pub listed : In job.backup job.cfg.backups
    pub key_of : k ≡ make_job_key job.container_id job.backup.name
    pub schedule_of : spec ≡ job.backup.schedule
    pub type_of : get job.backup.backup_type env.types ≡ some job.backup_type

  -- Only the entry of the job's own container matters.
  moved :
      {c c' : Map ContainerConfig} {k spec : Text} {job : Job W}
      → Owns c k spec job
      → get job.container_id c' ≡ get job.container_id c
      → Owns c' k spec job
  moved own e = record {
    tracked = e ∙ own.tracked;
    listed = own.listed;
    key_of = own.key_of;
    schedule_of = own.schedule_of;
    type_of = own.type_of;
  }

  of_tracked :
      {c : Map ContainerConfig} {k spec : Text} {job : Job W} (id : Text) (old : ContainerConfig)
      → Owns c k spec job
      → get id c ≡ some old
      → job.container_id ≡ id
      → In job.backup old.backups
  of_tracked {c = c} {job = job} id old own e same =
      let is_old : job.cfg ≡ old = ground (arith, own.tracked, e, same) in
      subst (λ (x : ContainerConfig). In job.backup x.backups) is_old own.listed

  pub record IsOwned (m : Manager J env) : Type 0 where
    pub valid : J.IsValid m.jobs
    pub owned :
        (k spec : Text) (job : Job W)
        → J.find k m.jobs ≡ some (spec, job)
        → Owns m.containers k spec job

  -- Once a container's jobs are forgotten, a job that is left was there and is another container's.
  forgotten :
      (id : Text) (m : Manager J env)
      → IsOwned m
      → (k spec : Text) (job : Job W) → J.find k (forget_jobs J env id m) ≡ some (spec, job)
      → (J.find k m.jobs ≡ some (spec, job)) × (job.container_id ≢ id)
  unfolding forget_jobs
  forgotten id m o k spec job f = elim (Option-cases (get id m.containers)) [
    | inl e ↦
        let kept : J.find k m.jobs ≡ some (spec, job) = ground (arith, e) in
        (kept, λ same. ground (arith, (o.owned k spec job kept).tracked, e, same))
    | inr (old, e) ↦
        let there : J.find k (remove_jobs J env id old.backups m.jobs) ≡ some (spec, job) =
          ground (arith, e) in
        elim (Bool-cases (keyed k id old.backups)) [
          | inl t ↦ ground (arith, find-remove_jobs J env id old.backups m.jobs o.valid k)
          | inr n ↦
              let kept : J.find k m.jobs ≡ some (spec, job) =
                ground (arith, find-remove_jobs J env id old.backups m.jobs o.valid k) in
              let own = o.owned k spec job kept in
              (
                kept,
                λ same. ground (
                  arith,
                  n,
                  In-keyed k id old.backups job.backup (of_tracked id old own e same)
                      (own.key_of ∙ ap (λ (x : Text). make_job_key x job.backup.name) same),
                ),
              )
        ]
  ]

  forget_jobs-IsValid :
      (id : Text) (m : Manager J env) → IsOwned m → J.IsValid (forget_jobs J env id m)
  unfolding forget_jobs
  forget_jobs-IsValid id m o = elim (Option-cases (get id m.containers)) [
    | inl e ↦ subst J.IsValid (ground (arith, e)) o.valid
    | inr (old, e) ↦
        subst J.IsValid (ground (arith, e))
          (remove_jobs-IsValid J env id old.backups m.jobs o.valid)
  ]

  pub track-IsOwned :
      (id : Text) (cfg : ContainerConfig) (m : Manager J env)
      → IsOwned m
      → IsOwned (track J env id cfg m)
  unfolding track
  track-IsOwned id cfg m o = record {
    valid = forget_jobs-IsValid id m o;
    owned = λ k spec job f.
        let (kept, other) = forgotten id m o k spec job f in
        moved (o.owned k spec job kept) (
          ground (arith, get-put id job.container_id cfg m.containers, ==_iff id job.container_id));
  }

  pub remove_container-IsOwned :
      (id : Text) (m : Manager J env) → IsOwned m → IsOwned (remove_container J env id m)
  unfolding remove_container
  remove_container-IsOwned id m o = record {
    valid = forget_jobs-IsValid id m o;
    owned = λ k spec job f.
        let (kept, other) = forgotten id m o k spec job f in
        moved (o.owned k spec job kept)
          (ground (arith, get-remove id job.container_id m.containers, ==_iff id job.container_id));
  }

  fresh :
      (id : Text) (cfg : ContainerConfig) (b : BackupConfig) (t : BackupType W)
      (c : Map ContainerConfig) (k : Text)
      → get id c ≡ some cfg
      → In b cfg.backups
      → get b.backup_type env.types ≡ some t
      → make_job_key id b.name ≡ k
      → Owns c k b.schedule (job_of J env id cfg b t)
  fresh id cfg b t c k g i e same = record {
    tracked = g;
    listed = i;
    key_of = sym same;
    schedule_of = refl;
    type_of = e;
  }

  -- Of a key that has a job after a job was added, it is the added one or the one before.
  added_cases :
      (k' spec' : Text) (new : Job W) (s : J.State)
      → J.IsValid s
      → (k spec : Text) (job : Job W) → J.find k (J.add k' spec' new s).1 ≡ some (spec, job)
      → ((k' ≡ k) × (spec' ≡ spec) × (new ≡ job)) ⊎ (J.find k s ≡ some (spec, job))
  added_cases k' spec' new s v k spec job f = elim (Bool-cases (k' == k)) [
    | inl t ↦ elim (Bool-cases (J.accepts spec')) [
      | inl a ↦
          let same : ◌≡◌ {A = Option (Text × Job W)} (some (spec', new)) (some (spec, job)) =
            ground (arith, J.find-add k' spec' new s v k) in
          inl (==→eq k' k t, ground (arith, same), ground (arith, same))
      | inr n ↦ ground (arith, J.find-add k' spec' new s v k)
    ]
    | inr n ↦ inr (ground (arith, J.find-add k' spec' new s v k))
  ]

  -- A configuration of a tracked container can be scheduled.
  schedule_one-IsOwned :
      (id : Text) (cfg : ContainerConfig) (b : BackupConfig) (m : Manager J env)
      → get id m.containers ≡ some cfg
      → In b cfg.backups
      → IsOwned m
      → IsOwned (record m { jobs = schedule_backup_config J env id cfg b m.jobs })
  schedule_one-IsOwned id cfg b m g i o = record {
    valid = schedule_backup_config-IsValid J env id cfg b m.jobs o.valid;
    owned = λ k spec job f. elim (schedule_cases J env id cfg b m.jobs) [
      | inl e ↦
          moved (o.owned k spec job (subst (λ (x : J.State). J.find k x ≡ some (spec, job)) e f))
            refl
      | inr (t, e, r) ↦
          elim (added_cases (make_job_key id b.name) b.schedule (job_of J env id cfg b t) m.jobs
            o.valid k spec job (subst (λ (x : J.State). J.find k x ≡ some (spec, job)) r f)) [
              | inl (same, is_spec, is_job) ↦
                  subst (λ (x : Job W). Owns m.containers k spec x) is_job
                    (subst (λ (x : Text). Owns m.containers k x (job_of J env id cfg b t)) is_spec
                      (fresh id cfg b t m.containers k g i e same))
              | inr kept ↦ moved (o.owned k spec job kept) refl
            ]
    ];
  }

  schedule_all-IsOwned :
      (id : Text) (cfg : ContainerConfig) (bs : List BackupConfig) (m : Manager J env)
      → get id m.containers ≡ some cfg
      → ((b : BackupConfig) → In b bs → In b cfg.backups)
      → IsOwned m
      → IsOwned (record m { jobs = schedule_all J env id cfg bs m.jobs })
  unfolding schedule_all
  schedule_all-IsOwned id cfg [] m g i o = o
  schedule_all-IsOwned id cfg (b ∷ bs) m g i o =
      schedule_all-IsOwned id cfg bs _ g (λ c at. i c (inr at))
        (schedule_one-IsOwned id cfg b m g (i b (inl refl)) o)

  pub schedule_container-IsOwned :
      (id : Text) (cfg : ContainerConfig) (m : Manager J env)
      → IsOwned m
      → IsOwned (schedule_container J env id cfg m)
  unfolding schedule_container track
  schedule_container-IsOwned id cfg m o =
      schedule_all-IsOwned id cfg cfg.backups (track J env id cfg m) (tracked_now id cfg m)
        (λ b at. at) (track-IsOwned id cfg m o)
    where
      tracked_now :
          (id : Text) (cfg : ContainerConfig) (m : Manager J env)
          → get id (track J env id cfg m).containers ≡ some cfg
      tracked_now id cfg m = ground (arith, get-put id id cfg m.containers, ==_refl id)
