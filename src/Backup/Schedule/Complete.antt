-- ===== src/Backup/Schedule/Complete.antt =====
-- scheduleContainer and removeContainer of internal/backup/manager.go: which configurations have
-- their jobs.
use docker_backup.Base.{
  false, some, List, [], ◌∷◌, ◌≡◌, ◌≢◌, ◌⊎◌, inl, inr, refl, sym, ap, subst, ◌∙◌, arith, Bool-cases,
  Option-cases, Text, ◌==◌, colon, contains, All, In, In-All,
}
use docker_backup.Base.Strings.Laws.{==_iff, ==_refl, ==→eq}
use docker_backup.Base.Map.{Map, get, put, remove, get-put, get-remove}
use docker_backup.Config.Labels.{BackupConfig, ContainerConfig}
use docker_backup.Config.Labels.Order.{Distinct}
use docker_backup.Scheduler.Api.{Jobs}
use docker_backup.Backup.{BackupType, Env, Job}
use docker_backup.Backup.Schedule.{
  make_job_key, schedule_backup_config, schedule_all, Manager, forget_jobs, track,
  schedule_container, remove_container,
}
use docker_backup.Backup.Schedule.Keys.{
  make_job_key_injective, keyed, keyed-In, remove_jobs-IsValid, find-remove_jobs, IsSchedulable,
  job_of, schedule_cases, schedule_backup_config-IsValid,
}

-- A key of another container is no key of this one's configurations.
pub keyed_apart :
    (id id' name : Text) (bs : List BackupConfig)
    → contains colon id ≡ false
    → contains colon id' ≡ false
    → id ≢ id'
    → keyed (make_job_key id' name) id bs ≡ false
keyed_apart id id' name bs h h' n = elim (Bool-cases (keyed (make_job_key id' name) id bs)) [
  | inl t ↦
      let (b, m, e) = keyed-In (make_job_key id' name) id bs t in
      absurd (n (make_job_key_injective id id' b.name name h h' e).0)
  | inr f ↦ f
]

module _ {W : Type 0} (J : Jobs (Job W)) (env : Env W) where
  -- Scheduling one configuration touches no other key.
  schedule_one_other :
      (id : Text) (cfg : ContainerConfig) (b : BackupConfig) (s : J.State) (k : Text)
      → J.IsValid s
      → make_job_key id b.name == k ≡ false
      → J.find k (schedule_backup_config J env id cfg b s) ≡ J.find k s
  schedule_one_other id cfg b s k v n = elim (schedule_cases J env id cfg b s) [
    | inl e ↦ ap (J.find k) e
    | inr (t, e, r) ↦
        ap (J.find k) r
        ∙ ground (
          arith,
          n,
          J.find-add (make_job_key id b.name) b.schedule (job_of J env id cfg b t) s v k,
        )
  ]

  schedule_one_own :
      (id : Text) (cfg : ContainerConfig) (b : BackupConfig) (t : BackupType W) (s : J.State)
      → J.IsValid s
      → IsSchedulable J env b t
      → J.find (make_job_key id b.name) (schedule_backup_config J env id cfg b s)
        ≡ some (b.schedule, job_of J env id cfg b t)
  unfolding schedule_backup_config
  schedule_one_own id cfg b t s v c = ground (
    arith,
    c.type_known,
    c.pool_known,
    c.accepted,
    ==_refl (make_job_key id b.name),
    J.find-add (make_job_key id b.name) b.schedule (job_of J env id cfg b t) s v
        (make_job_key id b.name),
  )

  schedule_all_other :
      (id : Text) (cfg : ContainerConfig) (bs : List BackupConfig) (s : J.State) (k : Text)
      → J.IsValid s
      → keyed k id bs ≡ false
      → J.find k (schedule_all J env id cfg bs s) ≡ J.find k s
  unfolding schedule_all
  schedule_all_other id cfg [] s k v n = refl
  schedule_all_other id cfg (b ∷ bs) s k v n =
      schedule_all_other id cfg bs _ k (schedule_backup_config-IsValid J env id cfg b s v)
        (ground arith)
      ∙ schedule_one_other id cfg b s k v (ground arith)

  keyed_later :
      (id : Text) (b : BackupConfig) (bs : List BackupConfig)
      → contains colon id ≡ false
      → All (λ c. b.name ≢ c.name) bs
      → keyed (make_job_key id b.name) id bs ≡ false
  keyed_later id b bs h a = elim (Bool-cases (keyed (make_job_key id b.name) id bs)) [
    | inl t ↦
        let (c, m, e) = keyed-In (make_job_key id b.name) id bs t in
        absurd (
          In-All (λ x. b.name ≢ x.name) c bs a m
            (sym (make_job_key_injective id id c.name b.name h h e).1))
    | inr f ↦ f
  ]

  pub schedule_all_own :
      (id : Text) (cfg : ContainerConfig) (bs : List BackupConfig) (b : BackupConfig)
      (t : BackupType W) (s : J.State)
      → J.IsValid s
      → contains colon id ≡ false
      → Distinct bs
      → In b bs
      → IsSchedulable J env b t
      → J.find (make_job_key id b.name) (schedule_all J env id cfg bs s)
        ≡ some (b.schedule, job_of J env id cfg b t)
  unfolding schedule_all
  schedule_all_own id cfg [] b t s v h d m c = absurd m
  schedule_all_own id cfg (x ∷ bs) b t s v h d (inl e) c =
      subst
        (λ (y : BackupConfig).
          J.find (make_job_key id b.name) (schedule_all J env id cfg (y ∷ bs) s)
          ≡ some (b.schedule, job_of J env id cfg b t))
        e
        (schedule_all_other id cfg bs _ (make_job_key id b.name)
            (schedule_backup_config-IsValid J env id cfg b s v)
            (keyed_later id b bs h
              (subst (λ (y : BackupConfig). All (λ c. y.name ≢ c.name) bs) (sym e) d.0))
          ∙ schedule_one_own id cfg b t s v c)
  schedule_all_own id cfg (x ∷ bs) b t s v h d (inr m) c =
      schedule_all_own id cfg bs b t _ (schedule_backup_config-IsValid J env id cfg x s v) h d.1 m c

  schedule_all-IsValid :
      (id : Text) (cfg : ContainerConfig) (bs : List BackupConfig) (s : J.State)
      → J.IsValid s
      → J.IsValid (schedule_all J env id cfg bs s)
  unfolding schedule_all
  schedule_all-IsValid id cfg [] s v = v
  schedule_all-IsValid id cfg (b ∷ bs) s v =
      schedule_all-IsValid id cfg bs _ (schedule_backup_config-IsValid J env id cfg b s v)

  -- Each configuration of the container that can be scheduled has its job.
  abbrev pub Filled : J.State → Text → ContainerConfig → Type 0
  Filled jobs id cfg =
      (b : BackupConfig)
      → In b cfg.backups
      → (t : BackupType W) → IsSchedulable J env b t
      → J.find (make_job_key id b.name) jobs ≡ some (b.schedule, job_of J env id cfg b t)

  pub record IsComplete (m : Manager J env) : Type 0 where
    pub valid : J.IsValid m.jobs
    pub plain :
        (id : Text) (cfg : ContainerConfig)
        → get id m.containers ≡ some cfg
        → contains colon id ≡ false
    pub distinct :
        (id : Text) (cfg : ContainerConfig) → get id m.containers ≡ some cfg → Distinct cfg.backups
    pub complete :
        (id : Text) (cfg : ContainerConfig) → get id m.containers ≡ some cfg → Filled m.jobs id cfg

  pub forget_jobs-IsValid :
      (id : Text) (m : Manager J env) → J.IsValid m.jobs → J.IsValid (forget_jobs J env id m)
  unfolding forget_jobs
  forget_jobs-IsValid id m v = elim (Option-cases (get id m.containers)) [
    | inl e ↦ subst J.IsValid (ground (arith, e)) v
    | inr (old, e) ↦
        subst J.IsValid (ground (arith, e)) (remove_jobs-IsValid J env id old.backups m.jobs v)
  ]

  forget_jobs_other :
      (id id' name : Text) (m : Manager J env)
      → IsComplete m
      → contains colon id' ≡ false
      → id ≢ id'
      → J.find (make_job_key id' name) (forget_jobs J env id m)
        ≡ J.find (make_job_key id' name) m.jobs
  unfolding forget_jobs
  forget_jobs_other id id' name m c h n = elim (Option-cases (get id m.containers)) [
    | inl e ↦ ground (arith, e)
    | inr (old, e) ↦ ground (
      arith,
      e,
      keyed_apart id id' name old.backups (c.plain id old e) h n,
      find-remove_jobs J env id old.backups m.jobs c.valid (make_job_key id' name),
    )
  ]

  -- The entry of another container after an entry is put in or taken out.
  in_put :
      (id id' : Text) (cfg cfg' : ContainerConfig) (c : Map ContainerConfig)
      → get id' (put id cfg c) ≡ some cfg'
      → ((id ≡ id') × (cfg ≡ cfg')) ⊎ ((id ≢ id') × (get id' c ≡ some cfg'))
  in_put id id' cfg cfg' c g = elim (Bool-cases (id == id')) [
    | inl t ↦ inl (==→eq id id' t, ground (arith, t, get-put id id' cfg c))
    | inr f ↦ inr (ground (arith, ==_iff id id'), ground (arith, f, get-put id id' cfg c))
  ]

  in_remove :
      (id id' : Text) (cfg' : ContainerConfig) (c : Map ContainerConfig)
      → get id' (remove id c) ≡ some cfg'
      → (id ≢ id') × (get id' c ≡ some cfg')
  in_remove id id' cfg' c g =
      (ground (arith, ==_iff id id', get-remove id id' c), ground (arith, get-remove id id' c))

  pub remove_container-IsComplete :
      (id : Text) (m : Manager J env) → IsComplete m → IsComplete (remove_container J env id m)
  unfolding remove_container
  remove_container-IsComplete id m c = record {
    valid = forget_jobs-IsValid id m c.valid;
    plain = λ i cfg g. c.plain i cfg (in_remove id i cfg m.containers g).1;
    distinct = λ i cfg g. c.distinct i cfg (in_remove id i cfg m.containers g).1;
    complete = λ i cfg g b at t can.
        let (n, g') = in_remove id i cfg m.containers g in
        forget_jobs_other id i b.name m c (c.plain i cfg g') n ∙ c.complete i cfg g' b at t can;
  }

  pub schedule_container-IsComplete :
      (id : Text) (cfg : ContainerConfig) (m : Manager J env)
      → contains colon id ≡ false
      → Distinct cfg.backups
      → IsComplete m
      → IsComplete (schedule_container J env id cfg m)
  unfolding schedule_container track
  schedule_container-IsComplete id cfg m h d c = record {
    valid = schedule_all-IsValid id cfg cfg.backups _ (forget_jobs-IsValid id m c.valid);
    plain = λ i cfg' g. elim (in_put id i cfg cfg' m.containers g) [
      | inl (e, f) ↦ subst (λ (x : Text). contains colon x ≡ false) e h
      | inr (n, g') ↦ c.plain i cfg' g'
    ];
    distinct = λ i cfg' g. elim (in_put id i cfg cfg' m.containers g) [
      | inl (e, f) ↦ subst (λ (x : ContainerConfig). Distinct x.backups) f d
      | inr (n, g') ↦ c.distinct i cfg' g'
    ];
    complete = λ i cfg' g. elim (in_put id i cfg cfg' m.containers g) [
      | inl (e, f) ↦
          subst (λ (x : Text). Filled (schedule_container J env id cfg m).jobs x cfg') e
            (subst (Filled (schedule_container J env id cfg m).jobs id) f (λ b at t can.
              schedule_all_own id cfg cfg.backups b t _ (forget_jobs-IsValid id m c.valid) h d at
                can))
      | inr (n, g') ↦ λ b at t can.
          schedule_all_other id cfg cfg.backups _ (make_job_key i b.name)
            (forget_jobs-IsValid id m c.valid)
            (keyed_apart id i b.name cfg.backups h (c.plain i cfg' g') n)
          ∙ forget_jobs_other id i b.name m c (c.plain i cfg' g') n
          ∙ c.complete i cfg' g' b at t can
    ];
  }
