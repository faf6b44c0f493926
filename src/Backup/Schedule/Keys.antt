-- ===== src/Backup/Schedule/Keys.antt =====
-- Job keys, and what the loops over a container's configurations do to the jobs of one key.
use docker_backup.Base.{
  Bool, true, false, none, some, List, [], ◌∷◌, ◌≡◌, ◌⊎◌, inl, inr, refl, sym, ap, subst, ◌∙◌,
  arith, if◌then◌else◌, Bool-cases, Option-cases, Text, ◌==◌, cut, contains, colon, In, ok,
  Result-cases,
}
use docker_backup.Base.Strings.Laws.{==_iff, ==→eq, cut-append}
use docker_backup.Base.Map.{get}
use docker_backup.Config.Labels.{BackupConfig, ContainerConfig}
use docker_backup.Storage.{Storage}
use docker_backup.Storage.Pools.{get_for_container}
use docker_backup.Scheduler.Api.{Jobs}
use docker_backup.Backup.{BackupType, Env, Job}
use docker_backup.Backup.Schedule.{make_job_key, remove_jobs, schedule_backup_config}

-- Two jobs of one key are of one container and one configuration, if neither id has a colon.
pub make_job_key_injective :
    (id id' name name' : Text)
    → contains colon id ≡ false
    → contains colon id' ≡ false
    → make_job_key id name ≡ make_job_key id' name'
    → (id ≡ id') × (name ≡ name')
unfolding make_job_key
make_job_key_injective id id' name name' h h' e =
    ground (arith, cut-append colon id name h, cut-append colon id' name' h', ap (cut colon) e)

-- One of the configurations has the key.
abbrev pub keyed : Text → Text → List BackupConfig → Bool
keyed k id [] = false
keyed k id (b ∷ bs) = if make_job_key id b.name == k then true else keyed k id bs

pub In-keyed :
    (k id : Text) (bs : List BackupConfig) (b : BackupConfig)
    → In b bs
    → k ≡ make_job_key id b.name
    → keyed k id bs ≡ true
In-keyed k id [] b m e = absurd m
In-keyed k id (c ∷ bs) b (inl i) e =
    ground (arith, ap (λ (x : BackupConfig). x.name) i, ==_iff (make_job_key id c.name) k)
In-keyed k id (c ∷ bs) b (inr i) e = ground (arith, In-keyed k id bs b i e)

pub keyed-In :
    (k id : Text) (bs : List BackupConfig)
    → keyed k id bs ≡ true
    → (b : BackupConfig) × In b bs × (make_job_key id b.name ≡ k)
keyed-In k id [] h = cc
keyed-In k id (c ∷ bs) h = elim (Bool-cases (make_job_key id c.name == k)) [
  | inl t ↦ (c, inl refl, ==→eq _ k t)
  | inr f ↦ let (b, m, e) = keyed-In k id bs (ground arith) in (b, inr m, e)
]

module _ {W : Type 0} (J : Jobs (Job W)) (env : Env W) where
  pub remove_jobs-IsValid :
      (id : Text) (bs : List BackupConfig) (s : J.State)
      → J.IsValid s
      → J.IsValid (remove_jobs J env id bs s)
  unfolding remove_jobs
  remove_jobs-IsValid id [] s v = v
  remove_jobs-IsValid id (b ∷ bs) s v =
      remove_jobs-IsValid id bs _ (J.remove-IsValid (make_job_key id b.name) s v)

  pub find-remove_jobs :
      (id : Text) (bs : List BackupConfig) (s : J.State)
      → J.IsValid s
      → (k : Text)
      → J.find k (remove_jobs J env id bs s) ≡ (if keyed k id bs then none else J.find k s)
  unfolding remove_jobs
  find-remove_jobs id [] s v k = refl
  find-remove_jobs id (b ∷ bs) s v k =
      find-remove_jobs id bs _ (J.remove-IsValid (make_job_key id b.name) s v) k
      ∙ ground (arith, J.find-remove (make_job_key id b.name) s v k)

  -- The configuration can be scheduled: its type is registered, its pool exists and its schedule
  -- parses.
  pub record IsSchedulable (b : BackupConfig) (t : BackupType W) : Type 0 where
    pub type_known : get b.backup_type env.types ≡ some t
    pub pool : Storage W
    pub pool_known : get_for_container W env.pools b.storage ≡ ok pool
    pub accepted : J.accepts b.schedule ≡ true

  abbrev pub job_of : Text → ContainerConfig → BackupConfig → BackupType W → Job W
  job_of id cfg b t = record { container_id = id; cfg = cfg; backup = b; backup_type = t }

  -- What one call of scheduleBackupConfig does to the job of a key.
  pub schedule_cases :
      (id : Text) (cfg : ContainerConfig) (b : BackupConfig) (s : J.State)
      → (schedule_backup_config J env id cfg b s ≡ s)
        ⊎ ((t : BackupType W) × (get b.backup_type env.types ≡ some t)
            × (schedule_backup_config J env id cfg b s
                ≡ (J.add (make_job_key id b.name) b.schedule (job_of id cfg b t) s).1))
  unfolding schedule_backup_config
  schedule_cases id cfg b s = elim (Option-cases (get b.backup_type env.types)) [
    | inl e ↦ inl (ground (arith, e))
    | inr (t, e) ↦ elim (Result-cases (get_for_container W env.pools b.storage)) [
      | inl (st, p) ↦ inr (t, e, ground (arith, e, p))
      | inr (x, p) ↦ inl (ground (arith, e, p))
    ]
  ]

  pub schedule_backup_config-IsValid :
      (id : Text) (cfg : ContainerConfig) (b : BackupConfig) (s : J.State)
      → J.IsValid s
      → J.IsValid (schedule_backup_config J env id cfg b s)
  schedule_backup_config-IsValid id cfg b s v = elim (schedule_cases id cfg b s) [
    | inl e ↦ subst J.IsValid (sym e) v
    | inr (t, e, r) ↦ subst J.IsValid (sym r) (J.add-IsValid _ _ _ s v)
  ]
