-- ===== src/Backup/Run/Outcome.antt =====
-- What a run of a backup has done, by what it reports.
use docker_backup.Base.{
  ℕ, ◌<◌, Bool, true, false, some, List, [], ◌∷◌, ◌≡◌, ◌≢◌, ◌⊎◌, inl, inr, refl, ap, arith, length,
  if◌then◌else◌, Bool-cases, Text, ◌==◌, has_prefix, All, In, Error, ok,
}
use docker_backup.Base.Strings.Laws.{==_iff, ==→eq}
use docker_backup.Config.Labels.{BackupConfig, ContainerConfig}
use docker_backup.Docker.{ContainerInfo, get_container}
use docker_backup.Storage.{Storage, BackupFile, IsLawful}
use docker_backup.Storage.Pools.{get_for_container}
use docker_backup.Retention.{newer}
use docker_backup.Retention.Contract.{enforce_keeps_newest, enforce_outside}
use docker_backup.Notification.{Event, backup_completed, backup_failed}
use docker_backup.Backup.{BackupType, Env}
use docker_backup.Backup.Keys.{backup_prefix, generate_backup_key}
use docker_backup.Backup.Run.{
  Notice, notify, get_notify_providers, fail_run, finish_run, store_run, run_backup,
}

module _ {W : Type 0} (env : Env W) (cfg : ContainerConfig) (backup : BackupConfig) (id : Text)
    (bt : BackupType W) (w : W) where
  -- The run that began in `w` has stored a backup under a key.
  pub record IsStored (key : Text) (v : W) : Type 0 where
    pub container : ContainerInfo
    pub inspected : get_container env.daemon id w ≡ ok container
    pub running : container.running ≡ true
    pub valid : bt.validate container ≡ ok tt
    pub st : Storage W
    pub pool : get_for_container W env.pools backup.storage ≡ ok st
    pub body : Text
    pub middle : W
    pub made : bt.backup container w ≡ (ok body, middle)
    pub named :
        key
        ≡ generate_backup_key env cfg.container_name backup.name bt.file_extension (env.clock.now w)
    pub stored : st.store key body middle ≡ (ok tt, v)

  -- The event tells the truth of the run: a completed one, that the backup is stored under its key,
  -- and a failed one carries an error.
  abbrev pub IsTrue : Event → Type 0
  IsTrue e =
      ((e.event_type ≡ backup_completed) × (v : W) × IsStored e.backup_key v)
      ⊎ ((e.event_type ≡ backup_failed) × (x : Error) × (e.error ≡ some x))

  abbrev Good : List Notice × W → Type 0
  Good r = All (λ n. IsTrue n.event) r.0

  -- With a notification provider, a run on a running container reports exactly one event, on every
  -- branch.
  pub run_backup_reports :
      (p : Text) (ps : List Text) (c : ContainerInfo)
      → get_notify_providers cfg backup ≡ p ∷ ps
      → get_container env.daemon id w ≡ ok c
      → c.running ≡ true
      → length (run_backup env cfg backup id bt w).0 ≡ 1
  unfolding run_backup store_run fail_run finish_run notify
  run_backup_reports p ps c h e r = ground arith

-- A key is among the files' keys.
abbrev stored_key : Text → List BackupFile → Bool
stored_key k [] = false
stored_key k (f ∷ fs) = if f.key == k then true else stored_key k fs

stored_key-In :
    (k : Text) (fs : List BackupFile)
    → stored_key k fs ≡ true
    → (f : BackupFile) × In f fs × (f.key ≡ k)
stored_key-In k [] h = cc
stored_key-In k (f ∷ fs) h = elim (Bool-cases (f.key == k)) [
  | inl t ↦ (f, inl refl, ==→eq f.key k t)
  | inr n ↦ let (g, m, e) = stored_key-In k fs (ground arith) in (g, inr m, e)
]

In-stored_key : (f : BackupFile) (fs : List BackupFile) → In f fs → stored_key f.key fs ≡ true
In-stored_key f [] m = absurd m
In-stored_key f (g ∷ fs) (inl e) =
    ground (arith, ap (λ (x : BackupFile). x.key) e, ==_iff g.key f.key)
In-stored_key f (g ∷ fs) (inr m) = ground (arith, In-stored_key f fs m)

module _ {W : Type 0} (env : Env W) (cfg : ContainerConfig) (backup : BackupConfig)
    (key body : Text) (start : ℕ) (u : W) (st : Storage W) (L : IsLawful st)
    (pool : get_for_container W env.pools backup.storage ≡ ok st) (files : List BackupFile)
    (listed : st.list (backup_prefix cfg.container_name backup.name) u ≡ ok files) where
  -- The retention policy at the end of a run, with a retention of at least one, leaves a backup
  -- under the key of a stored file that is newer than every other of the configuration, on a
  -- lawful storage whose listing succeeds.
  pub finish_run_keeps :
      (f : BackupFile)
      → In f (L.files u)
      → has_prefix f.key (backup_prefix cfg.container_name backup.name) ≡ true
      → 0 < backup.retention
      → ((g : BackupFile)
          → In g (L.files u)
          → has_prefix g.key (backup_prefix cfg.container_name backup.name) ≡ true
          → g.key ≢ f.key
          → newer f g ≡ true)
      → (g : BackupFile) × In g (L.files (finish_run env cfg backup key body start u).1)
        × (g.key ≡ f.key)
  unfolding finish_run
  finish_run_keeps f m p keep newest =
      elim (Bool-cases
        (stored_key f.key (L.files (finish_run env cfg backup key body start u).1))) [
          | inl t ↦ stored_key-In f.key _ t
          | inr n ↦ absurd (lost n)
        ]
    where
      none_left :
          (gs : List BackupFile)
          → All
              (λ g.
                In g (L.files (finish_run env cfg backup key body start u).1)
                × (has_prefix g.key (backup_prefix cfg.container_name backup.name) ≡ true))
              gs
          → All (λ g. newer f g ≡ false) gs
          → 0 < length gs
          → stored_key f.key (L.files (finish_run env cfg backup key body start u).1) ≡ false
          → ⊥
      none_left [] a b c n = ground arith
      none_left (g ∷ gs) a b c n =
          let was =
            (enforce_outside env.file_sorter st L env.pools backup.storage
                (backup_prefix cfg.container_name backup.name) backup.retention u files pool listed
                g).0
              a.0.0 in
          ground (arith, In-stored_key g _ a.0.0, newest g was a.0.1, b.0)

      lost : stored_key f.key (L.files (finish_run env cfg backup key body start u).1) ≡ false → ⊥
      lost n =
          let s =
            enforce_keeps_newest env.file_sorter st L env.pools backup.storage
              (backup_prefix cfg.container_name backup.name) backup.retention u files pool listed f
              m p (λ i. ground (arith, In-stored_key f _ i)) in
          none_left s.kept s.stay s.newer_ones (ground (arith, s.enough)) n
