-- ===== src/Backup/Keys.antt =====
-- internal/backup/manager.go: the keys of stored backups (generateBackupKey), and the storage that a
-- key belongs to (getStorageForBackupKey).
pub mod RoundTrip
use docker_backup.Base.{
  ℕ, Bool, true, false, Option, none, some, List, [], ◌∷◌, ◌++◌, ◌≡◌, ◌≢◌, ◌⊎◌, inl, inr, refl, sym,
  ap, subst, ◌∙◌, arith, if◌then◌else◌, Bool-cases, Text, ◌==◌, split, slash, contains, has_prefix,
  All, In, In-All, Error, errorf, Result, ok, err,
}
use docker_backup.Base.Strings.Laws.{==_iff, ==_refl, ==→eq, split-append, has_prefix-append}
use docker_backup.Config.Labels.{BackupConfig, ContainerConfig}
use docker_backup.Config.Labels.Order.{Distinct}
use docker_backup.Storage.{Storage}
use docker_backup.Storage.Pools.{get_for_container}
use docker_backup.Backup.{Clock, Env}

-- fmt.Sprintf("%s/%s/", container, config): the prefix of a configuration's backups.
abbrev pub backup_prefix : Text → Text → Text
backup_prefix container config = container ++ (slash ∷ (config ++ (slash ∷ [])))

-- The part of a key that names a configuration: its name, or its type if it has no name.
abbrev pub key_path : BackupConfig → Text
key_path b = if b.name == [] then b.backup_type else b.name

-- The first configuration with that part.
unfoldable pub find_by_path : Text → List BackupConfig → Option BackupConfig
find_by_path p [] = none
find_by_path p (b ∷ bs) = let rest = find_by_path p bs in if key_path b == p then some b else rest

module _ {W : Type 0} (env : Env W) where
  unfoldable pub generate_backup_key : Text → Text → Text → ℕ → Text
  generate_backup_key container path extension t =
      container
      ++ (slash
          ∷ (path
              ++ (slash ∷ (env.clock.date t ++ (slash ∷ (env.clock.time_of_day t ++ extension))))))

  -- The storage of the first configuration, for a key that names none.
  abbrev pub first_storage : Error → List BackupConfig → Result (Storage W)
  first_storage e [] = err e
  first_storage e (b ∷ bs) = get_for_container W env.pools b.storage

  unfoldable pub get_storage_for_backup_key : ContainerConfig → Text → Result (Storage W)
  unfolding find_by_path
  get_storage_for_backup_key cfg key = elim (split slash key) [
    | container ∷ path ∷ rest ↦ elim (find_by_path path cfg.backups) [
      | some b ↦ get_for_container W env.pools b.storage
      | none ↦ first_storage (errorf "no backup config found for key %q" (key ∷ [])) cfg.backups
    ]
    | _ ↦ first_storage (errorf "invalid backup key format" []) cfg.backups
  ]
