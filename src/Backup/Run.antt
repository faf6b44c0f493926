-- ===== src/Backup/Run.antt =====
-- internal/backup/manager.go: runBackup, the run of one backup.
pub mod Outcome
use docker_backup.Base.{
  ℕ, ◌-◌, Bool, true, false, not, Option, none, some, List, [], ◌∷◌, length, if◌then◌else◌, Text,
  Error, Result, ok, err,
}
use docker_backup.Config.Labels.{BackupConfig, ContainerConfig}
use docker_backup.Docker.{ContainerInfo, get_container}
use docker_backup.Storage.{Storage}
use docker_backup.Storage.Pools.{get_for_container}
use docker_backup.Retention.{enforce}
use docker_backup.Notification.{EventType, Event, backup_completed, backup_failed}
use docker_backup.Backup.{BackupType, Env}
use docker_backup.Backup.Keys.{backup_prefix, generate_backup_key}

-- An event that the manager hands to the notification manager, with the providers it is for.
pub record Notice : Type 0 where
  pub event : Event
  pub providers : List Text

-- The manager's notify: without providers nothing is sent. What is sent goes to a goroutine, so the
-- run does not wait for it, and the model lists it.
unfoldable pub notify : Event → List Text → List Notice
notify event [] = []
notify event (p ∷ ps) = record { event = event; providers = p ∷ ps } ∷ []

unfoldable pub get_notify_providers : ContainerConfig → BackupConfig → List Text
get_notify_providers cfg backup = elim backup.notify [ [] ↦ cfg.notify | p ∷ ps ↦ p ∷ ps ]

-- The event of a run that failed, with the backup's key once it has one.
abbrev pub failed_event : ContainerConfig → BackupConfig → Text → Error → ℕ → Event
failed_event cfg backup key e now = record {
  event_type = backup_failed;
  container_name = cfg.container_name;
  backup_type = backup.backup_type;
  backup_key = key;
  size = 0;
  duration = 0;
  error = some e;
  timestamp = now;
}

abbrev pub completed_event : ContainerConfig → BackupConfig → Text → ℕ → ℕ → ℕ → Event
completed_event cfg backup key size duration now = record {
  event_type = backup_completed;
  container_name = cfg.container_name;
  backup_type = backup.backup_type;
  backup_key = key;
  size = size;
  duration = duration;
  error = none;
  timestamp = now;
}

module _ {W : Type 0} (env : Env W) (cfg : ContainerConfig) (backup : BackupConfig) where
  -- A run that fails in the world `w`.
  unfoldable pub fail_run : Text → Error → W → List Notice × W
  unfolding notify get_notify_providers
  fail_run key e w = (
    notify (failed_event cfg backup key e (env.clock.now w)) (get_notify_providers cfg backup),
    w,
  )

  -- After the backup is stored: the notice, and then the retention policy, whose error is logged and
  -- no more.
  unfoldable pub finish_run : Text → Text → ℕ → W → List Notice × W
  unfolding notify get_notify_providers
  finish_run key body start w =
      let now = env.clock.now w in
      (
        notify (completed_event cfg backup key (length body) (now - start) now)
            (get_notify_providers cfg backup),
        (enforce env.file_sorter env.pools backup.storage
            (backup_prefix cfg.container_name backup.name) backup.retention w).1,
      )

  -- Writing the backup and storing it.
  unfoldable pub store_run : BackupType W → ContainerInfo → Storage W → ℕ → W → List Notice × W
  unfolding fail_run finish_run
  store_run bt container st start w =
      let key =
        generate_backup_key env cfg.container_name backup.name bt.file_extension
          (env.clock.now w) in
      let (made, v) = bt.backup container w in
      elim made [
        | err e ↦ fail_run key e v
        | ok body ↦
            let (stored, u) = st.store key body v in
            elim stored [ err e ↦ fail_run key e u | ok _ ↦ finish_run key body start u ]
      ]

  unfoldable pub run_backup : Text → BackupType W → W → List Notice × W
  unfolding store_run
  run_backup id bt w = elim (get_container env.daemon id w) [
    | err e ↦ fail_run [] e w
    | ok container ↦ if not container.running then ([], w) else elim (bt.validate container) [
      | err e ↦ fail_run [] e w
      | ok _ ↦ elim (get_for_container W env.pools backup.storage) [
        | err e ↦ fail_run [] e w
        | ok st ↦ store_run bt container st (env.clock.now w) w
      ]
    ]
  ]
