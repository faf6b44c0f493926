-- ===== src/Backup/Stored.antt =====
-- internal/backup/manager.go: the operations on a container's stored backups, called by name.
pub mod Access
pub mod Listed
use docker_backup.Base.{
  ℕ, ◌-◌, Bool, true, false, not, Option, none, some, List, [], ◌∷◌, ◌++◌, if◌then◌else◌, Text,
  ◌==◌, split, slash, Error, errorf, wrapf, Result, ok, err, ◌>>=◌, wrap, or_fail,
}
use docker_backup.Base.Map.{Map, get}
use docker_backup.Config.Labels.{BackupConfig, ContainerConfig, parse_labels}
use docker_backup.Docker.{ContainerInfo, get_container, list_containers}
use docker_backup.Storage.{Storage, BackupFile}
use docker_backup.Storage.Pools.{get_for_container}
use docker_backup.Notification.{EventType, Event, restore_completed, restore_failed}
use docker_backup.Backup.{BackupType, Env}
use docker_backup.Backup.Keys.{find_by_path, get_storage_for_backup_key}
use docker_backup.Backup.Run.{Notice, notify, get_notify_providers, run_backup}
use docker_backup.Backup.Schedule.{prefix}

-- The loop over the tracked containers, in the order in which the map is walked.
unfoldable pub find_tracked : Text → Map ContainerConfig → Option (ContainerConfig × Text)
find_tracked name [] = none
find_tracked name ((id, cfg) ∷ rest) =
    let later = find_tracked name rest in
    if cfg.container_name == name then some (cfg, id) else later

-- The first listed container of a name.
unfoldable pub find_listed : Text → List ContainerInfo → Option ContainerInfo
find_listed name [] = none
find_listed name (info ∷ infos) =
    let later = find_listed name infos in if info.name == name then some info else later

unfoldable pub find_backup_config : ContainerConfig → Text → List BackupConfig → Result BackupConfig
find_backup_config cfg name [] =
    err (errorf "backup config %q not found in container %q" (name ∷ cfg.container_name ∷ []))
find_backup_config cfg name (b ∷ bs) =
    let later = find_backup_config cfg name bs in if b.name == name then ok b else later

-- GetContainers: one entry of a configuration and of a container.
pub record BackupConfigInfo : Type 0 where
  pub name : Text
  pub backup_type : Text
  pub schedule : Text
  pub retention : ℕ
  pub storage : Text

pub record TrackedInfo : Type 0 where
  pub container_id : Text
  pub container_name : Text
  pub notify : List Text
  pub backups : List BackupConfigInfo

unfoldable pub config_infos : List BackupConfig → List BackupConfigInfo
config_infos [] = []
config_infos (b ∷ bs) =
    record {
      name = b.name;
      backup_type = b.backup_type;
      schedule = b.schedule;
      retention = b.retention;
      storage = b.storage;
    }
    ∷ config_infos bs

unfoldable pub get_containers : Map ContainerConfig → List TrackedInfo
unfolding config_infos
get_containers [] = []
get_containers ((id, cfg) ∷ rest) =
    record {
      container_id = id;
      container_name = cfg.container_name;
      notify = cfg.notify;
      backups = config_infos cfg.backups;
    }
    ∷ get_containers rest

module _ {W : Type 0} (env : Env W) (containers : Map ContainerConfig) where
  -- The part of findContainerConfig that asks Docker.
  unfoldable pub find_in_docker : Text → W → Result (ContainerConfig × Text)
  unfolding find_listed
  find_in_docker name w = do
    infos ← wrap "failed to list containers: %w" [] (list_containers env.daemon w)
    info ← or_fail (errorf "container %q not found" (name ∷ [])) (find_listed name infos)
    cfg ←
        wrap "failed to parse container labels: %w" []
          (parse_labels env.label_sorter prefix info.id info.name info.labels)
    ok (cfg, info.id)

  unfoldable pub find_container_config : Text → W → Result (ContainerConfig × Text)
  unfolding find_tracked find_in_docker
  find_container_config name w = elim (find_tracked name containers) [
    | some found ↦ ok found
    | none ↦ find_in_docker name w
  ]

  -- What one pool has under the prefix; a pool that is missing or cannot be listed has nothing.
  unfoldable pub list_pool : Text → Text → W → List BackupFile
  list_pool pool under w = elim (get_for_container W env.pools pool) [
    | err e ↦ []
    | ok st ↦ elim (st.list under w) [ err e ↦ [] | ok files ↦ files ]
  ]

  -- A pool has been looked at.
  abbrev pub seen_pool : Text → List Text → Bool
  seen_pool pool [] = false
  seen_pool pool (p ∷ ps) = if p == pool then true else seen_pool pool ps

  -- The loop of ListBackups, with the pools seen so far.
  unfoldable pub list_pools : Text → List BackupConfig → List Text → W → List BackupFile
  unfolding list_pool
  list_pools under [] pools w = []
  list_pools under (b ∷ bs) pools w =
      let skipped = list_pools under bs pools w in
      let further = list_pools under bs (b.storage ∷ pools) w in
      if seen_pool b.storage pools then skipped else list_pool b.storage under w ++ further

  unfoldable pub list_backups : Text → W → Result (List BackupFile)
  unfolding find_container_config list_pools
  list_backups name w = do
    found ← find_container_config name w
    ok (list_pools (name ++ slash ∷ []) found.0.backups [] w)

  unfoldable pub get_backup : Text → Text → W → Result Text
  unfolding find_container_config
  get_backup name key w = do
    found ← find_container_config name w
    st ← wrap "failed to get storage: %w" [] (get_storage_for_backup_key env found.0 key)
    st.retrieve key w

  -- Everything that RestoreBackup needs before it touches the container.
  pub record Restore : Type 0 where
    pub cfg : ContainerConfig
    pub backup : BackupConfig
    pub backup_type : BackupType W
    pub container : ContainerInfo
    pub body : Text

  -- The configuration that a key's second part names, or the first one.
  unfoldable pub config_for_path : Text → List BackupConfig → Result BackupConfig
  unfolding find_by_path
  config_for_path path backups = elim (find_by_path path backups) [
    | some b ↦ ok b
    | none ↦ elim backups [ [] ↦ err (errorf "no backup configuration found" []) | b ∷ bs ↦ ok b ]
  ]

  abbrev pub second_part : List Text → Result Text
  second_part (_ ∷ path ∷ _) = ok path
  second_part _ = err (errorf "invalid backup key format" [])

  abbrev pub require_running : Text → ContainerInfo → Result (Unit {0})
  require_running name container =
      if container.running then ok tt else err (errorf "container %q is not running" (name ∷ []))

  unfoldable pub prepare_restore : Text → Text → W → Result Restore
  unfolding find_container_config config_for_path
  prepare_restore name key w = do
    found ← find_container_config name w
    path ← second_part (split slash key)
    backup ← config_for_path path found.0.backups
    backup_type ←
        or_fail (errorf "unknown backup type %q" (backup.backup_type ∷ []))
          (get backup.backup_type env.types)
    st ← wrap "failed to get storage: %w" [] (get_storage_for_backup_key env found.0 key)
    container ← wrap "failed to get container info: %w" [] (get_container env.daemon found.1 w)
    running ← require_running name container
    valid ← wrap "container validation failed: %w" [] (backup_type.validate container)
    body ← wrap "failed to get backup: %w" [] (st.retrieve key w)
    ok (record {
      cfg = found.0;
      backup = backup;
      backup_type = backup_type;
      container = container;
      body = body;
    })

  -- The event after a restore that began at `start`.
  abbrev pub restore_event : Text → Text → Restore → EventType → Option Error → ℕ → ℕ → Event
  restore_event name key r type_ e duration now = record {
    event_type = type_;
    container_name = name;
    backup_type = r.backup.backup_type;
    backup_key = key;
    size = 0;
    duration = duration;
    error = e;
    timestamp = now;
  }

  unfoldable pub do_restore : Text → Text → Restore → W → Result (Unit {0}) × List Notice × W
  do_restore name key r w =
      let providers = get_notify_providers r.cfg r.backup in
      let start = env.clock.now w in
      let (restored, v) = r.backup_type.restore r.container r.body w in
      elim restored [
        | err e ↦ (
          err (wrapf "restore failed: %w" [] e),
          notify (restore_event name key r restore_failed (some e) 0 (env.clock.now v)) providers,
          v,
        )
        | ok _ ↦
            let now = env.clock.now v in
            (
              ok tt,
              notify (restore_event name key r restore_completed none (now - start) now) providers,
              v,
            )
      ]

  unfoldable pub restore_backup : Text → Text → W → Result (Unit {0}) × List Notice × W
  unfolding prepare_restore do_restore
  restore_backup name key w = elim (prepare_restore name key w) [
    | err e ↦ (err e, [], w)
    | ok r ↦ do_restore name key r w
  ]

  unfoldable pub delete_backup : Text → Text → W → Result (Unit {0}) × W
  unfolding find_container_config
  delete_backup name key w =
      elim (do
        found ← find_container_config name w
        wrap "failed to get storage: %w" [] (get_storage_for_backup_key env found.0 key)) [
          | err e ↦ (err e, w)
          | ok st ↦ let (r, v) = st.delete key w in (wrap "failed to delete backup: %w" [] r, v)
        ]

  -- The loop of TriggerBackup: it stops at a configuration whose type is not registered.
  unfoldable pub run_all :
      ContainerConfig → Text → List BackupConfig → W → Result (Unit {0}) × List Notice × W
  run_all cfg id [] w = (ok tt, [], w)
  run_all cfg id (b ∷ bs) w = elim (get b.backup_type env.types) [
    | none ↦ (err (errorf "unknown backup type %q" (b.backup_type ∷ [])), [], w)
    | some t ↦
        let (sent, v) = run_backup env cfg b id t w in
        let (r, more, u) = run_all cfg id bs v in (r, sent ++ more, u)
  ]

  -- The configurations that a call names: one, or all of them for the empty name.
  unfoldable pub configs_to_run : ContainerConfig → Text → Result (List BackupConfig)
  unfolding find_backup_config
  configs_to_run cfg name =
      if name == []
      then ok cfg.backups
      else (find_backup_config cfg name cfg.backups >>= λ b. ok (b ∷ []))

  abbrev pub require_enabled : Text → ContainerConfig → Result (Unit {0})
  require_enabled name cfg =
      if cfg.enabled
      then ok tt
      else err (errorf "container %q does not have backup enabled" (name ∷ []))

  unfoldable pub to_run : Text → Text → W → Result (ContainerConfig × Text × List BackupConfig)
  unfolding find_container_config configs_to_run
  to_run name config w = do
    found ← find_container_config name w
    enabled ← require_enabled name found.0
    backups ← configs_to_run found.0 config
    ok (found.0, found.1, backups)

  unfoldable pub trigger_backup : Text → Text → W → Result (Unit {0}) × List Notice × W
  unfolding to_run run_all
  trigger_backup name config w = elim (to_run name config w) [
    | err e ↦ (err e, [], w)
    | ok (cfg, id, backups) ↦ run_all cfg id backups w
  ]
