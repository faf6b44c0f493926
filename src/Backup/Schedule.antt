-- ===== src/Backup/Schedule.antt =====
-- The manager's tracked containers and their jobs: addContainer, removeContainer,
-- scheduleContainer, syncContainers and handleEvent of internal/backup/manager.go. Each call is one
-- step here; Schedule/Race takes scheduleContainer apart where it releases the lock.
pub mod Keys
pub mod Owned
pub mod Events
pub mod Complete
pub mod Synced
pub mod Race
use docker_backup.Base.{
  Bool, true, false, not, ◌&&◌, ◌||◌, Option, none, some, List, [], ◌∷◌, ◌++◌, nat_eq,
  if◌then◌else◌, Text, codes, ◌==◌, colon, Error, errorf, wrapf, Result, ok, err, ◌>>=◌, wrap,
}
use docker_backup.Base.Map.{Map, get, put, remove, has}
use docker_backup.Config.Labels.{BackupConfig, ContainerConfig, parse_labels}
use docker_backup.Docker.{ContainerInfo, get_container, list_containers}
use docker_backup.Storage.Pools.{get_for_container}
use docker_backup.Scheduler.Api.{Jobs}
use docker_backup.Backup.{BackupType, Env, Job}

unfoldable pub make_job_key : Text → Text → Text
make_job_key container_id config_name = container_id ++ (colon ∷ config_name)

abbrev pub prefix : Text
prefix = codes "docker-backup"

-- Two configurations with all but their notification providers equal.
unfoldable pub config_equal : BackupConfig → BackupConfig → Bool
config_equal a b =
    a.name == b.name
    && (a.backup_type == b.backup_type
        && (a.schedule == b.schedule && (nat_eq a.retention b.retention && a.storage == b.storage)))

unfoldable pub configs_equal : List BackupConfig → List BackupConfig → Bool
unfolding config_equal
configs_equal [] [] = true
configs_equal (a ∷ as_) (b ∷ bs) = config_equal a b && configs_equal as_ bs
configs_equal _ _ = false

module _ {W : Type 0} (J : Jobs (Job W)) (env : Env W) where
  pub record Manager : Type 0 where
    pub containers : Map ContainerConfig
    pub jobs : J.State

  -- The loop that removes the jobs of a container's configurations.
  unfoldable pub remove_jobs : Text → List BackupConfig → J.State → J.State
  remove_jobs id [] jobs = jobs
  remove_jobs id (b ∷ bs) jobs = remove_jobs id bs (J.remove (make_job_key id b.name) jobs)

  -- scheduleBackupConfig: a configuration whose type is not registered or whose pool is missing is
  -- logged and left out, and so is one whose schedule the scheduler refuses.
  unfoldable pub schedule_backup_config : Text → ContainerConfig → BackupConfig → J.State → J.State
  schedule_backup_config id cfg b jobs = elim (get b.backup_type env.types) [
    | none ↦ jobs
    | some t ↦ elim (get_for_container W env.pools b.storage) [
      | err e ↦ jobs
      | ok st ↦
          (J.add (make_job_key id b.name) b.schedule
            (record { container_id = id; cfg = cfg; backup = b; backup_type = t }) jobs).1
    ]
  ]

  unfoldable pub schedule_all : Text → ContainerConfig → List BackupConfig → J.State → J.State
  unfolding schedule_backup_config
  schedule_all id cfg [] jobs = jobs
  schedule_all id cfg (b ∷ bs) jobs = schedule_all id cfg bs (schedule_backup_config id cfg b jobs)

  -- The jobs after those of the configuration tracked so far have been removed.
  unfoldable pub forget_jobs : Text → Manager → J.State
  unfolding remove_jobs
  forget_jobs id m = elim (get id m.containers) [
    | none ↦ m.jobs
    | some old ↦ remove_jobs id old.backups m.jobs
  ]

  -- The part of scheduleContainer that holds the lock.
  unfoldable pub track : Text → ContainerConfig → Manager → Manager
  unfolding forget_jobs
  track id cfg m = record { containers = put id cfg m.containers; jobs = forget_jobs id m }

  unfoldable pub schedule_container : Text → ContainerConfig → Manager → Manager
  unfolding track schedule_all
  schedule_container id cfg m =
      let tracked = track id cfg m in
      record tracked { jobs = schedule_all id cfg cfg.backups tracked.jobs }

  unfoldable pub remove_container : Text → Manager → Manager
  unfolding forget_jobs
  remove_container id m = record { containers = remove id m.containers; jobs = forget_jobs id m }

  -- What addContainer and syncContainers do with a container's parsed labels.
  unfoldable pub schedule_enabled : Text → Result ContainerConfig → Manager → Manager
  unfolding schedule_container
  schedule_enabled id (err e) m = m
  schedule_enabled id (ok cfg) m = if cfg.enabled then schedule_container id cfg m else m

  unfoldable pub add_container : Text → W → Manager → Manager
  unfolding schedule_enabled
  add_container id w m = elim (get_container env.daemon id w) [
    | err e ↦ m
    | ok info ↦
        schedule_enabled id (parse_labels env.label_sorter prefix info.id info.name info.labels) m
  ]

  -- Whether syncContainers leaves a container alone: it is tracked with equal configurations.
  unfoldable pub unchanged : Text → Result ContainerConfig → Manager → Bool
  unfolding configs_equal
  unchanged id (err e) m = true
  unchanged id (ok cfg) m = elim (get id m.containers) [
    | none ↦ false
    | some old ↦ configs_equal old.backups cfg.backups
  ]

  -- One round of the loop over the listed containers.
  unfoldable pub sync_one : ContainerInfo → Manager → Manager
  unfolding schedule_enabled unchanged
  sync_one info m =
      let parsed = parse_labels env.label_sorter prefix info.id info.name info.labels in
      if unchanged info.id parsed m then m else schedule_enabled info.id parsed m

  unfoldable pub sync_all : List ContainerInfo → Manager → Manager
  unfolding sync_one
  sync_all [] m = m
  sync_all (info ∷ infos) m = sync_all infos (sync_one info m)

  unfoldable pub seen : Text → List ContainerInfo → Bool
  seen id [] = false
  seen id (info ∷ infos) = info.id == id || seen id infos

  -- The loop over the tracked containers, of which those that were not listed are dropped.
  unfoldable pub drop_unseen : List ContainerInfo → Map ContainerConfig → Manager → Manager
  unfolding seen remove_container
  drop_unseen infos [] m = m
  drop_unseen infos ((id, cfg) ∷ rest) m =
      drop_unseen infos rest (if seen id infos then m else remove_container id m)

  -- syncContainers on the containers that Docker lists.
  unfoldable pub sync_listed : List ContainerInfo → Manager → Manager
  unfolding sync_all drop_unseen
  sync_listed infos m = let synced = sync_all infos m in drop_unseen infos synced.containers synced

  unfoldable pub sync_containers : W → Manager → Result (Unit {0}) × Manager
  unfolding sync_listed
  sync_containers w m = elim (list_containers env.daemon w) [
    | err e ↦ (err (wrapf "failed to list containers: %w" [] e), m)
    | ok infos ↦ (ok tt, sync_listed infos m)
  ]

  unfoldable pub handle_event : Text → Text → W → Manager → Manager
  unfolding add_container remove_container sync_containers
  handle_event action id w m =
      if action == codes "start"
      then add_container id w m
      else if action == codes "stop" || action == codes "die"
      then remove_container id m
      else if action == codes "sync"
      then (sync_containers w m).1
      else m
