-- ===== src/Backup.antt =====
-- internal/backup: backup types and their registry (backup.go, registry.go), and the manager
-- (manager.go) with its jobs (Schedule), its keys (Keys), the runs of a backup (Run) and the
-- operations on stored backups (Stored).
pub mod Schedule
pub mod Keys
pub mod Run
pub mod Stored
use docker_backup.Base.{ℕ, Bool, Option, none, some, List, Text, if◌then◌else◌, Result}
use docker_backup.Base.Map.{Map, get, put, has}
use docker_backup.Base.Sort.{Sorter}
use docker_backup.Config.Labels.{BackupConfig, ContainerConfig, name_lt}
use docker_backup.Docker.{ContainerInfo, Daemon}
use docker_backup.Storage.Pools.{PoolManager}
use docker_backup.Retention.{newer}
use docker_backup.Notification.{Event}

-- backup.go: an implementation works on a container through Docker, which is part of the world.
-- `backup` gives what it has written, if it does not fail.
pub record BackupType (W : Type 0) : Type 0 where
  pub name : Text
  pub file_extension : Text
  pub validate : ContainerInfo → Result (Unit {0})
  pub backup : ContainerInfo → W → Result Text × W
  pub restore : ContainerInfo → Text → W → Result (Unit {0}) × W

-- The clock of the world, and the two formats in which the manager prints a time.
pub record Clock (W : Type 0) : Type 0 where
  pub now : W → ℕ
  pub date : ℕ → Text
  pub time_of_day : ℕ → Text

-- What a manager is built from and does not change.
pub record Env (W : Type 0) : Type 0 where
  pub daemon : Daemon W
  pub pools : PoolManager W
  pub types : Map (BackupType W)
  pub clock : Clock W
  pub label_sorter : Sorter name_lt
  pub file_sorter : Sorter newer

-- registry.go: Register; a name that is taken is a panic, here `none`.
unfoldable pub register :
    {W : Type 0} → BackupType W → Map (BackupType W) → Option (Map (BackupType W))
register bt registry = if has bt.name registry then none else some (put bt.name bt registry)

-- What the function of a scheduled job holds: the arguments of its call of runBackup.
pub record Job (W : Type 0) : Type 0 where
  pub container_id : Text
  pub cfg : ContainerConfig
  pub backup : BackupConfig
  pub backup_type : BackupType W
