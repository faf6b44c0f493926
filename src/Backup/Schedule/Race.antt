-- ===== src/Backup/Schedule/Race.antt =====
-- scheduleContainer releases its lock after it has tracked the container, before it adds the jobs.
-- The watcher's two goroutines, for events and for polling, can each be in the manager, so a
-- removeContainer of the one can run at that place of the other.
use docker_backup.Base.{false, none, some, ◌≡◌, arith, Text, colon, contains, In}
use docker_backup.Base.Strings.Laws.{==_refl}
use docker_backup.Base.Map.{get, get-remove}
use docker_backup.Config.Labels.{BackupConfig, ContainerConfig}
use docker_backup.Config.Labels.Order.{Distinct}
use docker_backup.Scheduler.Api.{Jobs}
use docker_backup.Backup.{BackupType, Env, Job}
use docker_backup.Backup.Schedule.{make_job_key, Manager, track, schedule_all, remove_container}
use docker_backup.Backup.Schedule.Keys.{IsSchedulable, job_of}
use docker_backup.Backup.Schedule.Owned.{IsOwned, track-IsOwned, remove_container-IsOwned}
use docker_backup.Backup.Schedule.Complete.{schedule_all_own}

module _ {W : Type 0} (J : Jobs (Job W)) (env : Env W) where
  -- The second half of scheduleContainer, without the lock.
  unfoldable pub add_jobs : Text → ContainerConfig → Manager J env → Manager J env
  unfolding schedule_all
  add_jobs id cfg m = record m { jobs = schedule_all J env id cfg cfg.backups m.jobs }

  -- removeContainer between the two halves.
  abbrev pub interleaved : Text → ContainerConfig → Manager J env → Manager J env
  interleaved id cfg m = add_jobs id cfg (remove_container J env id (track J env id cfg m))

  -- A removeContainer that runs between the two halves of scheduleContainer for the same container
  -- leaves it untracked and with the job of every configuration that can be scheduled, if the id
  -- has no colon and the configurations have different names.
  pub interleaved_leaves_job :
      (id : Text) (cfg : ContainerConfig) (m : Manager J env) (b : BackupConfig) (t : BackupType W)
      → IsOwned J env m
      → contains colon id ≡ false
      → Distinct cfg.backups
      → In b cfg.backups
      → IsSchedulable J env b t
      → (get id (interleaved id cfg m).containers ≡ none)
        × (J.find (make_job_key id b.name) (interleaved id cfg m).jobs
            ≡ some (b.schedule, job_of J env id cfg b t))
  unfolding add_jobs remove_container
  interleaved_leaves_job id cfg m b t o h d at can = (
    ground (arith, get-remove id id (track J env id cfg m).containers, ==_refl id),
    schedule_all_own J env id cfg cfg.backups b t
        (remove_container J env id (track J env id cfg m)).jobs
        (remove_container-IsOwned J env id _ (track-IsOwned J env id cfg m o)).valid h d at can,
  )
