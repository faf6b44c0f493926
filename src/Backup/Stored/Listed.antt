-- ===== src/Backup/Stored/Listed.antt =====
-- ListBackups of internal/backup/manager.go, over all pools of a container's configurations.
use docker_backup.Base.{List, [], ◌∷◌, ◌++◌, if◌then◌else◌, Text}
use docker_backup.Base.Map.{Map}
use docker_backup.Config.Labels.{BackupConfig, ContainerConfig}
use docker_backup.Storage.{BackupFile}
use docker_backup.Backup.{Env}
use docker_backup.Backup.Stored.{list_pool, seen_pool}

module _ {W : Type 0} (env : Env W) (containers : Map ContainerConfig) where
  -- The files of pools that are asked one after the other.
  unfoldable pub asked_in_turn : Text → List Text → W → List BackupFile
  asked_in_turn under [] w = []
  asked_in_turn under (pool ∷ pools) w =
      list_pool env containers pool under w ++ asked_in_turn under pools w

  -- The pools that the loop asks: those of the configurations that it has not seen.
  unfoldable fresh : List BackupConfig → List Text → List Text
  fresh [] seen = []
  fresh (b ∷ bs) seen =
      let skipped = fresh bs seen in
      let further = fresh bs (b.storage ∷ seen) in
      if seen_pool env containers b.storage seen then skipped else b.storage ∷ further
