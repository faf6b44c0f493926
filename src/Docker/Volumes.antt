-- ===== src/Docker/Volumes.antt =====
-- internal/docker/client.go: the calls about volumes, the copying of archives and the stopping and
-- starting of containers.
use docker_backup.Base.{ℕ, Bool, List, Text, Error, Result, ok, ◌>>=◌}
use docker_backup.Docker.{ContainerInfo, Daemon, inspect_all}

-- A tar header: its name, whether it is a regular file, and what else is in it.
pub record Header : Type 0 where
  pub name : Text
  pub is_regular : Bool
  pub fields : Text

-- What a round of a loop over a tar archive meets: an entry with its content, an error of the
-- reader, or a context that has ended. The end of the list is the end of the archive.
pub data Item : Type 0 where
  entry : Header → Text → Item
  broken : Error → Item
  cancelled : Error → Item

-- The calls of the Docker API. `containers_using` is the list call with the filter for a volume and
-- stopped containers included, and gives their ids. The archive for `copy_to` goes through a pipe that
-- the copy reads meanwhile: `takes_header` and `takes_content` are the answers of the tar writer on
-- this pipe when an entry follows what has been written. They are errors if the writer refuses the
-- entry or the copy has ended.
pub record Control (W : Type 0) : Type 0 where
  pub containers_using : Text → W → Result (List Text)
  pub container_stop : Text → ℕ → W → Result (Unit {0}) × W
  pub container_start : Text → W → Result (Unit {0}) × W
  pub copy_from : Text → Text → W → Result (List Item)
  pub copy_to : Text → Text → List Item → W → Result (Unit {0}) × W
  pub takes_header : Text → Text → List Item → Header → W → Result (Unit {0})
  pub takes_content : Text → Text → List Item → Header → Text → W → Result (Unit {0})

module _ {W : Type 0} (d : Daemon W) (control : Control W) where
  -- The loop is the one of ListContainers: a container that cannot be inspected is skipped.
  unfoldable pub get_containers_using_volume : Text → W → Result (List ContainerInfo)
  unfolding inspect_all
  get_containers_using_volume volume w = do
    ids ← control.containers_using volume w
    ok (inspect_all d ids w)

  unfoldable pub stop_container : Text → ℕ → W → Result (Unit {0}) × W
  stop_container id seconds w = control.container_stop id seconds w

  unfoldable pub start_container : Text → W → Result (Unit {0}) × W
  start_container id w = control.container_start id w
