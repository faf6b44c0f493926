-- ===== src/Docker.antt =====
-- internal/docker/client.go: what the program knows of a container, and the Docker calls that the
-- other components make. The answers of the Docker daemon are read off the world.
pub mod Volumes
pub mod Exec
use docker_backup.Base.{
  Bool, none, some, List, [], ◌∷◌, Text, cut, trim_prefix, equals, slash, if◌then◌else◌, ◌==◌,
  Result, ok, err, ◌>>=◌,
}
use docker_backup.Base.Map.{Map, put}

pub record MountInfo : Type 0 where
  pub kind : Text
  pub name : Text
  pub source : Text
  pub destination : Text

pub record ContainerInfo : Type 0 where
  pub id : Text
  pub name : Text
  pub labels : Map Text
  pub env : Map Text
  pub network_ip : Text
  pub running : Bool
  pub mounts : List MountInfo

-- The fields of the daemon's answer to an inspect call that GetContainer reads. `networks` are the
-- addresses of the container's networks.
pub record Inspect : Type 0 where
  pub id : Text
  pub name : Text
  pub labels : Map Text
  pub env : List Text
  pub networks : List Text
  pub running : Bool
  pub mounts : List MountInfo

-- Environment variables as a map: an entry without "=" is dropped, and a later one wins.
unfoldable pub parse_env : List Text → Map Text → Map Text
parse_env [] env = env
parse_env (e ∷ es) env =
    parse_env es (elim (cut equals e) [ none ↦ env | some (key, value) ↦ put key value env ])

-- The first address that is not empty.
unfoldable pub first_address : List Text → Text
first_address [] = []
first_address (a ∷ more) = let rest = first_address more in if a == [] then rest else a

unfoldable pub container_info : Inspect → ContainerInfo
unfolding parse_env first_address
container_info i = record {
  id = i.id;
  name = trim_prefix i.name (slash ∷ []);
  labels = i.labels;
  env = parse_env i.env [];
  network_ip = first_address i.networks;
  running = i.running;
  mounts = i.mounts;
}

-- The Docker API: the running containers' ids, and the inspection of a container.
pub record Daemon (W : Type 0) : Type 0 where
  pub container_list : W → Result (List Text)
  pub container_inspect : Text → W → Result Inspect

module _ {W : Type 0} (d : Daemon W) where
  unfoldable pub get_container : Text → W → Result ContainerInfo
  unfolding container_info
  get_container id w = do i ← d.container_inspect id w; ok (container_info i)

  -- The loop of ListContainers: a container that cannot be inspected is skipped.
  unfoldable pub inspect_all : List Text → W → List ContainerInfo
  unfolding get_container
  inspect_all [] w = []
  inspect_all (id ∷ ids) w =
      let rest = inspect_all ids w in
      elim (get_container id w) [ ok info ↦ info ∷ rest | err e ↦ rest ]

  unfoldable pub list_containers : W → Result (List ContainerInfo)
  unfolding inspect_all
  list_containers w = do ids ← d.container_list w; ok (inspect_all ids w)
