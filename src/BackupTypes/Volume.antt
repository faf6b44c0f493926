-- ===== src/BackupTypes/Volume.antt =====
-- internal/backuptypes/volume/volume.go: the backup of a container's volumes as one archive, while
-- the containers that use them are stopped. The packages tar and zstd are a parameter, and the
-- archives are lists of entries.
pub mod Restore
pub mod Stopping
pub mod Restarts
pub mod Archived
pub mod Streams
pub mod Naming
pub mod RoundTrip
use docker_backup.Base.{
  Bool, true, false, not, ◌&&◌, none, some, Option, List, [], ◌∷◌, ◌++◌, ◌≡◌, ◌⊎◌, String, Text,
  ◌==◌, codes, cut, trim_prefix, has_suffix, slash, if◌then◌else◌, Error, errorf, Result, ok, err,
  wrap, wrapf, ◌>>=◌,
}
use docker_backup.Base.Map.{Map, get, put, has}
use docker_backup.Base.Paths.{path_base, path_dir}
use docker_backup.Docker.{MountInfo, ContainerInfo, Daemon}
use docker_backup.Docker.Volumes.{
  Header, Item, Control, get_containers_using_volume, stop_container, start_container,
}
use docker_backup.Docker.Volumes.Item.{entry, broken, cancelled}
use docker_backup.Backup.{BackupType}

-- The packages tar and zstd. `compress` is what the writers have written for a list of entries, and
-- `items` what the readers meet in it. `write_header` and `write_content` are the answers of the
-- writer of a backup. `abandoned` is what the other end of a restore stream meets if a write to it has failed.
pub record Codec : Type 0 where
  pub new_writer : Result (Unit {0})
  pub write_header : Header → Result (Unit {0})
  pub write_content : Header → Text → Result (Unit {0})
  pub compress : List (Header × Text) → Text
  pub items : Text → Result (List Item)
  pub abandoned : List (Header × Text) → Error → List Item

abbrev pub volume_kind : Text
volume_kind = codes "volume"

-- The headers that backup and restore write have a new name, which ends in a slash if the old one
-- does.
unfoldable pub slash_as : Text → Text → Text
slash_as name new_name =
    if has_suffix name (slash ∷ []) && not (has_suffix new_name (slash ∷ []))
    then (new_name ++ slash ∷ [])
    else new_name

abbrev pub under_name : Text → Text → Text
under_name base rel = if rel == [] then base else (base ++ slash ∷ rel)

-- The name in the backup of an entry that Docker has named after the mount's last part.
unfoldable pub name_in_backup : Text → Text → Text → Text
unfolding slash_as
name_in_backup volume src_prefix name =
    slash_as name (under_name volume (trim_prefix (trim_prefix name src_prefix) (slash ∷ [])))

unfoldable pub split_volume_path : Text → Text × Text
split_volume_path name = elim (cut slash name) [
  | none ↦ (name, [])
  | some (volume, rest) ↦ (volume, trim_prefix rest (slash ∷ []))
]

-- The name in the archive for the container.
unfoldable pub name_in_container : Text → Text → Text → Text
unfolding slash_as
name_in_container dest rel name = slash_as name (under_name (path_base dest) rel)

abbrev pub renamed : Header → Text → Header
renamed h name = record { name = name; is_regular = h.is_regular; fields = h.fields }

-- What is written of an entry: its content only if it is a regular file.
abbrev pub written : Header → Text → Header × Text
written h body = if h.is_regular then (h, body) else (h, [])

-- What the writer accepts of a file: its header and, for a regular one, its content.
abbrev pub Accepted : Codec → Header × Text → Type 0
Accepted codec e =
    (codec.write_header e.0 ≡ ok tt)
    × ((e.0.is_regular ≡ false) ⊎ (codec.write_content e.0 e.1 ≡ ok tt))

-- Writing a header and, for a regular file, the content, with the writer's answers to the two.
unfoldable pub write_entry :
    String → Result (Unit {0}) → Result (Unit {0}) → Header → Text → Result (Header × Text)
write_entry format header_done content_done h body = do
  _ ← wrap "failed to write tar header: %w" [] header_done
  _ ← if h.is_regular then wrap format [] content_done else ok tt
  ok (written h body)

-- The loop of addVolumeToTar, with the entries of the backup so far.
unfoldable pub add_items :
    Codec → Text → Text → List Item → List (Header × Text) → Result (List (Header × Text))
unfolding write_entry name_in_backup
add_items codec volume src_prefix [] out = ok out
add_items codec volume src_prefix (cancelled e ∷ items) out = err e
add_items codec volume src_prefix (broken e ∷ items) out =
    err (wrapf "failed to read volume archive: %w" [] e)
add_items codec volume src_prefix (entry old body ∷ items) out = do
  let h = renamed old (name_in_backup volume src_prefix old.name)
  e ←
      write_entry "failed to write file to tar: %w" (codec.write_header h)
        (codec.write_content h body) h body
  add_items codec volume src_prefix items (out ++ (e ∷ []))

-- The names of the mounted volumes.
unfoldable pub volume_names : List MountInfo → List Text
volume_names [] = []
volume_names (m ∷ ms) =
    let rest = volume_names ms in if m.kind == volume_kind then m.name ∷ rest else rest

module _ {W : Type 0} (d : Daemon W) (control : Control W) where
  -- restartContainers, with the containers that are on the map and whether they were running. A
  -- start that fails is logged.
  unfoldable pub restart_containers : Map Bool → W → W
  unfolding start_container
  restart_containers [] w = w
  restart_containers ((id, true) ∷ more) w =
      restart_containers more (start_container d control id w).1
  restart_containers ((id, false) ∷ more) w = restart_containers more w

  -- The loop over the containers of a volume, with the map so far. If a stop fails, the containers
  -- on the map are restarted.
  unfoldable pub stop_each : List ContainerInfo → Map Bool → W → Result (Map Bool) × W
  unfolding restart_containers stop_container
  stop_each [] stopped w = (ok stopped, w)
  stop_each (c ∷ cs) stopped w = elim (has c.id stopped) [
    | true ↦ stop_each cs stopped w
    | false ↦ elim c.running [
      | false ↦ stop_each cs (put c.id false stopped) w
      | true ↦
          let (r, v) = stop_container d control c.id 30 w in
          elim r [
            | err e ↦ (
              err (wrapf "failed to stop container %s: %w" (c.name ∷ []) e),
              restart_containers stopped v,
            )
            | ok _ ↦ stop_each cs (put c.id true stopped) v
          ]
    ]
  ]

  -- The loop over the volumes. A volume whose containers are not found is skipped.
  unfoldable pub stop_all : List Text → Map Bool → W → Result (Map Bool) × W
  unfolding stop_each get_containers_using_volume
  stop_all [] stopped w = (ok stopped, w)
  stop_all (volume ∷ volumes) stopped w = elim (get_containers_using_volume d control volume w) [
    | err e ↦ stop_all volumes stopped w
    | ok cs ↦
        let (r, v) = stop_each cs stopped w in
        elim r [ err e ↦ (err e, v) | ok more ↦ stop_all volumes more v ]
  ]

  module _ (codec : Codec) where
    unfoldable pub add_volume_to_tar :
        Text → Text → Text → List (Header × Text) → W → Result (List (Header × Text))
    unfolding add_items
    add_volume_to_tar id volume mount_path out w = do
      items ← wrap "failed to copy volume from container: %w" [] (control.copy_from id mount_path w)
      add_items codec volume (path_base mount_path) items out

    -- The loop of Backup over the mounts.
    unfoldable pub add_mounts :
        Text → List MountInfo → List (Header × Text) → W → Result (List (Header × Text))
    unfolding add_volume_to_tar
    add_mounts id [] out w = ok out
    add_mounts id (m ∷ ms) out w = elim (m.kind == volume_kind) [
      | false ↦ add_mounts id ms out w
      | true ↦ do
        more ←
            wrap "failed to backup volume %s: %w" (m.name ∷ [])
              (add_volume_to_tar id m.name m.destination out w)
        add_mounts id ms more w
    ]

    -- What Backup writes once the containers have stopped.
    unfoldable pub archive : ContainerInfo → W → Result Text
    unfolding add_mounts
    archive c w = do
      _ ← wrap "failed to create zstd writer: %w" [] codec.new_writer
      entries ← add_mounts c.id c.mounts [] w
      ok (codec.compress entries)

    unfoldable pub backup : ContainerInfo → W → Result Text × W
    unfolding stop_all restart_containers archive volume_names
    backup c w = elim c.mounts [
      | [] ↦ (err (errorf "container %s has no mounted volumes" (c.name ∷ [])), w)
      | m ∷ ms ↦
          let (r, v) = stop_all (volume_names c.mounts) [] w in
          elim r [ err e ↦ (err e, v) | ok stopped ↦ (archive c v, restart_containers stopped v) ]
    ]
