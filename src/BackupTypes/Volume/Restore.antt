-- ===== src/BackupTypes/Volume/Restore.antt =====
-- internal/backuptypes/volume/volume.go: Restore, and the volume backup as a backup type. A stream to
-- the container is the list of what has been written to it: CopyToContainer, which reads it in the
-- background, has its effect when the stream is closed.
use docker_backup.Base.{
  true, false, Option, none, some, List, [], ◌∷◌, ◌++◌, map, Text, ◌==◌, codes, if◌then◌else◌,
  Error, errorf, Result, ok, err, wrap, wrapf,
}
use docker_backup.Base.Map.{Map, get, put}
use docker_backup.Base.Paths.{path_dir}
use docker_backup.Docker.{MountInfo, ContainerInfo, Daemon}
use docker_backup.Docker.Volumes.{Header, Item, Control}
use docker_backup.Docker.Volumes.Item.{entry, broken, cancelled}
use docker_backup.Backup.{BackupType}
use docker_backup.BackupTypes.Volume.{
  Codec, volume_kind, split_volume_path, name_in_container, renamed, write_entry, volume_names,
  restart_containers, stop_all, backup,
}

pub record Stream : Type 0 where
  pub volume_name : Text
  pub dest : Text
  pub written : List (Header × Text)

-- The destinations of the mounted volumes, where the last mount of a volume wins.
unfoldable pub volume_dests : List MountInfo → Map Text → Map Text
volume_dests [] dests = dests
volume_dests (m ∷ ms) dests =
    volume_dests ms (if m.kind == volume_kind then put m.name m.destination dests else dests)

abbrev pub item_of : Header × Text → Item
item_of (h, body) = entry h body

unfoldable pub validate : ContainerInfo → Result (Unit {0})
validate c = elim c.mounts [
  | [] ↦ err (errorf "container %s has no mounted volumes" (c.name ∷ []))
  | m ∷ ms ↦ ok tt
]

module _ {W : Type 0} (control : Control W) (codec : Codec) (id : Text) (dests : Map Text) where
  -- The end of a stream: what has been written is copied to the parent of the destination, with the
  -- error of the closing of the writer or the pipe, or of the copy.
  unfoldable pub close : Stream → W → Result (Unit {0}) × W
  close s w = control.copy_to id (path_dir s.dest) (map item_of s.written) w

  -- finishCurrent
  unfoldable pub finish_current : Option Stream → W → Result (Unit {0}) × W
  unfolding close
  finish_current none w = (ok tt, w)
  finish_current (some s) w = close s w

  -- The end of a stream to which a write has failed.
  unfoldable pub abandon : Stream → Error → W → W
  abandon s e w = (control.copy_to id (path_dir s.dest) (codec.abandoned s.written e) w).1

  -- The stream for a volume: the current one if it is of this volume, or a new one after the current
  -- one has ended.
  unfoldable pub stream_for : Text → Text → Option Stream → W → Result Stream × W
  unfolding finish_current
  stream_for volume dest current w =
      let fresh : Stream = record { volume_name = volume; dest = dest; written = [] } in
      elim current [
        | none ↦ (ok fresh, w)
        | some s ↦ elim (s.volume_name == volume) [
          | true ↦ (ok s, w)
          | false ↦
              let (r, v) = close s w in
              elim r [
                | err e ↦ (err (wrapf "failed to restore volume: %w" [] e), v)
                | ok _ ↦ (ok fresh, v)
              ]
        ]
      ]

  -- Writing an entry to a stream.
  unfoldable pub send_entry : Stream → Header → Text → W → Result (Header × Text)
  unfolding write_entry
  send_entry s h body w =
      let so_far = map item_of s.written in
      write_entry "failed to write file: %w" (control.takes_header id (path_dir s.dest) so_far h w)
        (control.takes_content id (path_dir s.dest) so_far h body w) h body

  unfoldable pub extended : Stream → Header × Text → Stream
  extended s e = record {
    volume_name = s.volume_name;
    dest = s.dest;
    written = s.written ++ (e ∷ []);
  }

  -- The loop of Restore over the entries of the backup. An entry of an unknown volume is skipped.
  unfoldable pub restore_items : List Item → Option Stream → W → Result (Unit {0}) × W
  unfolding finish_current stream_for extended send_entry abandon name_in_container
  restore_items [] current w =
      let (r, v) = finish_current current w in (wrap "failed to restore volume: %w" [] r, v)
  restore_items (cancelled e ∷ items) current w = (err e, (finish_current current w).1)
  restore_items (broken e ∷ items) current w =
      (err (wrapf "failed to read tar header: %w" [] e), (finish_current current w).1)
  restore_items (entry h body ∷ items) current w =
      let (volume, rel) = split_volume_path h.name in
      elim (get volume dests) [
        | none ↦ restore_items items current w
        | some dest ↦
            let (r, v) = stream_for volume dest current w in
            elim r [
              | err e ↦ (err e, v)
              | ok s ↦ elim (send_entry s (renamed h (name_in_container dest rel h.name)) body v) [
                | err e ↦ (err e, abandon s e v)
                | ok e ↦ restore_items items (some (extended s e)) v
              ]
            ]
      ]

  -- What Restore does once the containers have stopped.
  unfoldable pub restore_archive : Text → W → Result (Unit {0}) × W
  unfolding restore_items
  restore_archive body w = elim (wrap "failed to create zstd reader: %w" [] (codec.items body)) [
    | err e ↦ (err e, w)
    | ok items ↦ restore_items items none w
  ]

module _ {W : Type 0} (d : Daemon W) (control : Control W) (codec : Codec) where
  unfoldable pub restore : ContainerInfo → Text → W → Result (Unit {0}) × W
  unfolding volume_names volume_dests stop_all restart_containers restore_archive
  restore c body w = elim c.mounts [
    | [] ↦ (err (errorf "container %s has no mounted volumes" (c.name ∷ [])), w)
    | m ∷ ms ↦ elim (volume_dests c.mounts []) [
      | [] ↦ (err (errorf "container %s has no named volumes to restore" (c.name ∷ [])), w)
      | dest ∷ dests ↦
          let (r, v) = stop_all d control (volume_names c.mounts) [] w in
          elim r [
            | err e ↦ (err e, v)
            | ok stopped ↦
                let (q, u) = restore_archive control codec c.id (volume_dests c.mounts []) body v in
                (q, restart_containers d control stopped u)
          ]
    ]
  ]

  unfoldable pub volume_backup : BackupType W
  unfolding validate backup restore
  volume_backup = record {
    name = codes "volume";
    file_extension = codes ".tar.zst";
    validate = validate;
    backup = backup d control codec;
    restore = restore;
  }
