-- ===== src/Tests/Volumes.antt =====
-- Docker with a few containers, an encoding of archives as text, and the volume backup over them.
use docker_backup.Base.{
  ℕ, zero, suc, ◌||◌, Bool, true, false, List, [], ◌∷◌, ◌++◌, map, ◌≡◌, ◌≢◌, ◌⊎◌, inr, All, refl,
  sym, ap, subst, arith, Text, codes, ◌==◌, split, cut, trim_prefix, contains, slash, has_suffix,
  has_prefix, select, if◌then◌else◌, Error, errorf, Result, ok, err, ok_injective,
}
use docker_backup.Base.Map.{Map, get, put}
use docker_backup.Base.Paths.{path_base, path_dir}
use docker_backup.Base.Strings.Laws.{==_iff, split-append}
use docker_backup.Docker.{MountInfo, ContainerInfo, Daemon, Inspect, get_container}
use docker_backup.Docker.Volumes.{Header, Item, Control}
use docker_backup.BackupTypes.Volume.{
  Codec, Accepted, volume_names, stop_all, restart_containers, backup, split_volume_path,
}
use docker_backup.BackupTypes.Volume.Restore.{item_of, restore}
use docker_backup.BackupTypes.Volume.Naming.{Rooted}
use docker_backup.BackupTypes.Volume.Stopping.{IsControl, StopFailed}
use docker_backup.BackupTypes.Volume.Restarts.{backup_restarts, restore_restarts}
use docker_backup.BackupTypes.Volume.Archived.{in_backup, Taken, is_volume, IsArchive, copy_all}
use docker_backup.BackupTypes.Volume.RoundTrip.{restore-backup}
use docker_backup.Tests.World.{ok_no_err}

-- An archive as text: each part of an entry, moved away from 0, and a 0 behind it.
abbrev pub part : Text → Text
part = map suc

abbrev pub down : ℕ → ℕ
down zero = 0
down (suc n) = n

abbrev pub flag : Bool → Text
flag true = 1 ∷ []
flag false = []

abbrev pub regular : Text → Bool
regular [] = false
regular (_ ∷ _) = true

abbrev pub pack : List (Header × Text) → Text
pack [] = []
pack ((h, body) ∷ es) =
    flag h.is_regular ++ 0 ∷ (part h.name ++ 0 ∷ (part h.fields ++ 0 ∷ (part body ++ 0 ∷ pack es)))

abbrev pub unpack_parts : List Text → List Item
unpack_parts (r ∷ n ∷ f ∷ b ∷ more) =
    Item.entry (record { name = map down n; is_regular = regular r; fields = map down f })
      (map down b)
    ∷ unpack_parts more
unpack_parts _ = []

part_free : (s : Text) → contains 0 (part s) ≡ false
unfolding contains
part_free [] = refl
part_free (x ∷ s) = ground (arith, part_free s)

down-part : (s : Text) → map down (part s) ≡ s
down-part [] = refl
down-part (x ∷ s) = ap (x ∷◌) (down-part s)

flag_free : (r : Bool) → contains 0 (flag r) ≡ false
unfolding contains
flag_free true = refl
flag_free false = refl

regular-flag : (r : Bool) → regular (flag r) ≡ r
regular-flag true = refl
regular-flag false = refl

pub unpack-pack : (es : List (Header × Text)) → unpack_parts (split 0 (pack es)) ≡ map item_of es
unfolding split
unpack-pack [] = refl
unpack-pack ((h, body) ∷ es) =
    rw
      (
        split-append 0 (flag h.is_regular)
            (part h.name ++ 0 ∷ (part h.fields ++ 0 ∷ (part body ++ 0 ∷ pack es)))
            (flag_free h.is_regular),
        split-append 0 (part h.name) (part h.fields ++ 0 ∷ (part body ++ 0 ∷ pack es))
            (part_free h.name),
        split-append 0 (part h.fields) (part body ++ 0 ∷ pack es) (part_free h.fields),
        split-append 0 (part body) (pack es) (part_free body),
        down-part h.name,
        down-part h.fields,
        down-part body,
        regular-flag h.is_regular,
        unpack-pack es,
      )
      refl

abbrev pub text_codec : Codec
text_codec = record {
  new_writer = ok tt;
  write_header = λ h. ok tt;
  write_content = λ h body. ok tt;
  compress = pack;
  items = λ s. ok (unpack_parts (split 0 s));
  abandoned = λ es e. map item_of es ++ Item.broken e ∷ [];
}

-- Which containers run, and what has been copied.
record Dock : Type 0 where
  up : Text → Bool
  copied : List (Text × List Item)

abbrev info_of : Text → Bool → Inspect
info_of id running = record {
  id = id;
  name = id;
  labels = [];
  env = [];
  networks = [];
  running = running;
  mounts = [];
}

abbrev dock_daemon : Daemon Dock
dock_daemon = record {
  container_list = λ w. ok [];
  container_inspect = λ id w. ok (info_of id (w.up id));
}

abbrev switched : Text → Bool → Dock → Dock
switched id b w = record { up = λ j. if id == j then b else w.up j; copied = w.copied }

-- The container "stuck" does not stop.
abbrev stop_unless : Bool → Text → Dock → Result (Unit {0}) × Dock
stop_unless true id w = (err (errorf "timeout" []), w)
stop_unless false id w = (ok tt, switched id false w)

abbrev two_entries : Text → List (Header × Text)
two_entries path =
    (record { name = path_base path ++ slash ∷ []; is_regular = false; fields = [] }, [])
    ∷ (
      record {
        name = path_base path ++ slash ∷ codes "a/b.txt";
        is_regular = true;
        fields = codes "0644";
      },
      codes "hello",
    )
    ∷ []

abbrev dock_control : Control Dock
dock_control = record {
  containers_using = λ volume w. ok (codes "app" ∷ codes "idle" ∷ codes "db" ∷ []);
  container_stop = λ id seconds w. stop_unless (id == codes "stuck") id w;
  container_start = λ id w. (ok tt, switched id true w);
  copy_from = λ id path w. ok (map item_of (two_entries path));
  copy_to = λ id target items w. (ok tt, record { up = w.up; copied = (target, items) ∷ w.copied });
  takes_header = λ id target items h w. ok tt;
  takes_content = λ id target items h body w. ok tt;
}

stop_unless_stops :
    (refuse : Bool) (id : Text) (w v : Dock) (j : Text)
    → stop_unless refuse id w ≡ (ok tt, v)
    → v.up j ≡ (if id == j then false else w.up j)
stop_unless_stops true id w v j h =
    absurd (ok_no_err (sym (ap (λ (p : Result (Unit {0}) × Dock). p.0) h)))
stop_unless_stops false id w v j h = ap (λ (p : Result (Unit {0}) × Dock). p.1.up j) (sym h)

stop_unless_spares :
    (refuse : Bool) (id : Text) (w : Dock) (j : Text)
    → (id == j) ≡ false
    → (stop_unless refuse id w).1.up j ≡ w.up j
stop_unless_spares true id w j h = refl
stop_unless_spares false id w j h = rw h refl

dock_truthful :
    (id : Text) (w : Dock) (c : ContainerInfo)
    → get_container dock_daemon id w ≡ ok c
    → w.up c.id ≡ c.running
unfolding get_container
dock_truthful id w c h = subst (λ (c : ContainerInfo). w.up c.id ≡ c.running) (ok_injective h) refl

abbrev dock_lawful : IsControl dock_daemon dock_control
dock_lawful = record {
  running = λ j w. w.up j;
  truthful = dock_truthful;
  stops = λ id seconds w v j h. stop_unless_stops (id == codes "stuck") id w v j h;
  spares = λ id seconds w j h. stop_unless_spares (id == codes "stuck") id w j h;
  starts = λ id w v j h. ap (λ (p : Result (Unit {0}) × Dock). p.1.up j) (sym h);
  copies = λ id target items w j. refl;
}

abbrev data_mount : MountInfo
data_mount = record {
  kind = codes "volume";
  name = codes "data";
  source = [];
  destination = codes "/var/lib/data";
}

abbrev bind_mount : MountInfo
bind_mount = record {
  kind = codes "bind";
  name = [];
  source = codes "/etc";
  destination = codes "/conf";
}

abbrev logs_mount : MountInfo
logs_mount = record {
  kind = codes "volume";
  name = codes "logs";
  source = [];
  destination = codes "/logs";
}

abbrev app : ContainerInfo
app = record {
  id = codes "app";
  name = codes "app";
  labels = [];
  env = [];
  network_ip = [];
  running = true;
  mounts = data_mount ∷ bind_mount ∷ logs_mount ∷ [];
}

abbrev two_up : Dock
two_up = record { up = λ j. (j == codes "app") || (j == codes "db"); copied = [] }

backup_restarts_example :
    ((backup dock_daemon dock_control text_codec app two_up).1.up (codes "db")
      ≡ two_up.up (codes "db"))
    ⊎ ((e : Error) × StopFailed dock_daemon dock_control dock_lawful (λ id w. refl) e (codes "db")
        × ((backup dock_daemon dock_control text_codec app two_up).0 ≡ err e))
backup_restarts_example =
    backup_restarts dock_daemon dock_control dock_lawful (λ id w. refl) text_codec app two_up
      (codes "db")

restore_restarts_example :
    ((restore dock_daemon dock_control text_codec app (pack (two_entries (codes "/x"))) two_up).1.up
        (codes "idle")
      ≡ two_up.up (codes "idle"))
    ⊎ ((e : Error) × StopFailed dock_daemon dock_control dock_lawful (λ id w. refl) e (codes "idle")
        × ((restore dock_daemon dock_control text_codec app
              (pack (two_entries (codes "/x")))
              two_up).0
            ≡ err e))
restore_restarts_example =
    restore_restarts dock_daemon dock_control dock_lawful (λ id w. refl) text_codec app
      (pack (two_entries (codes "/x"))) two_up (codes "idle")

-- The world once the containers have stopped, and the map.
abbrev halted : Dock
halted = (stop_all dock_daemon dock_control (volume_names app.mounts) [] two_up).1

abbrev halted_map : Map Bool
halted_map = (codes "app", true) ∷ (codes "idle", false) ∷ (codes "db", true) ∷ []

abbrev archive_of : MountInfo → List (Header × Text)
archive_of m = two_entries m.destination

two_entries-IsArchive :
    (m : MountInfo)
    → contains slash m.name ≡ false
    → has_suffix (path_base m.destination) (slash ∷ []) ≡ false
    → IsArchive m (archive_of m)
unfolding has_prefix codes
two_entries-IsArchive m plain inner = record {
  plain = plain;
  inner = inner;
  filled = λ e. cc;
  entries = ((Rooted.below [] refl, refl), ((Rooted.below (codes "a/b.txt") refl, refl), tt));
}

apart : (s t : Text) → (s == t) ≡ false → s ≢ t
apart s t h e = ground (arith, ==_iff s t)

restore-backup_example :
    (body : Text) × ((backup dock_daemon dock_control text_codec app two_up).0 ≡ ok body)
    × ((u x : Dock) (again : Map Bool)
        → stop_all dock_daemon dock_control (volume_names app.mounts) [] u ≡ (ok again, x)
        → restore dock_daemon dock_control text_codec app body u ≡ (
          (copy_all archive_of dock_control app.id (select is_volume app.mounts) x).0,
          restart_containers dock_daemon dock_control again
              (copy_all archive_of dock_control app.id (select is_volume app.mounts) x).1,
        ))
unfolding select codes contains has_suffix path_base stop_all volume_names ◌==◌ get put
restore-backup_example =
    restore-backup dock_daemon dock_control text_codec refl (λ es fits. ap ok (unpack-pack es)) app
      archive_of ((apart _ _ refl, tt), (tt, tt)) (λ e. cc) two_up halted halted_map refl
      (
        (two_entries-IsArchive data_mount refl refl, accepted data_mount, taken data_mount, refl),
        (
          (two_entries-IsArchive logs_mount refl refl, accepted logs_mount, taken logs_mount, refl),
          tt,
        ),
      )
  where
    accepted : (m : MountInfo) → All (λ e. Accepted text_codec (in_backup m e)) (archive_of m)
    accepted m = ((refl, inr refl), ((refl, inr refl), tt))

    taken : (m : MountInfo) → Taken dock_control app.id (path_dir m.destination) [] (archive_of m)
    taken m = ((λ w. (refl, inr refl)), ((λ w. (refl, inr refl)), tt))

-- The restore copies the archives to the volumes' parents, and all that ran runs again.
test_restore :
    (restore dock_daemon dock_control text_codec app
      (pack (two_entries (codes "/data")))
      two_up).1.copied
    ≡ (codes "/var/lib", map item_of (two_entries (codes "/var/lib/data"))) ∷ []
unfolding restore ◌==◌ codes put get split path_base split_volume_path cut path_dir has_suffix
    trim_prefix
test_restore = refl
