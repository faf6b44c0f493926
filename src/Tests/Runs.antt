-- ===== src/Tests/Runs.antt =====
-- Runs of a backup in memory, the operations on what they store, notifications and the API.
use docker_backup.Base.{
  List, trim_prefix, after_prefix, ◌^◌, slash, ◌++◌, select, has_prefix, ℕ, ◌+◌, ◌*◌, ◌≤◌, ◌<◌,
  true, false, [], ◌∷◌, ◌≡◌, ◌≢◌, ◌⊎◌, ◌↔◌, inl, inr, refl, ap, arith, if◌then◌else◌, Text, codes,
  ◌==◌, split, contains, trim_space, length, All, In, none, some, errorf, ok, err,
}
use docker_backup.Base.Map.{Map, get, NodupKeys}
use docker_backup.Config.Labels.{ContainerConfig}
use docker_backup.Docker.{get_container, container_info}
use docker_backup.Storage.{BackupFile}
use docker_backup.Storage.Pools.{get_for_container}
use docker_backup.Notification.{Event, backup_failed}
use docker_backup.Notification.Dispatch.{Notifier, names, notify, Sends, notify-Sends}
use docker_backup.Notification.Sizes.{
  plain, scaled, get_elem?, round_even, float64, format_size, Nearest, format_size_lem,
}
use docker_backup.Backup.{BackupType}
use docker_backup.Backup.Keys.{backup_prefix, generate_backup_key, get_storage_for_backup_key}
use docker_backup.Backup.Keys.RoundTrip.{
  Named, get_storage-generate_backup_key, generate_backup_key-prefix,
}
use docker_backup.Backup.Run.{get_notify_providers, finish_run, run_backup}
use docker_backup.Backup.Run.Outcome.{run_backup_reports, finish_run_keeps}
use docker_backup.Backup.Stored.{find_container_config, delete_backup, run_all}
use docker_backup.Backup.Stored.Access.{run_all_ok, delete_backup_generated}
use docker_backup.Api.{
  Server, reply, handle_backup_run, handle_backup_delete, delete_request, Request,
}
use docker_backup.Api.Guards.{
  IsWord, IsPlain, Deletes, run_container, IsRefusal, Tells, handle_backup_delete_request,
  handle_backup_delete_cases, handle_backup_run_cases,
}
use docker_backup.Tests.World.{World, memory, memory_lawful}
use docker_backup.Tests.Jobs.{env, web, db, mysql, web_inspect, no_files}

local_pool : get_for_container World env.pools db.storage ≡ ok memory
unfolding get_for_container get codes ◌==◌
local_pool = refl

abbrev key : Text
key = generate_backup_key env web.container_name db.name (codes ".sql") 0

abbrev stored : BackupFile
stored = record { key = key; size = 4; last_modified = 0 }

-- The world after one run has stored its backup.
abbrev one_file : World
one_file = record { now = 1; files = stored ∷ []; unique = (tt, tt) }

web-Named : Named web.backups
unfolding codes
web-Named = ((λ h. cc), tt)

web_slash : contains slash web.container_name ≡ false
unfolding contains codes
web_slash = refl

db_slash : contains slash db.name ≡ false
unfolding contains codes
db_slash = refl

get_storage-generate_backup_key_example :
    get_storage_for_backup_key env web key ≡ get_for_container World env.pools db.storage
get_storage-generate_backup_key_example =
    get_storage-generate_backup_key env web db (codes ".sql") 0 web_slash db_slash web-Named
      (tt, tt) (inl refl)

generate_backup_key-prefix_example :
    (has_prefix key (backup_prefix (codes "web") (codes "db")) ≡ true
      → (codes "web" ≡ codes "web") × (codes "db" ≡ codes "db"))
    × (has_prefix key (backup_prefix (codes "web") (codes "db")) ≡ true)
generate_backup_key-prefix_example =
    generate_backup_key-prefix env (codes "web") (codes "db") (codes "web") (codes "db")
      (codes ".sql") 0 web_slash db_slash web_slash db_slash

abbrev loud : ContainerConfig
loud = record web { notify = codes "slack" ∷ [] }

web_found : get_container env.daemon (codes "c1") no_files ≡ ok (container_info web_inspect)
unfolding get_container codes ◌==◌
web_found = refl

web_running : (container_info web_inspect).running ≡ true
unfolding container_info
web_running = refl

slack_only : get_notify_providers loud db ≡ codes "slack" ∷ []
unfolding get_notify_providers
slack_only = refl

run_backup_reports_example : length (run_backup env loud db (codes "c1") mysql no_files).0 ≡ 1
run_backup_reports_example =
    run_backup_reports env loud db (codes "c1") mysql no_files (codes "slack") []
      (container_info web_inspect) slack_only web_found web_running

stored_under : has_prefix key (backup_prefix (codes "web") (codes "db")) ≡ true
stored_under = generate_backup_key-prefix_example.1

listed_one : memory.list (backup_prefix (codes "web") (codes "db")) one_file ≡ ok (stored ∷ [])
unfolding select has_prefix codes generate_backup_key
listed_one = refl

only_stored :
    (g : BackupFile)
    → In g one_file.files
    → has_prefix g.key (backup_prefix (codes "web") (codes "db")) ≡ true
    → g.key ≢ key
    → docker_backup.Retention.newer stored g ≡ true
only_stored g (inl e) p n = absurd (n (ap (λ (f : BackupFile). f.key) e))
only_stored g (inr m) p n = absurd m

finish_run_keeps_example :
    (g : BackupFile) × In g (
      docker_backup.Storage.IsLawful.files memory_lawful
        (finish_run env web db key (codes "dump") 0 one_file).1)
    × (g.key ≡ key)
finish_run_keeps_example =
    finish_run_keeps env web db key (codes "dump") 0 one_file memory memory_lawful local_pool
      (stored ∷ []) listed_one stored (inl refl) stored_under (omega arith) only_stored

run_all_ok_example :
    ((run_all env [] web (codes "c1") (db ∷ []) no_files).0 ≡ ok tt)
    ↔ All (λ b. (t : BackupType World) × (get b.backup_type env.types ≡ some t)) (db ∷ [])
run_all_ok_example = run_all_ok env [] web (codes "c1") (db ∷ []) no_files

abbrev tracked : Map ContainerConfig
tracked = (codes "c1", web) ∷ []

web_tracked : find_container_config env tracked (codes "web") one_file ≡ ok (web, codes "c1")
unfolding find_container_config codes ◌==◌
web_tracked = refl

deleted : (delete_backup env tracked (codes "web") key one_file).0 ≡ ok tt
unfolding delete_backup codes ◌==◌ get_storage_for_backup_key generate_backup_key get_for_container
    get split
deleted = refl

delete_backup_generated_example :
    In stored (delete_backup env tracked (codes "web") key one_file).1.files
    ↔ (In stored one_file.files × (stored.key ≢ key))
delete_backup_generated_example =
    delete_backup_generated env tracked (codes "web") (codes "c1") (codes ".sql") web db 0 one_file
      memory memory_lawful web_tracked web_slash db_slash web-Named (tt, tt) (inl refl) local_pool
      deleted stored

-- Two notifiers, of which one is asked for twice.
abbrev notifier : Notifier ℕ
notifier = record { name = codes "slack"; send = λ e n. (ok tt, n + 1) }

abbrev one_notifier : Map (Notifier ℕ)
one_notifier = (codes "slack", notifier) ∷ []

abbrev failure : Event
failure = record {
  event_type = backup_failed;
  container_name = codes "web";
  backup_type = codes "mysql";
  backup_key = codes "web/db/1";
  size = 0;
  duration = 0;
  error = none;
  timestamp = 0;
}

abbrev asked : List Text
asked = codes "slack" ∷ codes "slack" ∷ codes "mail" ∷ []

notify-Sends_example :
    (chosen : Map (Notifier ℕ)) × NodupKeys chosen
    × ((k : Text) → get k chosen ≡ (if names k asked then get k one_notifier else none))
    × Sends failure chosen 0 (notify one_notifier failure asked 0)
notify-Sends_example = notify-Sends one_notifier failure asked 0

format_size_lem_example :
    ((5000000 < 1024) × (format_size 5000000 ≡ plain 5000000))
    ⊎ ((exp letter tenths : ℕ) × (exp ≤ 5)
        × (get_elem? (codes "KMGTPE") exp ≡ some letter)
        × (1024 ^ (exp + 1) ≤ 5000000)
        × (5000000 < 1024 ^ (exp + 1) * 1024)
        × (format_size 5000000 ≡ scaled tenths letter)
        × Nearest (10 * float64 5000000) (1024 ^ (exp + 1)) tenths)
format_size_lem_example = format_size_lem 5000000 (omega arith)

-- 1048575 is printed as "1024.0 KB".
rounded_up : format_size 1048575 ≡ scaled 10240 75
unfolding format_size codes get_elem? float64 round_even
rounded_up = refl

-- A server that counts its calls.
abbrev counting : Server ℕ
counting = record {
  backup_trigger = λ container n. (ok tt, n + 1);
  backup_lister = λ container n. ok [];
  backup_deleter = λ container key n. (ok tt, n + 1);
  backup_restorer = λ container key n. (err (errorf "no" []), n + 1);
}

web-IsWord : IsWord (codes "web")
unfolding trim_space codes
web-IsWord = record { not_empty = λ h. cc; trimmed = refl }

key-IsWord : IsWord (codes "web/db/1")
unfolding trim_space codes
key-IsWord = record { not_empty = λ h. cc; trimmed = refl }

-- URLs that are passed on as they are.
passed_on : (path : Text) → IsPlain path → some path ≡ some path
passed_on path taken = refl

delete_path : IsPlain (codes "/backup/delete/" ++ (codes "web" ++ slash ∷ codes "web/db/1"))
unfolding codes split trim_prefix has_prefix after_prefix ◌==◌
delete_path = record { chars = refl; segments = refl }

handle_backup_delete_request_example :
    (r : Request) × (delete_request some (codes "web") (codes "web/db/1") ≡ some r)
    × (handle_backup_delete counting r 0
        ≡ (reply (codes "web") (codes "web/db/1") (codes "backup deleted successfully") (ok tt), 1))
handle_backup_delete_request_example =
    handle_backup_delete_request counting some passed_on (codes "web") (codes "web/db/1") 0
      delete_path web_slash web-IsWord key-IsWord

abbrev delete_web : Request
delete_web = record { verb = codes "DELETE"; path = codes "/backup/delete/web/k" }

handle_backup_delete_cases_example :
    (IsRefusal (handle_backup_delete counting delete_web 0).0
      × ((handle_backup_delete counting delete_web 0).1 ≡ 0)
      × ((codes "DELETE" ≢ codes "DELETE")
          ⊎ ((container key : Text) → Deletes delete_web container key → ⊥)))
    ⊎ ((container : Text) × (key : Text) × (codes "DELETE" ≡ codes "DELETE")
        × Deletes delete_web container key
        × ((handle_backup_delete counting delete_web 0).1
            ≡ (counting.backup_deleter container key 0).1)
        × Tells
            (handle_backup_delete counting delete_web 0).0
            (counting.backup_deleter container key 0).0)
handle_backup_delete_cases_example = handle_backup_delete_cases counting delete_web 0

abbrev run_web : Request
run_web = record { verb = codes "POST"; path = codes "/backup/run/web" }

handle_backup_run_cases_example :
    (IsRefusal (handle_backup_run counting run_web 0).0
      × ((handle_backup_run counting run_web 0).1 ≡ 0)
      × ((codes "POST" ≢ codes "POST") ⊎ (run_container run_web ≡ [])))
    ⊎ ((codes "POST" ≡ codes "POST")
        × (run_container run_web ≢ [])
        × ((handle_backup_run counting run_web 0).1
            ≡ (counting.backup_trigger (run_container run_web) 0).1)
        × Tells
            (handle_backup_run counting run_web 0).0
            (counting.backup_trigger (run_container run_web) 0).0)
handle_backup_run_cases_example = handle_backup_run_cases counting run_web 0
