-- ===== src/Tests/Jobs.antt =====
-- The scheduler over a table of cron entries, and the manager over that scheduler and a Docker
-- daemon with fixed answers.
use docker_backup.Base.{
  inl, ℕ, Bool, true, false, List, [], ◌∷◌, ◌≡◌, refl, sym, subst, if◌then◌else◌, Text, codes, ◌==◌,
  colon, contains, none, some, errorf, Result, ok, err, ok_injective,
}
use docker_backup.Base.Map.{get, NodupKeys}
use docker_backup.Config.Labels.{BackupConfig, ContainerConfig}
use docker_backup.Docker.{Daemon, Inspect, ContainerInfo, container_info}
use docker_backup.Scheduler.{Scheduler, add_job, scheduled}
use docker_backup.Scheduler.Laws.{IsConsistent, add_job-IsConsistent, scheduled-add_job}
use docker_backup.Scheduler.Api.{Jobs, scheduler_jobs}
use docker_backup.Storage.Pools.{get_for_container}
use docker_backup.Backup.{BackupType, Env, Job}
use docker_backup.Backup.Schedule.{make_job_key, Manager, handle_event}
use docker_backup.Backup.Schedule.Race.{interleaved, interleaved_leaves_job}
use docker_backup.Backup.Schedule.Keys.{IsSchedulable, job_of}
use docker_backup.Backup.Schedule.Owned.{IsOwned}
use docker_backup.Backup.Schedule.Events.{run_events, run_events-IsOwned}
use docker_backup.Backup.Schedule.Complete.{IsComplete}
use docker_backup.Backup.Schedule.Synced.{IsDocker, IsPlain, handle_event-IsComplete}
use docker_backup.Tests.World.{
  World, ok_no_err, memory, Table, table_cron, table_lawful, by_name, by_time,
}

abbrev pub empty_table : {J : Type 0} → Table J
empty_table = record { next = 0; entry = λ j. none; free = λ j h. refl }

-- The scheduler with jobs that are numbers.
abbrev idle : Scheduler (table_cron {Job = ℕ})
idle = record { cron = empty_table; jobs = [] }

idle-IsConsistent : IsConsistent (table_cron {Job = ℕ}) idle
unfolding get
idle-IsConsistent = record {
  live = λ k id h. cc;
  injective = λ j k id h i. cc;
  owned = λ id run h. cc;
}

add_job-IsConsistent_example :
    IsConsistent
      (table_cron {Job = ℕ})
      (add_job table_cron (codes "c:db") (codes "@daily") 5 idle).1
add_job-IsConsistent_example =
    add_job-IsConsistent table_cron table_lawful idle idle-IsConsistent (codes "c:db")
      (codes "@daily") 5

scheduled-add_job_example :
    scheduled table_cron
      (codes "c:db")
      (add_job table_cron (codes "c:db") (codes "@daily") 5 idle).1
    ≡ (if codes "c:db" == codes "c:db"
        then (if (table_cron {Job = ℕ}).accepts (codes "@daily")
            then some (codes "@daily", 5)
            else none)
        else scheduled table_cron (codes "c:db") idle)
scheduled-add_job_example =
    scheduled-add_job table_cron table_lawful idle idle-IsConsistent (codes "c:db") (codes "@daily")
      5 (codes "c:db")

-- A container that asks for one backup, and a daemon that knows no other.
abbrev pub web_inspect : Inspect
web_inspect = record {
  id = codes "c1";
  name = codes "/web";
  labels =
      (codes "docker-backup.enable", codes "true")
      ∷ (codes "docker-backup.db.type", codes "mysql")
      ∷ (codes "docker-backup.db.schedule", codes "@daily")
      ∷ [];
  env = [];
  networks = [];
  running = true;
  mounts = [];
}

abbrev pub answer : Bool → Result Inspect
answer true = ok web_inspect
answer false = err (errorf "no such container" [])

abbrev pub one_container : Daemon World
one_container = record {
  container_list = λ w. ok (codes "c1" ∷ []);
  container_inspect = λ id w. answer (id == codes "c1");
}

abbrev pub mysql : BackupType World
mysql = record {
  name = codes "mysql";
  file_extension = codes ".sql";
  validate = λ c. ok tt;
  backup = λ c w. (ok (codes "dump"), w);
  restore = λ c body w. (ok tt, w);
}

abbrev pub env : Env World
env = record {
  daemon = one_container;
  pools = record { pools = (codes "local", memory) ∷ []; default_pool = codes "local" };
  types = (codes "mysql", mysql) ∷ [];
  clock = record {
    now = λ w. w.now;
    date = λ t. codes "2026-01-01";
    time_of_day = λ t. codes "030000";
  };
  label_sorter = by_name;
  file_sorter = by_time;
}

abbrev pub jobs : Jobs (Job World)
jobs = scheduler_jobs table_cron table_lawful

abbrev pub no_files : World
no_files = record { now = 0; files = []; unique = tt }

abbrev pub start : Manager jobs env
start = record { containers = []; jobs = record { cron = empty_table; jobs = [] } }

start_valid : IsConsistent (table_cron {Job = Job World}) (record { cron = empty_table; jobs = [] })
unfolding get
start_valid = record { live = λ k id h. cc; injective = λ j k id h i. cc; owned = λ id run h. cc }

start-IsOwned : IsOwned jobs env start
unfolding scheduled get
start-IsOwned = record { valid = start_valid; owned = λ k spec job h. cc }

start-IsComplete : IsComplete jobs env start
unfolding get
start-IsComplete = record {
  valid = start_valid;
  plain = λ id cfg h. cc;
  distinct = λ id cfg h. cc;
  complete = λ id cfg h b m t c. cc;
}

web_once : NodupKeys web_inspect.labels
unfolding ◌==◌ codes get
web_once = (refl, (refl, (refl, tt)))

web_plain : contains colon (codes "c1") ≡ false
unfolding contains codes
web_plain = refl

pub one_container-IsDocker : IsDocker one_container
unfolding container_info
one_container-IsDocker = record { answers = λ id w i h. plain_answer (id == codes "c1") i h }
  where
    plain_answer : (known : Bool) (i : Inspect) → answer known ≡ ok i → IsPlain (container_info i)
    plain_answer true i h =
        subst (λ (x : Inspect). IsPlain (container_info x)) (ok_injective h)
          (record { id_plain = web_plain; labels_once = web_once })
    plain_answer false i h = absurd (ok_no_err (sym h))

abbrev events : List (Text × Text × World)
events =
    (codes "start", codes "c1", no_files)
    ∷ (codes "die", codes "c1", no_files)
    ∷ (codes "sync", [], no_files)
    ∷ []

run_events-IsOwned_example : IsOwned jobs env (run_events jobs env events start)
run_events-IsOwned_example = run_events-IsOwned jobs env events start start-IsOwned

handle_event-IsComplete_example :
    IsComplete jobs env (handle_event jobs env (codes "start") (codes "c1") no_files start)
handle_event-IsComplete_example =
    handle_event-IsComplete jobs env one_container-IsDocker (codes "start") (codes "c1") no_files
      start web_plain start-IsComplete

abbrev web_info : ContainerInfo
web_info = record {
  id = codes "c1";
  name = codes "web";
  labels = web_inspect.labels;
  env = [];
  network_ip = [];
  running = true;
  mounts = [];
}

abbrev pub db : BackupConfig
db = record {
  name = codes "db";
  backup_type = codes "mysql";
  schedule = codes "@daily";
  retention = 7;
  storage = [];
  notify = [];
}

abbrev pub web : ContainerConfig
web = record {
  container_id = codes "c1";
  container_name = codes "web";
  enabled = true;
  notify = [];
  backups = db ∷ [];
}

abbrev db_job : Job World
db_job = record { container_id = codes "c1"; cfg = web; backup = db; backup_type = mysql }

db-IsSchedulable : IsSchedulable jobs env db mysql
unfolding get codes ◌==◌ get_for_container
db-IsSchedulable = record { type_known = refl; pool = memory; pool_known = refl; accepted = refl }

interleaved_leaves_job_example :
    (get (codes "c1") (interleaved jobs env (codes "c1") web start).containers ≡ none)
    × (jobs.find
          (make_job_key (codes "c1") (codes "db"))
          (interleaved jobs env (codes "c1") web start).jobs
        ≡ some (codes "@daily", job_of jobs env (codes "c1") web db mysql))
interleaved_leaves_job_example =
    interleaved_leaves_job jobs env (codes "c1") web start db mysql start-IsOwned web_plain (tt, tt)
      (inl refl) db-IsSchedulable
