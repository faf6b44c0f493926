-- ===== src/Lib.antt =====
-- A model of docker-backup, a daemon that backs up Docker containers on the schedules that their
-- labels ask for.
--
-- The parts, and the files that model them:
--
-- - Config/Labels: internal/config/labels.go, which reads a container's configuration from its
--   labels. Labels/Groups, Labels/Parsed and Labels/Order are about it.
-- - Config/Options: internal/config/config.go, which reads the storage pools and the notifiers from
--   the environment and the command line. Config/Options/Given is about it.
-- - Scheduler: internal/scheduler/scheduler.go, one cron entry for each job key. Scheduler/Laws has
--   its invariant, and Scheduler/Api the interface through which the manager uses it.
-- - Storage, Storage/Pools: internal/storage, the interface of a back end with its laws, the registry
--   and the pools by name.
-- - Retention: internal/retention/retention.go, which deletes the oldest backups under a prefix.
-- - Storages/S3: internal/storages/s3/s3.go, the back end on a bucket. S3/Objects has the keys and the
--   files that objects are, S3/Refines the methods against the promises of a storage.
-- - Docker, Docker/Volumes, Docker/Exec: internal/docker/client.go, as far as the manager and the
--   backup types use it.
-- - Notification: internal/notification, the dispatch of events and the printing of sizes.
-- - Backup: internal/backup. Backup/Schedule has the tracked containers and their jobs (addContainer,
--   removeContainer, scheduleContainer, syncContainers, handleEvent), Backup/Keys the keys of backups,
--   Backup/Run runBackup, and Backup/Stored the operations on stored backups.
-- - BackupTypes/Volume: internal/backuptypes/volume/volume.go. Volume/Restore has its Restore,
--   Volume/Stopping and Volume/Restarts are about the containers that it stops, Volume/Naming about
--   the names of entries, and Volume/Archived, Volume/Streams and Volume/RoundTrip about the archive.
-- - BackupTypes/Database: what internal/backuptypes/mysql and internal/backuptypes/postgres have in
--   common, over a record of what differs, which Database/Mysql and Database/Postgres fill.
--   Database/RoundTrip is about the archive.
-- - Api: the handlers of internal/api/server.go and the requests of cmd/docker-backup/backup.go.
-- - Dashboard/Htpasswd: internal/dashboard/auth/htpasswd.go and middleware.go with the command of
--   cmd/docker-backup/htpasswd.go. Htpasswd/Users is about what the lines of a file mean, and
--   Htpasswd/Printed about a line that the command has printed.
-- - Dashboard/Oidc: oidc.go, oidc_handlers.go and oidc_middleware.go of internal/dashboard/auth.
--   Oidc/Allowed is about who may log in, Oidc/Handlers has the handlers as functions of the session,
--   and Oidc/Sessions the sequences of visits.
--
-- Docker reports a container that starts; the manager reads its labels and gives the scheduler one
-- job for each configuration, under the key <id>:<name>. A job makes a backup, stores it in the
-- configuration's pool under <container>/<config>/<date>/<time><extension>, reports an event and has
-- the retention policy delete the oldest backups under <container>/<config>/.
--
-- State is passed explicitly. A function that works on the outside (files, Docker, the network)
-- takes and returns a world `W`, which is a parameter, as are the back ends that the program calls:
-- the cron library, the storages, the Docker daemon, the AWS client, the packages tar and zstd, the
-- backup types, the cryptography, the identity provider, the parsing of URLs, the tables of
-- Unicode for the case of addresses, and the sort. What is relied on of them is
-- in the records IsLawful of Scheduler and of Storage, IsBackend, IsDocker, IsControl, IsBucket,
-- IsBcrypt and Sorter, and the modules of Tests have concrete instances of them. A Go map is an
-- association list, whose order stands for the order in which a `range` loop walks the map. An
-- error is its format with its arguments. Strings are lists of code points. Times and sizes are
-- natural numbers.
--
-- The calls of the manager are single steps, since the lock is held in each, except that
-- scheduleContainer releases it before it adds the jobs: Backup/Schedule/Race has its two halves with
-- a removeContainer between them, and other interleavings are not modelled. The events
-- of a run are sent in the background, and the model lists them. The loop of formatSize runs on six
-- rounds of fuel, and ten for the digits of a float64, which is enough for every int64. The writes to
-- a pipe are answered by a parameter, which may refuse them at any time. Log output is left out.
--
-- Not modelled: the local storage back end, the ClickHouse backups, the pages of the dashboard, the
-- watcher that produces the events, and the command line's output.
pub mod Base
pub mod Config
pub mod Scheduler
pub mod Storage
pub mod Storages
pub mod Retention
pub mod Docker
pub mod Notification
pub mod Backup
pub mod BackupTypes
pub mod Api
pub mod Dashboard
pub mod Tests
