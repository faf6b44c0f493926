-- ===== src/BackupTypes/Database.antt =====
-- internal/backuptypes/mysql and internal/backuptypes/postgres: what the two have in common, the
-- dump of each database into an archive and the restore of each entry. What differs is a Dialect.
pub mod Mysql
pub mod Postgres
pub mod RoundTrip
use docker_backup.Base.{
  ℕ, Bool, true, false, not, none, some, Option, List, [], ◌∷◌, ◌++◌, String, Text, ◌==◌, codes,
  nat_eq, has_suffix, trim_prefix, length, if◌then◌else◌, Error, errorf, Result, ok, err, wrap,
  wrapf, ◌>>=◌,
}
use mathlib.Core.List.{reverse}
use docker_backup.Base.Map.{Map, get}
use docker_backup.Docker.{ContainerInfo}
use docker_backup.Docker.Exec.{ExecResult, ExecApi, exec, exec_with_output}
use docker_backup.Docker.Volumes.{Header, Item}
use docker_backup.Docker.Volumes.Item.{entry, broken, cancelled}
use docker_backup.BackupTypes.Volume.{Codec}

-- The calls outside the program: those of the Docker API that run commands, and a temporary file,
-- which may fail to be made, measured or rewound.
pub record Host (W : Type 0) : Type 0 where
  pub api : ExecApi W
  pub create_temp : W → Result (Unit {0})
  pub stat : W → Result (Unit {0})
  pub seek : W → Result (Unit {0})

-- The commands of a database server, each after the probing that its choice needs, the databases in
-- the output of the list command, and the formats of errors.
pub record Dialect (W : Type 0) : Type 0 where
  pub list_command : W → List Text × W
  pub names : Text → List Text
  pub dump_command : Text → W → List Text × W
  pub restore_command : W → List Text × W
  pub list_format : String
  pub execute_format : String
  pub dump_format : String

-- A number among an error's arguments is a text of this one number.
abbrev pub number : ℕ → Text
number n = n ∷ []

-- env[name], which is empty where the variable is not set
abbrev pub variable : Text → Map Text → Text
variable name env = elim (get name env) [ none ↦ [] | some v ↦ v ]

-- strings.TrimSuffix
unfoldable pub trim_suffix : Text → Text → Text
trim_suffix s suffix = reverse (trim_prefix (reverse s) (reverse suffix))

-- The header of a dump, with its mode and size.
abbrev pub sql_header : Text → Text → Header
sql_header name sql = record {
  name = name ++ codes ".sql";
  is_regular = true;
  fields = 0o644 ∷ length sql ∷ [];
}

module _ {W : Type 0} (host : Host W) (codec : Codec) (dialect : Dialect W) (id : Text) where
  unfoldable pub list_databases : W → Result (List Text) × W
  list_databases w =
      let (cmd, v) = dialect.list_command w in
      let (r, u) = exec host.api id cmd none v in
      elim r [
        | err e ↦ (err (wrapf "failed to list databases: %w" [] e), u)
        | ok result ↦ elim (nat_eq result.exit_code 0) [
          | true ↦ (ok (dialect.names result.output), u)
          | false ↦
              (err (errorf dialect.list_format (number result.exit_code ∷ result.output ∷ [])), u)
        ]
      ]

  -- What follows the dump: the temporary file is measured and rewound, and the entry written.
  unfoldable pub write_dump : Text → Text → W → Result (Header × Text)
  write_dump name sql w = do
    _ ← wrap "failed to stat temp file: %w" [] (host.stat w)
    _ ← wrap "failed to seek temp file: %w" [] (host.seek w)
    _ ← wrap "failed to write tar header: %w" [] (codec.write_header (sql_header name sql))
    _ ← wrap "failed to write to tar: %w" [] (codec.write_content (sql_header name sql) sql)
    ok (sql_header name sql, sql)

  unfoldable pub backup_database : Text → W → Result (Header × Text) × W
  unfolding write_dump
  backup_database name w =
      let (cmd, v) = dialect.dump_command name w in
      elim (host.create_temp v) [
        | err e ↦ (err (wrapf "failed to create temp file: %w" [] e), v)
        | ok _ ↦
            let (r, u) = exec_with_output host.api id cmd v in
            elim r [
              | err e ↦ (err (wrapf dialect.execute_format [] e), u)
              | ok (code, sql) ↦ elim (nat_eq code 0) [
                | true ↦ (write_dump name sql u, u)
                | false ↦ (err (errorf dialect.dump_format (number code ∷ [])), u)
              ]
            ]
      ]

  -- The loop of Backup over the databases, with the entries so far.
  unfoldable pub backup_each :
      List Text → List (Header × Text) → W → Result (List (Header × Text)) × W
  unfolding backup_database
  backup_each [] out w = (ok out, w)
  backup_each (name ∷ names) out w =
      let (r, v) = backup_database name w in
      elim r [
        | err e ↦ (err (wrapf "failed to backup database %s: %w" (name ∷ []) e), v)
        | ok e ↦ backup_each names (out ++ (e ∷ [])) v
      ]

  unfoldable pub backup : W → Result Text × W
  unfolding list_databases backup_each
  backup w = elim codec.new_writer [
    | err e ↦ (err (wrapf "failed to create zstd writer: %w" [] e), w)
    | ok _ ↦
        let (r, v) = list_databases w in
        elim r [
          | err e ↦ (err (wrapf "failed to list databases: %w" [] e), v)
          | ok names ↦
              let (q, u) = backup_each names [] v in
              elim q [ err e ↦ (err e, u) | ok entries ↦ (ok (codec.compress entries), u) ]
        ]
  ]

  unfoldable pub restore_database : Text → W → Result (Unit {0}) × W
  restore_database sql w =
      let (cmd, v) = dialect.restore_command w in
      let (r, u) = exec host.api id cmd (some sql) v in
      elim r [
        | err e ↦ (err (wrapf "failed to execute restore command: %w" [] e), u)
        | ok result ↦ elim (nat_eq result.exit_code 0) [
          | true ↦ (ok tt, u)
          | false ↦ (
            err (
                errorf "restore failed with exit code %d: %s"
                  (number result.exit_code ∷ result.output ∷ [])),
            u,
          )
        ]
      ]

  -- The loop of Restore, which does not look at the context. What is not a regular file is skipped.
  unfoldable pub restore_each : List Item → W → Result (Unit {0}) × W
  unfolding restore_database trim_suffix
  restore_each [] w = (ok tt, w)
  restore_each (cancelled e ∷ items) w = restore_each items w
  restore_each (broken e ∷ items) w = (err (wrapf "failed to read tar header: %w" [] e), w)
  restore_each (entry h sql ∷ items) w = elim h.is_regular [
    | false ↦ restore_each items w
    | true ↦
        let (r, v) = restore_database sql w in
        elim r [
          | err e ↦ (
            err (
                wrapf "failed to restore database %s: %w" (trim_suffix h.name (codes ".sql") ∷ [])
                  e),
            v,
          )
          | ok _ ↦ restore_each items v
        ]
  ]

  unfoldable pub restore : Text → W → Result (Unit {0}) × W
  unfolding restore_each
  restore body w = elim (codec.items body) [
    | err e ↦ (err (wrapf "failed to create zstd reader: %w" [] e), w)
    | ok items ↦ restore_each items w
  ]
