-- ===== src/BackupTypes/Database/Postgres.antt =====
-- internal/backuptypes/postgres/postgres.go: the user and the commands of PostgreSQL.
use docker_backup.Base.{
  not, ◌&&◌, List, [], ◌∷◌, Text, ◌==◌, codes, split, trim_space, newline, if◌then◌else◌, errorf,
  Result, ok, err,
}
use docker_backup.Base.Map.{Map, has}
use docker_backup.Docker.{ContainerInfo}
use docker_backup.Backup.{BackupType}
use docker_backup.BackupTypes.Volume.{Codec}
use docker_backup.BackupTypes.Database
use docker_backup.BackupTypes.Database.{variable, Host, Dialect}

abbrev pub postgres_user : Text
postgres_user = codes "POSTGRES_USER"

abbrev pub pg_user : Text
pg_user = codes "PGUSER"

unfoldable pub choose_user : Map Text → Text
choose_user env =
    let user = variable postgres_user env in if user == [] then variable pg_user env else user

unfoldable pub validate : ContainerInfo → Result (Unit {0})
validate c =
    if not (has postgres_user c.env) && not (has pg_user c.env)
    then err (
        errorf "container %s is missing PostgreSQL user (set %s or %s)"
          (c.name ∷ postgres_user ∷ pg_user ∷ []))
    else ok tt

-- The loop over the lines of the output.
unfoldable pub nonempty_lines : List Text → List Text
nonempty_lines [] = []
nonempty_lines (l ∷ lines) =
    let rest = nonempty_lines lines in
    let line = trim_space l in if line == [] then rest else line ∷ rest

unfoldable pub postgres_dialect : {W : Type 0} → Text → Dialect W
unfolding nonempty_lines
postgres_dialect user = record {
  list_command = λ w. (
    codes "psql"
        ∷ codes "-U"
        ∷ user
        ∷ codes "-d"
        ∷ codes "postgres"
        ∷ codes "-t"
        ∷ codes "-A"
        ∷ codes "-c"
        ∷ codes
            "SELECT datname FROM pg_database WHERE datistemplate = false AND datname != 'postgres'"
        ∷ [],
    w,
  );
  names = λ output. nonempty_lines (split newline (trim_space output));
  dump_command = λ name w. (
    codes "pg_dump"
        ∷ codes "-U"
        ∷ user
        ∷ codes "-d"
        ∷ name
        ∷ codes "--clean"
        ∷ codes "--if-exists"
        ∷ codes "--create"
        ∷ [],
    w,
  );
  restore_command = λ w. (codes "psql" ∷ codes "-U" ∷ user ∷ codes "-d" ∷ codes "postgres" ∷ [], w);
  list_format = "psql failed with exit code %d: %s";
  execute_format = "failed to execute pg_dump: %w";
  dump_format = "pg_dump failed with exit code %d";
}

unfoldable pub postgres_backup : {W : Type 0} → Host W → Codec → BackupType W
unfolding validate choose_user postgres_dialect
postgres_backup host codec = record {
  name = codes "postgres";
  file_extension = codes ".tar.zst";
  validate = validate;
  backup = λ c w.
      docker_backup.BackupTypes.Database.backup host codec (postgres_dialect (choose_user c.env))
        c.id w;
  restore = λ c body w.
      docker_backup.BackupTypes.Database.restore host codec (postgres_dialect (choose_user c.env))
        c.id body w;
}
