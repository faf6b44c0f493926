-- ===== src/BackupTypes/Database/Mysql.antt =====
-- internal/backuptypes/mysql/mysql.go: the credentials and the commands of MySQL and MariaDB.
use docker_backup.Base.{
  Bool, false, not, ◌||◌, none, some, List, [], ◌∷◌, ◌++◌, Text, ◌==◌, codes, nat_eq, has_prefix,
  split, trim_space, newline, if◌then◌else◌, errorf, Result, ok, err,
}
use docker_backup.Base.Map.{Map, get, has}
use docker_backup.Docker.{ContainerInfo}
use docker_backup.Backup.{BackupType}
use docker_backup.Docker.Exec.{ExecResult, exec}
use docker_backup.BackupTypes.Volume.{Codec}
use docker_backup.BackupTypes.Database
use docker_backup.BackupTypes.Database.{variable, Host, Dialect}

abbrev pub root_password : Text
root_password = codes "MYSQL_ROOT_PASSWORD"

abbrev pub user_password : Text
user_password = codes "MYSQL_PASSWORD"

abbrev pub user_name : Text
user_name = codes "MYSQL_USER"

unfoldable pub validate : ContainerInfo → Result (Unit {0})
validate c =
    if has root_password c.env
    then ok tt
    else (if not (has user_password c.env)
        then err (
            errorf "container %s is missing MySQL password (set %s or %s)"
              (c.name ∷ root_password ∷ user_password ∷ []))
        else (if not (has user_name c.env)
            then err (
                errorf "container %s has %s but is missing %s"
                  (c.name ∷ user_password ∷ user_name ∷ []))
            else ok tt))

unfoldable pub get_credentials : Map Text → Text × Text
get_credentials env = elim (get root_password env) [
  | some password ↦ (codes "root", password)
  | none ↦ (variable user_name env, variable user_password env)
]

-- Whether `which` finds a command: Exec succeeds with exit code 0.
abbrev pub found : Result ExecResult → Bool
found (ok result) = nat_eq result.exit_code 0
found (err e) = false

unfoldable pub contains_text : Text → Text → Bool
contains_text [] part = part == []
contains_text (c ∷ s) part = has_prefix (c ∷ s) part || contains_text s part

unfoldable pub system_database : Text → Bool
system_database name =
    (name == codes "information_schema")
    || ((name == codes "mysql") || ((name == codes "performance_schema") || (name == codes "sys")))

-- The loop over the lines of the output.
unfoldable pub database_names : List Text → List Text
unfolding contains_text system_database
database_names [] = []
database_names (l ∷ lines) =
    let rest = database_names lines in
    let line = trim_space l in
    if (line == [])
      || (system_database line
          || (has_prefix line (codes "[") || contains_text line (codes "Warning")))
    then rest
    else line ∷ rest

module _ {W : Type 0} (host : Host W) (id : Text) where
  unfoldable pub get_mysql_command : W → Text × W
  get_mysql_command w =
      let (r, v) = exec host.api id (codes "which" ∷ codes "mariadb" ∷ []) none w in
      (if found r then codes "mariadb" else codes "mysql", v)

  unfoldable pub get_mysql_dump_command : W → Text × W
  get_mysql_dump_command w =
      let (r, v) = exec host.api id (codes "which" ∷ codes "mariadb-dump" ∷ []) none w in
      (if found r then codes "mariadb-dump" else codes "mysqldump", v)

  -- The flags of every command: the user and the password.
  abbrev login : Text × Text → List Text → List Text
  login (user, password) more = codes "-u" ∷ user ∷ (codes "-p" ++ password) ∷ more

  unfoldable pub mysql_dialect : Text × Text → Dialect W
  unfolding get_mysql_command get_mysql_dump_command database_names
  mysql_dialect credentials = record {
    list_command = λ w.
        let (cmd, v) = get_mysql_command w in
        (
          cmd
              ∷ login credentials (
                  codes "-N"
                  ∷ codes "-e"
                  ∷ codes "SELECT schema_name FROM information_schema.schemata"
                  ∷ []),
          v,
        );
    names = λ output. database_names (split newline (trim_space output));
    dump_command = λ name w.
        let (cmd, v) = get_mysql_dump_command w in
        (
          cmd
              ∷ login credentials (
                  codes "--single-transaction"
                  ∷ codes "--routines"
                  ∷ codes "--triggers"
                  ∷ codes "--events"
                  ∷ codes "--add-drop-database"
                  ∷ codes "--databases"
                  ∷ name
                  ∷ []),
          v,
        );
    restore_command = λ w. let (cmd, v) = get_mysql_command w in (cmd ∷ login credentials [], v);
    list_format = "mysql failed with exit code %d: %s";
    execute_format = "failed to execute mysqldump: %w";
    dump_format = "mysqldump failed with exit code %d";
  }

unfoldable pub mysql_backup : {W : Type 0} → Host W → Codec → BackupType W
unfolding validate get_credentials mysql_dialect
mysql_backup host codec = record {
  name = codes "mysql";
  file_extension = codes ".tar.zst";
  validate = validate;
  backup = λ c w.
      docker_backup.BackupTypes.Database.backup host codec
        (mysql_dialect host c.id (get_credentials c.env)) c.id w;
  restore = λ c body w.
      docker_backup.BackupTypes.Database.restore host codec
        (mysql_dialect host c.id (get_credentials c.env)) c.id body w;
}
