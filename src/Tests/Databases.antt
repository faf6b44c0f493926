-- ===== src/Tests/Databases.antt =====
-- A database server that answers every command, and a MySQL backup of it.
use docker_backup.Base.{
  Bool, false, none, some, Option, List, [], ◌∷◌, ◌≡◌, refl, Text, codes, ◌==◌, split, trim_space,
  has_prefix, if◌then◌else◌, ok,
}
use docker_backup.Docker.Exec.{ExecApi, exec, exec_with_output}
use docker_backup.BackupTypes.Database.{sql_header, Host, Dialect, list_databases}
use docker_backup.BackupTypes.Database.Mysql.{mysql_dialect}
use docker_backup.Tests.Volumes.{text_codec, pack}

-- The command that is run, and the inputs of all commands.
record Log : Type 0 where
  current : List Text
  inputs : List Text

abbrev is_which : List Text → Bool
is_which [] = false
is_which (cmd ∷ args) = cmd == codes "which"

-- A dump is the last argument of its command.
abbrev last_of : List Text → Text
last_of [] = []
last_of (a ∷ []) = a
last_of (a ∷ b ∷ more) = last_of (b ∷ more)

abbrev listing : Text
listing = codes "information_schema\napp\nmysql: [Warning] insecure\n shop \nsys\n"

-- The list command ends in its query, the dump command in the database.
abbrev printed : List Text → Text
printed cmd =
    if last_of cmd == codes "SELECT schema_name FROM information_schema.schemata"
    then listing
    else last_of cmd

abbrev noted : Option Text → List Text → List Text
noted none inputs = inputs
noted (some input) inputs = input ∷ inputs

abbrev docker_api : ExecApi Log
docker_api = record {
  exec_create = λ id cmd attach w. (ok id, record { current = cmd; inputs = w.inputs });
  exec_attach = λ id input w.
      (ok (printed w.current), record { current = w.current; inputs = noted input w.inputs });
  std_copy = λ stream. ok (stream, []);
  exec_inspect = λ id w. ok (if is_which w.current then 1 else 0);
}

abbrev quiet : Log
quiet = record { current = []; inputs = [] }

abbrev server : Host Log
server = record { api = docker_api; create_temp = λ w. ok tt; stat = λ w. ok tt; seek = λ w. ok tt }

abbrev app_dialect : Dialect Log
app_dialect = mysql_dialect server (codes "c1") (codes "root", codes "secret")

test_list :
    (list_databases server text_codec app_dialect (codes "c1") quiet).0
    ≡ ok (codes "app" ∷ codes "shop" ∷ [])
unfolding list_databases mysql_dialect ◌==◌ codes split trim_space has_prefix exec exec_with_output
test_list = refl

abbrev two_dumps : Text
two_dumps = pack (
    (sql_header (codes "app") (codes "app"), codes "app")
    ∷ (sql_header (codes "shop") (codes "shop"), codes "shop")
    ∷ [])
