-- ===== src/Api.antt =====
-- internal/api/server.go: the handlers of the HTTP API on the Unix socket, and the requests that
-- cmd/docker-backup/backup.go sends to them.
pub mod Guards
use docker_backup.Base.{
  ℕ, Bool, true, false, not, ◌||◌, Option, none, some, List, [], ◌∷◌, ◌++◌, if◌then◌else◌, Text,
  codes, ◌==◌, cut, slash, trim_prefix, trim_space, Error, errorf, Result, ok, err,
}
use docker_backup.Storage.{BackupFile}

pub record Request : Type 0 where
  pub verb : Text
  pub path : Text

-- BackupResponse, DeleteResponse and RestoreResponse, and the status code written before it. A
-- BackupResponse has no key.
pub record Response : Type 0 where
  pub status : ℕ
  pub success : Bool
  pub container : Text
  pub key : Text
  pub message : Text
  pub error : Option Error

pub record ListResponse : Type 0 where
  pub status : ℕ
  pub success : Bool
  pub container : Text
  pub backups : List BackupFile
  pub error : Option Error

-- The functions that the server is given.
pub record Server (W : Type 0) : Type 0 where
  pub backup_trigger : Text → W → Result (Unit {0}) × W
  pub backup_lister : Text → W → Result (List BackupFile)
  pub backup_deleter : Text → Text → W → Result (Unit {0}) × W
  pub backup_restorer : Text → Text → W → Result (Unit {0}) × W

-- An answer before any call: 405 or 400.
abbrev pub refusal : ℕ → Error → Response
refusal status e = record {
  status = status;
  success = false;
  container = [];
  key = [];
  message = [];
  error = some e;
}

abbrev pub list_refusal : ℕ → Error → ListResponse
list_refusal status e = record {
  status = status;
  success = false;
  container = [];
  backups = [];
  error = some e;
}

-- The answer after a call.
abbrev pub reply : Text → Text → Text → Result (Unit {0}) → Response
reply container key message (ok _) = record {
  status = 200;
  success = true;
  container = container;
  key = key;
  message = message;
  error = none;
}
reply container key message (err e) = record {
  status = 500;
  success = false;
  container = container;
  key = key;
  message = [];
  error = some e;
}

abbrev pub list_reply : Text → Result (List BackupFile) → ListResponse
list_reply container (ok fs) = record {
  status = 200;
  success = true;
  container = container;
  backups = fs;
  error = none;
}
list_reply container (err e) = record {
  status = 500;
  success = false;
  container = container;
  backups = [];
  error = some e;
}

-- strings.SplitN(path, "/", 2) with both parts not empty.
unfoldable pub container_and_key : Text → Option (Text × Text)
container_and_key path = elim (cut slash path) [
  | none ↦ none
  | some (container, key) ↦
      if container == [] || key == [] then none else some (trim_space container, trim_space key)
]

module _ {W : Type 0} (s : Server W) where
  unfoldable pub handle_backup_run : Request → W → Response × W
  handle_backup_run r w =
      if not (r.verb == codes "POST")
      then (refusal 405 (errorf "method not allowed, use POST" []), w)
      else let container = trim_space (trim_prefix r.path (codes "/backup/run/")) in
        if container == []
        then (refusal 400 (errorf "container name is required" []), w)
        else let (done, v) = s.backup_trigger container w in
          (reply container [] (codes "backup completed successfully") done, v)

  unfoldable pub handle_backup_list : Request → W → ListResponse
  handle_backup_list r w =
      if not (r.verb == codes "GET")
      then list_refusal 405 (errorf "method not allowed, use GET" [])
      else let container = trim_space (trim_prefix r.path (codes "/backup/list/")) in
        if container == []
        then list_refusal 400 (errorf "container name is required" [])
        else list_reply container (s.backup_lister container w)

  unfoldable pub handle_backup_delete : Request → W → Response × W
  unfolding container_and_key
  handle_backup_delete r w =
      if not (r.verb == codes "DELETE")
      then (refusal 405 (errorf "method not allowed, use DELETE" []), w)
      else elim (container_and_key (trim_prefix r.path (codes "/backup/delete/"))) [
        | none ↦ (
          refusal 400 (
              errorf
                "container name and backup key are required (format: /backup/delete/{container}/{key})"
                []),
          w,
        )
        | some (container, key) ↦
            let (done, v) = s.backup_deleter container key w in
            (reply container key (codes "backup deleted successfully") done, v)
      ]

  unfoldable pub handle_backup_restore : Request → W → Response × W
  unfolding container_and_key
  handle_backup_restore r w =
      if not (r.verb == codes "POST")
      then (refusal 405 (errorf "method not allowed, use POST" []), w)
      else elim (container_and_key (trim_prefix r.path (codes "/backup/restore/"))) [
        | none ↦ (
          refusal 400 (
              errorf
                "container name and backup key are required (format: /backup/restore/{container}/{key})"
                []),
          w,
        )
        | some (container, key) ↦
            let (done, v) = s.backup_restorer container key w in
            (reply container key (codes "backup restored successfully") done, v)
      ]

-- The requests of the command line: `backup run`, `backup list`, `backup delete` and `backup restore`.
-- `path_of` is what a handler is given as the path for what the client has put in the URL, which is
-- parsed, decoded and cleaned on the way; there is none where no handler is reached.
module _ (path_of : Text → Option Text) where
  abbrev request : Text → Text → Option Request
  request verb url = elim (path_of url) [
    | none ↦ none
    | some path ↦ some (record { verb = verb; path = path })
  ]

  abbrev pub run_request : Text → Option Request
  run_request container = request (codes "POST") (codes "/backup/run/" ++ container)

  abbrev pub list_request : Text → Option Request
  list_request container = request (codes "GET") (codes "/backup/list/" ++ container)

  abbrev pub delete_request : Text → Text → Option Request
  delete_request container key =
      request (codes "DELETE") (codes "/backup/delete/" ++ (container ++ (slash ∷ key)))

  abbrev pub restore_request : Text → Text → Option Request
  restore_request container key =
      request (codes "POST") (codes "/backup/restore/" ++ (container ++ (slash ∷ key)))
