-- ===== src/BackupTypes/Database/RoundTrip.antt =====
-- internal/backuptypes/mysql and internal/backuptypes/postgres: a restore after a backup.
use docker_backup.Base.{
  Bool, true, false, Option, none, some, List, [], ◌∷◌, ◌++◌, ◌≡◌, ap, ◌∙◌, String, Text, Error,
  Result, ok, err, wrapf,
}
use mathlib.Core.List.{reverse, reverse-append, reverse-reverse}
use docker_backup.Base.Strings.Laws.{trim_prefix-append}
use docker_backup.Docker.Volumes.{Header}
use docker_backup.Docker.Exec.{ExecResult, exec, exec_with_output}
use docker_backup.BackupTypes.Volume.{Codec}
use docker_backup.BackupTypes.Database.{Host, Dialect, trim_suffix, sql_header}

pub trim_suffix-append : (s suffix : Text) → trim_suffix (s ++ suffix) suffix ≡ s
unfolding trim_suffix
trim_suffix-append s suffix =
    ap (λ r. reverse (docker_backup.Base.trim_prefix r (reverse suffix))) (reverse-append s suffix)
    ∙ ap reverse (trim_prefix-append (reverse suffix) (reverse s))
    ∙ reverse-reverse s

module _ {W : Type 0} (host : Host W) (codec : Codec) (dialect : Dialect W) (id : Text) where
  -- A dump of a database: what its dump command has written, with exit code 0.
  pub record IsDump (dump : Text × Text) : Type 0 where
    pub asked : W
    pub ready : W
    pub ended : W
    pub command : List Text
    pub chosen : dialect.dump_command dump.0 asked ≡ (command, ready)
    pub ran : exec_with_output host.api id command ready ≡ (ok (0, dump.1), ended)

  -- The databases that the server has listed.
  pub record IsListed (names : List Text) : Type 0 where
    pub asked : W
    pub ready : W
    pub ended : W
    pub command : List Text
    pub output : Text
    pub chosen : dialect.list_command asked ≡ (command, ready)
    pub ran :
        exec host.api id command none ready
        ≡ (ok (record { exit_code = 0; output = output }), ended)
    pub read : dialect.names output ≡ names

  -- What a restore of dumps is: for each dump in turn the restore command is run with the dump as its
  -- input, up to the first that cannot be run or ends with an exit code other than 0. Its error
  -- names the database.
  pub data Restores : List (Text × Text) → W → Result (Unit {0}) × W → Type 0 where
    all_done : {w : W} → Restores [] w (ok tt, w)
    one_done :
        {name sql output : Text} {dumps : List (Text × Text)} {w v u : W} {command : List Text}
        {end : Result (Unit {0}) × W}
        → dialect.restore_command w ≡ (command, v)
        → exec host.api id command (some sql) v
          ≡ (ok (record { exit_code = 0; output = output }), u)
        → Restores dumps u end
        → Restores ((name, sql) ∷ dumps) w end
    not_run :
        {name sql : Text} {dumps : List (Text × Text)} {w v u : W} {command : List Text}
        {e x : Error}
        → dialect.restore_command w ≡ (command, v)
        → exec host.api id command (some sql) v ≡ (err e, u)
        → Restores
            ((name, sql) ∷ dumps)
            w
            (err (wrapf "failed to restore database %s: %w" (name ∷ []) x), u)
    failed :
        {name sql : Text} {dumps : List (Text × Text)} {w v u : W} {command : List Text}
        {result : ExecResult} {x : Error}
        → dialect.restore_command w ≡ (command, v)
        → exec host.api id command (some sql) v ≡ (ok result, u)
        → (result.exit_code ≡ 0 → ⊥)
        → Restores
            ((name, sql) ∷ dumps)
            w
            (err (wrapf "failed to restore database %s: %w" (name ∷ []) x), u)

  abbrev entry_of : Text × Text → Header × Text
  entry_of (name, sql) = (sql_header name sql, sql)
