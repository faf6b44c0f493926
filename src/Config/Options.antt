-- ===== src/Config/Options.antt =====
-- internal/config/config.go: storage pools and notifiers from the environment and the command line.
pub mod Given
use docker_backup.Base.{
  ℕ, Bool, true, false, not, ◌&&◌, Option, none, some, List, [], ◌∷◌, ◌++◌, length, nat_eq,
  if◌then◌else◌, Text, codes, ◌==◌, has_prefix, trim_prefix, cut, to_lower, replace_all, dot,
  underscore, hyphen, equals, Error, errorf, Result, ok, err, ◌>>=◌, or_fail,
}
use docker_backup.Base.Map.{Map, get, put, has}
use docker_backup.Storage.Pools.{StoragePool}

-- The fields of Config that are read and set here.
pub record Options : Type 0 where
  pub default_storage : Text
  pub storage_args : List Text
  pub storage_pools : Map StoragePool
  pub notify_args : List Text
  pub notify_dsns : Map Text

-- The environment: os.Environ and os.Getenv.
pub record Environment : Type 0 where
  pub environ : List Text
  pub getenv : Text → Text

abbrev pub env_prefix : Text
env_prefix = codes "DOCKER_BACKUP_"

abbrev pub env_storage_prefix : Text
env_storage_prefix = env_prefix ++ codes "STORAGE_"

abbrev pub env_notify_prefix : Text
env_notify_prefix = env_prefix ++ codes "NOTIFY_"

-- c.StoragePools[poolName], or a new pool.
unfoldable pub pool_or_new : Text → Map StoragePool → StoragePool
pool_or_new name pools = elim (get name pools) [
  | none ↦ record { name = name; type_name = []; options = [] }
  | some pool ↦ pool
]

unfoldable pub set_storage_pool_option : Text → Text → Text → Map StoragePool → Map StoragePool
unfolding pool_or_new
set_storage_pool_option name option value pools =
    let pool = pool_or_new name pools in
    if option == codes "type"
    then put name (record pool { type_name = value }) pools
    else put name (record pool { options = put option value pool.options }) pools

-- What one variable of the environment sets, as pool, option and value. Names are lowered as ASCII.
unfoldable pub storage_variable : Text → Option (Text × Text × Text)
storage_variable env =
    if not (has_prefix env env_storage_prefix) then none else elim (cut equals env) [
      | none ↦ none
      | some (key, value) ↦ elim (cut underscore (trim_prefix key env_storage_prefix)) [
        | none ↦ none
        | some (pool, option) ↦
            some (to_lower pool, replace_all underscore hyphen (to_lower option), value)
      ]
    ]

unfoldable pub parse_storage_env_vars : List Text → Map StoragePool → Map StoragePool
parse_storage_env_vars [] pools = pools
parse_storage_env_vars (env ∷ envs) pools =
    parse_storage_env_vars envs (elim (storage_variable env) [
      | none ↦ pools
      | some (pool, option, value) ↦ set_storage_pool_option pool option value pools
    ])

-- What one argument sets.
unfoldable pub storage_argument : Text → Result (Text × Text × Text)
storage_argument arg = do
  parts ←
      or_fail (errorf "invalid storage argument format: %s (expected pool.option=value)" (arg ∷ []))
        (cut equals arg)
  key_parts ←
      or_fail (errorf "invalid storage key format: %s (expected pool.option)" (parts.0 ∷ []))
        (cut dot parts.0)
  ok (key_parts.0, key_parts.1, parts.1)

unfoldable pub parse_storage_args : List Text → Map StoragePool → Result (Map StoragePool)
parse_storage_args [] pools = ok pools
parse_storage_args (arg ∷ args) pools = do
  set ← storage_argument arg
  parse_storage_args args (set_storage_pool_option set.0 set.1 set.2 pools)

-- The default when none is given: the only pool.
unfoldable pub only_pool : Text → Map StoragePool → Text
only_pool [] ((name, pool) ∷ []) = name
only_pool default_storage pools = default_storage

unfoldable pub choose_default : Environment → Text → Map StoragePool → Text
unfolding only_pool
choose_default environment default_storage pools =
    let chosen = only_pool default_storage pools in
    if chosen == [] then environment.getenv (env_prefix ++ codes "DEFAULT_STORAGE") else chosen

abbrev pub check_default : Text → Map StoragePool → Result (Unit {0})
check_default name pools =
    if not (name == []) && not (has name pools)
    then err (errorf "default storage pool %q does not exist" (name ∷ []))
    else ok tt

-- An error ends the daemon, so what was set before it is dropped.
unfoldable pub parse_storage_pools : Environment → Options → Result Options
unfolding parse_storage_args choose_default
parse_storage_pools environment c = do
  pools ←
      parse_storage_args c.storage_args (parse_storage_env_vars environment.environ c.storage_pools)
  checked ← check_default (choose_default environment c.default_storage pools) pools
  ok (record c {
    storage_pools = pools;
    default_storage = choose_default environment c.default_storage pools;
  })

unfoldable pub notify_variable : Text → Option (Text × Text)
notify_variable env =
    if not (has_prefix env env_notify_prefix) then none else elim (cut equals env) [
      | none ↦ none
      | some (key, value) ↦ some (to_lower (trim_prefix key env_notify_prefix), value)
    ]

unfoldable pub parse_notify_env_vars : List Text → Map Text → Map Text
parse_notify_env_vars [] dsns = dsns
parse_notify_env_vars (env ∷ envs) dsns =
    parse_notify_env_vars envs
      (elim (notify_variable env) [ none ↦ dsns | some (name, dsn) ↦ put name dsn dsns ])

unfoldable pub parse_notify_args : List Text → Map Text → Result (Map Text)
parse_notify_args [] dsns = ok dsns
parse_notify_args (arg ∷ args) dsns = do
  parts ←
      or_fail (errorf "invalid notify argument format: %s (expected name=dsn)" (arg ∷ []))
        (cut equals arg)
  parse_notify_args args (put parts.0 parts.1 dsns)

unfoldable pub parse_notify_dsns : Environment → Options → Result Options
unfolding parse_notify_args
parse_notify_dsns environment c = do
  dsns ← parse_notify_args c.notify_args (parse_notify_env_vars environment.environ c.notify_dsns)
  ok (record c { notify_dsns = dsns })
