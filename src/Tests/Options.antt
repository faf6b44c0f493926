-- ===== src/Tests/Options.antt =====
-- Options from an environment with one variable and two arguments.
use docker_backup.Base.{
  true, List, [], ◌∷◌, ◌≡◌, ◌⊎◌, refl, length, Text, codes, ◌==◌, has_prefix, trim_prefix,
  after_prefix, cut, to_lower, ok,
}
use docker_backup.Base.Map.{get, put, has}
use docker_backup.Storage.Pools.{StoragePool}
use docker_backup.Config.Options.{
  Options, Environment, parse_storage_args, parse_storage_pools, parse_notify_env_vars,
  parse_notify_dsns, set_storage_pool_option, storage_argument, parse_storage_env_vars,
  storage_variable, notify_variable,
}
use docker_backup.Config.Options.Given.{
  option_of, last_given, parse_storage_args_lem, parse_storage_pools-default,
}

abbrev environment : Environment
environment = record {
  environ = codes "DOCKER_BACKUP_NOTIFY_SLACK=slack://a" ∷ [];
  getenv = λ name. [];
}

abbrev args : List Text
args = codes "local.type=local" ∷ codes "local.path=/a" ∷ codes "local.path=/b" ∷ []

abbrev before : Options
before = record {
  default_storage = [];
  storage_args = args;
  storage_pools = [];
  notify_args = codes "slack=slack://b" ∷ [];
  notify_dsns = [];
}

abbrev local_pool : StoragePool
local_pool = record {
  name = codes "local";
  type_name = codes "local";
  options = (codes "path", codes "/b") ∷ [];
}

abbrev after : Options
after = record before {
  default_storage = codes "local";
  storage_pools = (codes "local", local_pool) ∷ [];
}

args_parsed : parse_storage_args args [] ≡ ok after.storage_pools
unfolding parse_storage_args set_storage_pool_option codes cut get put ◌==◌ storage_argument
args_parsed = refl

pools_parsed : parse_storage_pools environment before ≡ ok after
unfolding parse_storage_pools set_storage_pool_option codes cut get put ◌==◌ has_prefix
    storage_argument parse_storage_env_vars storage_variable
pools_parsed = refl

parse_storage_args_lem_example :
    option_of (codes "local") (codes "path") after.storage_pools
    ≡ last_given (codes "local") (codes "path") args (option_of (codes "local") (codes "path") [])
parse_storage_args_lem_example =
    parse_storage_args_lem args [] after.storage_pools (codes "local") (codes "path") args_parsed

parse_storage_pools-default_example :
    ((after.default_storage ≡ [])
      × (length after.storage_pools ≡ 1 → has [] after.storage_pools ≡ true))
    ⊎ (has after.default_storage after.storage_pools ≡ true)
parse_storage_pools-default_example =
    parse_storage_pools-default environment before after pools_parsed

abbrev told : Options
told = record before { notify_dsns = (codes "slack", codes "slack://b") ∷ [] }

dsns_parsed : parse_notify_dsns environment before ≡ ok told
unfolding parse_notify_dsns codes cut get put ◌==◌ has_prefix parse_notify_env_vars notify_variable
    to_lower trim_prefix after_prefix
dsns_parsed = refl
