-- ===== src/Config/Options/Given.antt =====
-- The options of internal/config/config.go after they are parsed.
use docker_backup.Base.{
  true, ◌&&◌, Option, none, some, List, [], ◌∷◌, ◌≡◌, ◌⊎◌, inl, inr, subst, arith, length,
  if◌then◌else◌, Bool-cases, Option-cases, Text, codes, ◌==◌, cut, equals, ok, err, Result-cases,
  bind_steps,
}
use docker_backup.Base.Strings.Laws.{==_iff}
use docker_backup.Base.Map.{Map, get, put, has, get-put}
use docker_backup.Storage.Pools.{StoragePool}
use docker_backup.Config.Options.{
  Options, Environment, pool_or_new, set_storage_pool_option, parse_storage_env_vars,
  storage_argument, parse_storage_args, only_pool, choose_default, check_default,
  parse_storage_pools, parse_notify_env_vars, parse_notify_args, parse_notify_dsns,
}

-- The value of a pool's option, and "" for one that is not set.
abbrev pub option_in : Text → StoragePool → Text
option_in option pool =
    if option == codes "type"
    then pool.type_name
    else elim (get option pool.options) [ none ↦ [] | some value ↦ value ]

abbrev pub option_of : Text → Text → Map StoragePool → Text
option_of name option pools = elim (get name pools) [
  | none ↦ []
  | some pool ↦ option_in option pool
]

option_of-set :
    (name option value p o : Text) (pools : Map StoragePool)
    → option_of p o (set_storage_pool_option name option value pools)
      ≡ (if (name == p) && (option == o) then value else option_of p o pools)
unfolding set_storage_pool_option pool_or_new get
option_of-set name option value p o pools = elim (Bool-cases (option == codes "type")) [
  | inl t ↦ ground (
    arith,
    t,
    ==_iff option (codes "type"),
    ==_iff o (codes "type"),
    ==_iff option o,
    ==_iff name p,
    get-put name p (record (pool_or_new name pools) { type_name = value }) pools,
  )
  | inr f ↦ ground (
    arith,
    f,
    ==_iff option (codes "type"),
    ==_iff o (codes "type"),
    ==_iff option o,
    ==_iff name p,
    get-put name p
        (record (pool_or_new name pools) {
          options = put option value (pool_or_new name pools).options;
        })
        pools,
    get-put option o value (pool_or_new name pools).options,
  )
]

-- The value that the last of some arguments sets, if one sets it.
abbrev pub last_given : Text → Text → List Text → Text → Text
last_given p o [] before = before
last_given p o (arg ∷ args) before = elim (storage_argument arg) [
  | err e ↦ before
  | ok (name, option, value) ↦
      last_given p o args (if (name == p) && (option == o) then value else before)
]

-- When the storage arguments parse, each option of each pool has the value of the last argument
-- that sets it, and the value it had before where none does; an option that is not set counts as
-- empty.
pub parse_storage_args_lem :
    (args : List Text) (pools result : Map StoragePool) (p o : Text)
    → parse_storage_args args pools ≡ ok result
    → option_of p o result ≡ last_given p o args (option_of p o pools)
unfolding parse_storage_args
parse_storage_args_lem [] pools result p o h = ground arith
parse_storage_args_lem (arg ∷ args) pools result p o h =
    elim (Result-cases (storage_argument arg)) [
      | inr (x, e) ↦ ground (arith, e)
      | inl (set, e) ↦ ground (
        arith,
        e,
        option_of-set set.0 set.1 set.2 p o pools,
        parse_storage_args_lem args (set_storage_pool_option set.0 set.1 set.2 pools) result p o,
      )
    ]

ok_path : {A : Type 0} {a b : A} → ok a ≡ ok b → a ≡ b
ok_path h = ground arith

exists_or_none :
    (name : Text) (pools : Map StoragePool)
    → check_default name pools ≡ ok tt
    → (name ≡ []) ⊎ (has name pools ≡ true)
exists_or_none name pools h = ground (arith, ==_iff name [])

checked :
    (environment : Environment) (name : Text) (pools : Map StoragePool)
    → check_default (choose_default environment name pools) pools ≡ ok tt
    → ((choose_default environment name pools ≡ []) × (length pools ≡ 1 → has [] pools ≡ true))
      ⊎ (has (choose_default environment name pools) pools ≡ true)
unfolding choose_default only_pool get
checked environment [] [] h = elim (exists_or_none _ [] h) [
  | inl e ↦ inl (e, λ l. absurd (omega (arith, l)))
  | inr m ↦ inr m
]
checked environment [] ((n, pool) ∷ []) h = elim (exists_or_none _ ((n, pool) ∷ []) h) [
  | inl e ↦ inl (e, λ l. ground (arith, e, ==_iff n []))
  | inr m ↦ inr m
]
checked environment [] ((n, pool) ∷ m ∷ pools) h =
    elim (exists_or_none _ ((n, pool) ∷ m ∷ pools) h) [
      | inl e ↦ inl (e, λ l. absurd (omega (arith, l)))
      | inr m ↦ inr m
    ]
checked environment (x ∷ name) pools h = elim (exists_or_none _ pools h) [
  | inl e ↦ absurd (ground (arith, e, ==_iff (x ∷ name) []))
  | inr m ↦ inr m
]

-- If ParseStoragePools returns no error, the default pool is one of the pools; or there is no
-- default, and then there is not exactly one pool, unless that pool has the empty name.
pub parse_storage_pools-default :
    (environment : Environment) (c d : Options)
    → parse_storage_pools environment c ≡ ok d
    → ((d.default_storage ≡ []) × (length d.storage_pools ≡ 1 → has [] d.storage_pools ≡ true))
      ⊎ (has d.default_storage d.storage_pools ≡ true)
unfolding parse_storage_pools choose_default only_pool
parse_storage_pools-default environment c d h =
    let (pools, e, run) =
      bind_steps
        (parse_storage_args c.storage_args
          (parse_storage_env_vars environment.environ c.storage_pools))
        _ h in
    let (u, k, same) =
      bind_steps (check_default (choose_default environment c.default_storage pools) pools) _ run in
    subst
      (λ (x : Options).
        ((x.default_storage ≡ []) × (length x.storage_pools ≡ 1 → has [] x.storage_pools ≡ true))
        ⊎ (has x.default_storage x.storage_pools ≡ true))
      (ok_path same) (checked environment c.default_storage pools k)

-- The DSN that the last of some arguments gives a name, if one does.
abbrev pub last_dsn : Text → List Text → Option Text → Option Text
last_dsn name [] before = before
last_dsn name (arg ∷ args) before = elim (cut equals arg) [
  | none ↦ before
  | some (key, dsn) ↦ last_dsn name args (if key == name then some dsn else before)
]

parse_notify_args_lem :
    (args : List Text) (dsns result : Map Text) (name : Text)
    → parse_notify_args args dsns ≡ ok result
    → get name result ≡ last_dsn name args (get name dsns)
unfolding parse_notify_args
parse_notify_args_lem [] dsns result name h = ground arith
parse_notify_args_lem (arg ∷ args) dsns result name h = elim (Option-cases (cut equals arg)) [
  | inl e ↦ ground (arith, e)
  | inr (set, e) ↦ ground (
    arith,
    e,
    get-put set.0 name set.1 dsns,
    parse_notify_args_lem args (put set.0 set.1 dsns) result name,
  )
]

-- When ParseNotifyDSNs returns no error, each notifier has the DSN of the last argument that names
-- it, and that of the environment where none does.
pub parse_notify_dsns_lem :
    (environment : Environment) (c d : Options) (name : Text)
    → parse_notify_dsns environment c ≡ ok d
    → get name d.notify_dsns
      ≡ last_dsn name c.notify_args
          (get name (parse_notify_env_vars environment.environ c.notify_dsns))
unfolding parse_notify_dsns
parse_notify_dsns_lem environment c d name h =
    let (dsns, e, run) =
      bind_steps
        (parse_notify_args c.notify_args (parse_notify_env_vars environment.environ c.notify_dsns))
        _ h in
    subst
      (λ (x : Options).
        get name x.notify_dsns
        ≡ last_dsn name c.notify_args
            (get name (parse_notify_env_vars environment.environ c.notify_dsns)))
      (ok_path run)
      (parse_notify_args_lem c.notify_args (parse_notify_env_vars environment.environ c.notify_dsns)
        dsns name e)
