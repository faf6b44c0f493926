-- ===== src/Storage/Pools.antt =====
-- internal/storage/registry.go and internal/storage/pool.go.
use docker_backup.Base.{
  ℕ, ◌||◌, Option, none, some, List, [], ◌∷◌, ◌≡◌, ◌≢◌, ◌↔◌, arith, if◌then◌else◌, length, Text,
  ◌==◌, errorf, Result, ok, err, ◌>>=◌, bind_steps, wrap, or_fail,
}
use docker_backup.Base.Strings.Laws.{==_iff}
use docker_backup.Base.Map.{Map, get, put, has, keys, has-put}
use docker_backup.Storage.{Storage}

-- internal/config/config.go: StoragePool
pub record StoragePool : Type 0 where
  pub name : Text
  pub type_name : Text
  pub options : Map Text

module _ (W : Type 0) where
  -- A factory of a back-end type. Creating a storage may fail.
  pub record StorageType : Type 0 where
    pub name : Text
    pub create : Text → Map Text → Result (Storage W)

  -- Register; a name that is taken is a panic, here `none`.
  unfoldable pub register : StorageType → Map StorageType → Option (Map StorageType)
  register st registry = if has st.name registry then none else some (put st.name st registry)

  pub record PoolManager : Type 0 where
    pub pools : Map (Storage W)
    pub default_pool : Text

  -- The loop of NewPoolManager over the configured pools.
  unfoldable pub create_pools :
      Map StorageType → Map StoragePool → Map (Storage W) → Result (Map (Storage W))
  create_pools registry [] pools = ok pools
  create_pools registry ((name, cfg) ∷ cfgs) pools = do
    storage_type ←
        or_fail (errorf "unknown storage type %q for pool %q" (cfg.type_name ∷ name ∷ []))
          (get cfg.type_name registry)
    storage ←
        wrap "failed to create storage pool %q: %w" (name ∷ [])
          (storage_type.create name cfg.options)
    create_pools registry cfgs (put name storage pools)

  unfoldable pub new_pool_manager : Map StorageType → Map StoragePool → Text → Result PoolManager
  unfolding create_pools
  new_pool_manager registry cfgs default_pool = do
    pools ← create_pools registry cfgs []
    ok (record { pools = pools; default_pool = default_pool })

  unfoldable pub get_pool : PoolManager → Text → Result (Storage W)
  get_pool pm name = or_fail (errorf "storage pool %q not found" (name ∷ [])) (get name pm.pools)

  unfoldable pub get_default : PoolManager → Result (Storage W)
  unfolding get_pool
  get_default pm =
      if pm.default_pool == []
      then err (errorf "no default storage pool configured" [])
      else get_pool pm pm.default_pool

  unfoldable pub get_for_container : PoolManager → Text → Result (Storage W)
  unfolding get_default
  get_for_container pm name = if name == [] then get_default pm else get_pool pm name

  unfoldable pub list_pools : PoolManager → List Text
  list_pools pm = keys pm.pools

  unfoldable pub pool_count : PoolManager → ℕ
  pool_count pm = length pm.pools

  -- The pool that a name stands for: the default pool for the empty name.
  abbrev pub resolved : PoolManager → Text → Text
  resolved pm name = if name == [] then pm.default_pool else name

  -- A container gets a pool exactly if the name it asks for, or the default pool's name where it
  -- asks for none, is not empty and is that of this pool.
  pub get_for_container_lem :
      (pm : PoolManager) (name : Text) (st : Storage W)
      → (get_for_container pm name ≡ ok st)
        ↔ ((resolved pm name ≢ []) × (get (resolved pm name) pm.pools ≡ some st))
  unfolding get_for_container
  get_for_container_lem pm name st = (there, back)
    where
      there :
          get_for_container pm name ≡ ok st
          → (resolved pm name ≢ []) × (get (resolved pm name) pm.pools ≡ some st)
      there h = (
        λ e. ground (arith, ==_iff name [], ==_iff pm.default_pool []),
        ground (arith, ==_iff name [], ==_iff pm.default_pool []),
      )

      back :
          (resolved pm name ≢ []) × (get (resolved pm name) pm.pools ≡ some st)
          → get_for_container pm name ≡ ok st
      back h = ground (arith, ==_iff name [], ==_iff pm.default_pool [])

  create_pools-has :
      (registry : Map StorageType) (cfgs : Map StoragePool) (pools result : Map (Storage W))
      (k : Text)
      → create_pools registry cfgs pools ≡ ok result
      → has k result ≡ (has k cfgs || has k pools)
  unfolding create_pools get
  create_pools-has registry [] pools result k h = ground arith
  create_pools-has registry ((name, cfg) ∷ cfgs) pools result k h =
      let (t, p, h') = bind_steps (or_fail _ (get cfg.type_name registry)) _ h in
      let (st, q, run) = bind_steps (wrap _ _ (t.create name cfg.options)) _ h' in
      ground (
        arith,
        create_pools-has registry cfgs (put name st pools) result k run,
        has-put name k st pools,
      )

  -- A pool manager that NewPoolManager creates has the given default and a pool for each
  -- configured name and no other.
  pub new_pool_manager-has :
      (registry : Map StorageType) (cfgs : Map StoragePool) (default_pool : Text) (pm : PoolManager)
      → new_pool_manager registry cfgs default_pool ≡ ok pm
      → (pm.default_pool ≡ default_pool) × ((k : Text) → has k pm.pools ≡ has k cfgs)
  unfolding new_pool_manager get
  new_pool_manager-has registry cfgs default_pool pm h =
      (ground arith, λ k. ground (arith, create_pools-has registry cfgs [] pm.pools k))
