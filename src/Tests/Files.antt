-- ===== src/Tests/Files.antt =====
-- The storage in memory: pools, and the retention policy on four backups.
use docker_backup.Base.{
  String, ℕ, ◌+◌, ◌-◌, ◌≤◌, false, [], ◌∷◌, ◌≡◌, ◌≢◌, inl, inr, refl, ap, arith, codes, ◌==◌,
  has_prefix, select, In, errorf, ok, err,
}
use Prim.Native.Nat.{min}
use docker_backup.Base.Map.{get, put}
use docker_backup.Base.Sort.{Pairwise}
use docker_backup.Base.Strings.Laws.{==_iff}
use docker_backup.Storage.{BackupFile}
use docker_backup.Storage.Pools.{
  StorageType, StoragePool, PoolManager, new_pool_manager, get_for_container,
}
use docker_backup.Retention.{enforce}
use docker_backup.Retention.Laws.{count}
use docker_backup.Retention.Contract.{
  Survivors, enforce_keeps_newest, enforce_outside, enforce-count, enforce_exact, enforce_error,
}
use docker_backup.Tests.World.{World, memory, memory_lawful, by_time}

abbrev pub pools : PoolManager World
pools = record { pools = (codes "local", memory) ∷ []; default_pool = codes "local" }

abbrev file : String → ℕ → BackupFile
file key time = record { key = codes key; size = 1; last_modified = time }

abbrev oldest : BackupFile
oldest = file "web/db/1" 1

abbrev middle : BackupFile
middle = file "web/db/2" 2

abbrev newest : BackupFile
newest = file "web/db/3" 3

abbrev other : BackupFile
other = file "web/files/1" 0

apart : (f g : BackupFile) → (f.key == g.key) ≡ false → f.key ≢ g.key
apart f g h e = ground (arith, ==_iff f.key g.key)

four_apart : Pairwise (λ f g. f.key ≢ g.key) (middle ∷ oldest ∷ other ∷ newest ∷ [])
unfolding codes ◌==◌
four_apart = (
  (apart middle oldest refl, (apart middle other refl, (apart middle newest refl, tt))),
  (
    (apart oldest other refl, (apart oldest newest refl, tt)),
    ((apart other newest refl, tt), (tt, tt)),
  ),
)

abbrev four : World
four = record { now = 4; files = middle ∷ oldest ∷ other ∷ newest ∷ []; unique = four_apart }

local_pool : get_for_container World pools [] ≡ ok memory
unfolding get_for_container get codes ◌==◌
local_pool = refl

under : memory.list (codes "web/db/") four ≡ ok (middle ∷ oldest ∷ newest ∷ [])
unfolding select has_prefix codes
under = refl

abbrev local_type : StorageType World
local_type = record { name = codes "local"; create = λ name options. ok memory }

abbrev local_config : StoragePool
local_config = record { name = codes "local"; type_name = codes "local"; options = [] }

created :
    new_pool_manager World
      ((codes "local", local_type) ∷ [])
      ((codes "local", local_config) ∷ [])
      (codes "local")
    ≡ ok pools
unfolding new_pool_manager get codes ◌==◌ put
created = refl

abbrev after : World
after = (enforce by_time pools [] (codes "web/db/") 2 four).1

oldest_gone : In oldest after.files → ⊥
unfolding enforce get_for_container get codes ◌==◌ select has_prefix by_time
oldest_gone m = gone m
  where
    gone : In oldest (middle ∷ other ∷ newest ∷ []) → ⊥
    gone (inl e) = apart oldest middle refl (ap (λ (f : BackupFile). f.key) e)
    gone (inr (inl e)) = apart oldest other refl (ap (λ (f : BackupFile). f.key) e)
    gone (inr (inr (inl e))) = apart oldest newest refl (ap (λ (f : BackupFile). f.key) e)
    gone (inr (inr (inr m))) = m

enforce_keeps_newest_example : Survivors memory memory_lawful (codes "web/db/") 2 after oldest
unfolding has_prefix codes
enforce_keeps_newest_example =
    enforce_keeps_newest by_time memory memory_lawful pools [] (codes "web/db/") 2 four
      (middle ∷ oldest ∷ newest ∷ []) local_pool under oldest (inr (inl refl)) refl oldest_gone

enforce_outside_example :
    (In other after.files → In other four.files)
    × (has_prefix other.key (codes "web/db/") ≡ false → In other four.files → In other after.files)
enforce_outside_example =
    enforce_outside by_time memory memory_lawful pools [] (codes "web/db/") 2 four
      (middle ∷ oldest ∷ newest ∷ []) local_pool under other

one_deleted : (enforce by_time pools [] (codes "web/db/") 2 four).0 ≡ ok 1
unfolding enforce get_for_container get codes ◌==◌ select has_prefix by_time
one_deleted = refl

enforce-count_example :
    (count memory memory_lawful (codes "web/db/") after + 1
      ≡ count memory memory_lawful (codes "web/db/") four)
    × (min 2 (count memory memory_lawful (codes "web/db/") four)
        ≤ count memory memory_lawful (codes "web/db/") after)
enforce-count_example =
    enforce-count by_time memory memory_lawful pools [] (codes "web/db/") 2 four
      (middle ∷ oldest ∷ newest ∷ []) local_pool under 1 one_deleted

enforce_exact_example :
    ((enforce by_time pools [] (codes "web/db/") 2 four).0
      ≡ ok (count memory memory_lawful (codes "web/db/") four - 2))
    × (count memory memory_lawful (codes "web/db/") after
        ≡ min 2 (count memory memory_lawful (codes "web/db/") four))
enforce_exact_example =
    enforce_exact by_time memory memory_lawful pools [] (codes "web/db/") 2 four
      (middle ∷ oldest ∷ newest ∷ []) local_pool under (λ key u. refl)

no_pool :
    (enforce by_time pools (codes "s3") (codes "web/db/") 2 four).0
    ≡ err (errorf "storage pool %q not found" (codes "s3" ∷ []))
unfolding enforce get_for_container get codes ◌==◌
no_pool = refl

enforce_error_example : (enforce by_time pools (codes "s3") (codes "web/db/") 2 four).1 ≡ four
enforce_error_example =
    enforce_error by_time pools (codes "s3") (codes "web/db/") 2 four
      (errorf "storage pool %q not found" (codes "s3" ∷ [])) no_pool
