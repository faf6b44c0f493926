-- ===== src/Storages/S3.antt =====
-- internal/storages/s3/s3.go: the back end for S3-compatible services. The calls of the AWS client
-- are parameters, and what is relied on of a bucket is in IsBucket.
pub mod Objects
pub mod Refines
use docker_backup.Base.{
  ℕ, zero, suc, ◌+◌, Bool, true, false, not, ◌&&◌, Option, none, some, List, [], ◌∷◌, ◌++◌, ◌≡◌,
  ◌≢◌, String, Text, ◌==◌, codes, has_prefix, select, slash, length, if◌then◌else◌, All, Error,
  errorf, Result, ok, err, wrap, ◌>>=◌,
}
use docker_backup.Base.Map.{Map, get}
use docker_backup.Base.Sort.{Pairwise, Permutes, Sorter}
use docker_backup.Storage.{Storage, BackupFile}
use docker_backup.Storage.Pools.{StorageType}
use docker_backup.Retention.{newer}

-- The fields of a listed object that List reads.
pub record Object : Type 0 where
  pub key : Text
  pub size : ℕ
  pub last_modified : ℕ

-- The calls of the AWS client on a bucket. `pages` are the answers that the paginator of a listing
-- gives, one for each NextPage, until HasMorePages answers false.
pub record Client (W : Type 0) : Type 0 where
  pub upload_object : Text → Text → Text → W → Result (Unit {0}) × W
  pub pages : Text → Text → W → List (Result (List Object))
  pub delete_object : Text → Text → W → Result (Unit {0}) × W
  pub get_object : Text → Text → W → Result Text

-- What Create tells the AWS library to connect to.
pub record ClientOptions : Type 0 where
  pub region : Text
  pub static_credentials : Option (Text × Text)
  pub base_endpoint : Option Text
  pub use_path_style : Bool

pub record S3Storage (W : Type 0) : Type 0 where
  pub client : Client W
  pub bucket : Text
  pub prefix : Text
  pub pool_name : Text

-- The key of the bucket for a key of the storage.
unfoldable pub full_key : Text → Text → Text
full_key prefix key = if prefix == [] then key else (prefix ++ slash ∷ key)

-- s[n:], where a slice out of range, which is a panic, is an error.
unfoldable pub slice_from : ℕ → Text → Result Text
slice_from zero s = ok s
slice_from (suc n) [] = err (errorf "slice bounds out of range" [])
slice_from (suc n) (x ∷ s) = slice_from n s

unfoldable pub rel_key : Text → Text → Result Text
unfolding slice_from
rel_key prefix key = if prefix == [] then ok key else slice_from (length prefix + 1) key

-- The loop over the objects of a page, with the files so far.
unfoldable pub add_objects : Text → List Object → List BackupFile → Result (List BackupFile)
unfolding rel_key
add_objects prefix [] files = ok files
add_objects prefix (obj ∷ objs) files = do
  key ← rel_key prefix obj.key
  add_objects prefix objs
      (files ++ (record { key = key; size = obj.size; last_modified = obj.last_modified } ∷ []))

-- The loop over the pages, with the files so far.
unfoldable pub add_pages :
    Text → List (Result (List Object)) → List BackupFile → Result (List BackupFile)
unfolding add_objects
add_pages prefix [] files = ok files
add_pages prefix (page ∷ pages) files = do
  objs ← wrap "failed to list objects: %w" [] page
  more ← add_objects prefix objs files
  add_pages prefix pages more

module _ {W : Type 0} (s : S3Storage W) where
  unfoldable pub store : Text → Text → W → Result (Unit {0}) × W
  unfolding full_key
  store key body w =
      let (r, v) = s.client.upload_object s.bucket (full_key s.prefix key) body w in
      (wrap "failed to upload to S3: %w" [] r, v)

  unfoldable pub list : Sorter newer → Text → W → Result (List BackupFile)
  unfolding full_key add_pages
  list sorter prefix w = do
    files ← add_pages s.prefix (s.client.pages s.bucket (full_key s.prefix prefix) w) []
    ok (sorter.sort files)

  unfoldable pub delete : Text → W → Result (Unit {0}) × W
  unfolding full_key
  delete key w =
      let (r, v) = s.client.delete_object s.bucket (full_key s.prefix key) w in
      (wrap "failed to delete from S3: %w" [] r, v)

  unfoldable pub retrieve : Text → W → Result Text
  unfolding full_key
  retrieve key w =
      wrap "failed to get from S3: %w" [] (s.client.get_object s.bucket (full_key s.prefix key) w)

  -- The storage that the methods make.
  unfoldable pub s3_storage : Sorter newer → Storage W
  unfolding store list delete retrieve
  s3_storage sorter = record {
    store = store;
    list = list sorter;
    delete = delete;
    retrieve = retrieve;
  }

-- options[name], which is empty where the option is not set.
unfoldable pub option : String → Map Text → Text
option name options = elim (get (codes name) options) [ none ↦ [] | some v ↦ v ]

unfoldable pub client_options : Map Text → ClientOptions
unfolding option
client_options options = record {
  region = if option "region" options == [] then codes "us-east-1" else option "region" options;
  static_credentials =
      if not (option "access-key" options == []) && not (option "secret-key" options == [])
      then some (option "access-key" options, option "secret-key" options)
      else none;
  base_endpoint =
      if option "endpoint" options == [] then none else some (option "endpoint" options);
  use_path_style = option "path-style" options == codes "true";
}

-- `connect` is the AWS library: LoadDefaultConfig, which may fail, and NewFromConfig.
unfoldable pub create :
    {W : Type 0}
    → (ClientOptions → Result (Client W))
    → Sorter newer
    → Text
    → Map Text
    → Result (Storage W)
unfolding option client_options s3_storage
create connect sorter pool_name options =
    if option "bucket" options == []
    then err (errorf "S3 storage requires 'bucket' option" [])
    else (do
      client ← wrap "failed to load AWS config: %w" [] (connect (client_options options))
      ok (
          s3_storage
            (record {
              client = client;
              bucket = option "bucket" options;
              prefix = option "prefix" options;
              pool_name = pool_name;
            })
            sorter))

unfoldable pub s3_storage_type :
    {W : Type 0} → (ClientOptions → Result (Client W)) → Sorter newer → StorageType W
unfolding create
s3_storage_type connect sorter = record { name = codes "s3"; create = create connect sorter }

-- The objects of all pages, if each page is answered.
unfoldable pub contents : List (Result (List Object)) → Result (List Object)
contents [] = ok []
contents (page ∷ pages) = do objs ← page; rest ← contents pages; ok (objs ++ rest)

-- What is relied on of a bucket: it holds objects, of which no two have one key. The pages of a
-- listing that is answered have the objects under the prefix in some order. A delete that
-- succeeds removes the object of the key and no other, and an upload that succeeds puts an object under the key, which a get finds, and leaves the others.
pub record IsBucket {W : Type 0} (client : Client W) (bucket : Text) : Type 1 where
  pub objects : W → List Object
  pub unique : (w : W) → Pairwise (λ o p. o.key ≢ p.key) (objects w)
  pub paged :
      (prefix : Text) (w : W) (objs : List Object)
      → contents (client.pages bucket prefix w) ≡ ok objs
      → Permutes objs (select (λ o. has_prefix o.key prefix) (objects w))
  pub removed :
      (key : Text) (w v : W)
      → client.delete_object bucket key w ≡ (ok tt, v)
      → objects v ≡ select (λ o. not (o.key == key)) (objects w)
  pub uploaded :
      (key body : Text) (w v : W)
      → client.upload_object bucket key body w ≡ (ok tt, v)
      → (o : Object) × (o.key ≡ key)
        × Permutes (objects v) (o ∷ select (λ p. not (p.key == key)) (objects w))
        × (client.get_object bucket key v ≡ ok body)
