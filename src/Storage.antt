-- ===== src/Storage.antt =====
-- internal/storage: the interface of a storage back end, the registry of back-end types
-- (registry.go) and the pools (pool.go).
pub mod Pools
use docker_backup.Base.{
  ℕ, not, List, ◌∷◌, ◌≡◌, ◌≢◌, Text, ◌==◌, has_prefix, select, Error, Result, ok, err,
}
use docker_backup.Base.Sort.{Pairwise, Permutes}

-- storage.go: times are seconds; sizes are not negative.
pub record BackupFile : Type 0 where
  pub key : Text
  pub size : ℕ
  pub last_modified : ℕ

-- A call reads or changes the world `W` (a file system, a remote bucket). A call that fails may have
-- changed it.
pub record Storage (W : Type 0) : Type 0 where
  pub store : Text → Text → W → Result (Unit {0}) × W
  pub list : Text → W → Result (List BackupFile)
  pub delete : Text → W → Result (Unit {0}) × W
  pub retrieve : Text → W → Result Text

-- What a back end promises: it stores a set of files, of which no two have one key. Listing shows
-- the files under a prefix in some order. A delete that succeeds removes the file of the key and no
-- other; one that fails removes nothing.
pub record IsLawful {W : Type 0} (st : Storage W) : Type 1 where
  pub files : W → List BackupFile
  pub unique : (w : W) → Pairwise (λ f g. f.key ≢ g.key) (files w)
  pub listed :
      (prefix : Text) (w : W) (fs : List BackupFile)
      → st.list prefix w ≡ ok fs
      → Permutes fs (select (λ f. has_prefix f.key prefix) (files w))
  pub deleted :
      (key : Text) (w v : W)
      → st.delete key w ≡ (ok tt, v)
      → files v ≡ select (λ f. not (f.key == key)) (files w)
  pub kept : (key : Text) (w v : W) (e : Error) → st.delete key w ≡ (err e, v) → files v ≡ files w

-- The promises of a back end that says nothing of a delete that fails: the request may have had its
-- effect. They are those of a storage without the last, and that of a store that succeeds: the key's
-- file is replaced by a new one, and the other files stay.
pub record IsBackend {W : Type 0} (st : Storage W) (files : W → List BackupFile) : Type 0 where
  pub unique : (w : W) → Pairwise (λ f g. f.key ≢ g.key) (files w)
  pub listed :
      (prefix : Text) (w : W) (fs : List BackupFile)
      → st.list prefix w ≡ ok fs
      → Permutes fs (select (λ f. has_prefix f.key prefix) (files w))
  pub deleted :
      (key : Text) (w v : W)
      → st.delete key w ≡ (ok tt, v)
      → files v ≡ select (λ f. not (f.key == key)) (files w)
  pub replaced :
      (key body : Text) (w u : W)
      → st.store key body w ≡ (ok tt, u)
      → (f : BackupFile) × (f.key ≡ key)
        × Permutes (files u) (f ∷ select (λ g. not (g.key == key)) (files w))
