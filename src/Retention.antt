-- ===== src/Retention.antt =====
-- internal/retention/retention.go: keep the newest backups under a prefix, delete the others.
pub mod Laws
pub mod Kept
pub mod Contract
use docker_backup.Base.{
  ℕ, ◌+◌, Bool, true, false, List, [], ◌∷◌, ltb, leb, length, drop, if◌then◌else◌, Text, Error,
  Result, ok, err,
}
use docker_backup.Base.Sort.{Sorter}
use docker_backup.Storage.{Storage, BackupFile}
use docker_backup.Storage.Pools.{PoolManager, get_for_container}

-- files[i].LastModified.After(files[j].LastModified)
abbrev pub newer : BackupFile → BackupFile → Bool
newer f g = ltb g.last_modified f.last_modified

-- What a round of the loop does with the result of a delete: a failure is logged and skipped.
abbrev pub count_deleted : Result (Unit {0}) → ℕ → ℕ
count_deleted (ok _) deleted = deleted + 1
count_deleted (err _) deleted = deleted

module _ {W : Type 0} where
  -- The loop over the files that are too many, with the number deleted so far.
  unfoldable pub delete_old : Storage W → List BackupFile → ℕ → W → ℕ × W
  delete_old st [] deleted w = (deleted, w)
  delete_old st (f ∷ fs) deleted w =
      let (r, v) = st.delete f.key w in delete_old st fs (count_deleted r deleted) v

  module _ (sorter : Sorter newer) where
    unfoldable pub enforce_on : Storage W → List BackupFile → ℕ → W → Result ℕ × W
    unfolding delete_old
    enforce_on st files keep w =
        if leb (length files) keep
        then (ok 0, w)
        else let (deleted, v) = delete_old st (drop keep (sorter.sort files)) 0 w in (ok deleted, v)

    unfoldable pub enforce : PoolManager W → Text → Text → ℕ → W → Result ℕ × W
    unfolding enforce_on
    enforce pm storage_name prefix keep w = elim (get_for_container W pm storage_name) [
      | err e ↦ (err e, w)
      | ok st ↦ elim (st.list prefix w) [
        | err e ↦ (err e, w)
        | ok files ↦ enforce_on st files keep w
      ]
    ]
