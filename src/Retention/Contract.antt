-- ===== src/Retention/Contract.antt =====
-- Enforce as a whole: which backups survive, how many, and what the reported number means.
use docker_backup.Base.{
  ℕ, ◌+◌, ◌-◌, ◌≤◌, true, false, List, ◌≡◌, ◌⊎◌, inl, inr, sym, subst, ap, arith, leb, leb→le,
  length, length-take, length-drop, take, drop, Bool-cases, Text, has_prefix, All, All-of_In, In,
  Error, Result, ok, err,
}
use Prim.Native.Nat.{min}
use docker_backup.Base.Sort.{Sorter, Pairwise-cut}
use docker_backup.Storage.{Storage, BackupFile, IsLawful}
use docker_backup.Storage.Pools.{PoolManager, get_for_container}
use docker_backup.Retention.{newer, enforce_on, enforce}
use docker_backup.Retention.Laws.{
  UniqueKeys, count, delete_old_subset, delete_old_all, delete_old_bound,
}
use docker_backup.Retention.Kept.{
  sorted, length_files, length_sorted, stored, unique_sorted, run, deleted_count, outside_stays,
  kept_stays, removed_is_old, In-take, Pairwise-take,
}

-- Backups that survive a deleted one: `keep` different files under the prefix, none of them older.
pub record Survivors {W : Type 0} (st : Storage W) (L : IsLawful st) (prefix : Text) (keep : ℕ)
    (v : W) (f : BackupFile) : Type 0 where
  pub kept : List BackupFile
  pub enough : length kept ≡ keep
  pub different : UniqueKeys kept
  pub stay : All (λ g. In g (L.files v) × (has_prefix g.key prefix ≡ true)) kept
  pub newer_ones : All (λ g. newer f g ≡ false) kept

module _ {W : Type 0} (sorter : Sorter newer) (st : Storage W) (L : IsLawful st)
    (pm : PoolManager W) (name prefix : Text) (keep : ℕ) (w : W) (files : List BackupFile)
    (pool : get_for_container W pm name ≡ ok st) (listed : st.list prefix w ≡ ok files) where
  abbrev after : W
  after = (enforce sorter pm name prefix keep w).1

  enforce_cases :
      ((length files ≤ keep) × (enforce sorter pm name prefix keep w ≡ (ok 0, w)))
      ⊎ ((leb (length files) keep ≡ false)
          × (enforce sorter pm name prefix keep w ≡ (
            ok (run sorter st L prefix w files listed keep).0,
            (run sorter st L prefix w files listed keep).1,
          )))
  unfolding enforce
  enforce_cases = elim (Bool-cases (leb (length files) keep)) [
    | inl t ↦ inl (leb→le _ _ t, ground (arith, pool, listed))
    | inr f ↦ inr (f, ground (arith, pool, listed))
  ]

  -- If Enforce has removed a backup, `keep` different backups under the prefix are still stored
  -- and none of them is older than the removed one, on a lawful storage whose listing succeeds.
  pub enforce_keeps_newest :
      (f : BackupFile)
      → In f (L.files w)
      → has_prefix f.key prefix ≡ true
      → (In f (L.files after) → ⊥)
      → Survivors st L prefix keep after f
  enforce_keeps_newest f m t gone = elim enforce_cases [
    | inl (few, e) ↦ absurd (gone (subst (λ (r : Result ℕ × W). In f (L.files r.1)) (sym e) m))
    | inr (many, e) ↦
        subst (λ (r : Result ℕ × W). Survivors st L prefix keep r.1 f) (sym e)
          (survivors many (λ i. gone (subst (λ (r : Result ℕ × W). In f (L.files r.1)) (sym e) i)))
  ]
    where
      survivors :
          leb (length files) keep ≡ false
          → (In f (L.files (run sorter st L prefix w files listed keep).1) → ⊥)
          → Survivors st L prefix keep (run sorter st L prefix w files listed keep).1 f
      survivors many gone' =
          let ss = sorted sorter st L prefix w files listed in
          let old = removed_is_old sorter st L prefix w files listed keep f m t gone' in
          record {
            kept = take keep ss;
            enough =
                ground
                  (arith, length-take keep ss, length_sorted sorter st L prefix w files listed);
            different = Pairwise-take _ keep ss (unique_sorted sorter st L prefix w files listed);
            stay = All-of_In _ (take keep ss) (λ g i. (
              kept_stays sorter st L prefix w files listed keep g i,
              (stored sorter st L prefix w files listed g (In-take g keep ss i)).1,
            ));
            newer_ones =
                All-of_In _ (take keep ss)
                  (λ g i. Pairwise-cut _ keep ss (sorter.sorted files) g f i old);
          }

  -- Enforce adds no file, and every file that is not under the prefix stays, on a lawful storage
  -- whose listing succeeds.
  pub enforce_outside :
      (f : BackupFile)
      → (In f (L.files after) → In f (L.files w))
        × (has_prefix f.key prefix ≡ false → In f (L.files w) → In f (L.files after))
  enforce_outside f = elim enforce_cases [
    | inl (few, e) ↦
        subst
          (λ (r : Result ℕ × W).
            (In f (L.files r.1) → In f (L.files w))
            × (has_prefix f.key prefix ≡ false → In f (L.files w) → In f (L.files r.1)))
          (sym e) (λ i. i, λ _ i. i)
    | inr (many, e) ↦
        subst
          (λ (r : Result ℕ × W).
            (In f (L.files r.1) → In f (L.files w))
            × (has_prefix f.key prefix ≡ false → In f (L.files w) → In f (L.files r.1)))
          (sym e)
          (
            λ i.
                delete_old_subset st L (drop keep (sorted sorter st L prefix w files listed)) 0 w f
                  i,
            outside_stays sorter st L prefix w files listed keep f,
          )
  ]

  -- When Enforce reports a number, that many files under the prefix are gone, and it leaves no
  -- fewer than `keep` backups or than there were, also where deletes fail, on a lawful storage
  -- whose listing succeeds.
  pub enforce-count :
      (n : ℕ)
      → (enforce sorter pm name prefix keep w).0 ≡ ok n
      → (count st L prefix after + n ≡ count st L prefix w)
        × (min keep (count st L prefix w) ≤ count st L prefix after)
  enforce-count n h = elim enforce_cases [
    | inl (few, e) ↦
        subst
          (λ (r : Result ℕ × W).
            r.0 ≡ ok n
            → (count st L prefix r.1 + n ≡ count st L prefix w)
              × (min keep (count st L prefix w) ≤ count st L prefix r.1))
          (sym e) (λ i. ground arith) h
    | inr (many, e) ↦
        subst
          (λ (r : Result ℕ × W).
            r.0 ≡ ok n
            → (count st L prefix r.1 + n ≡ count st L prefix w)
              × (min keep (count st L prefix w) ≤ count st L prefix r.1))
          (sym e)
          (λ i. ground (
            arith,
            deleted_count sorter st L prefix w files listed keep,
            delete_old_bound st (drop keep (sorted sorter st L prefix w files listed)) 0 w,
            length-drop keep (sorted sorter st L prefix w files listed),
            length_sorted sorter st L prefix w files listed,
            length_files sorter st L prefix w files listed,
          ))
          h
  ]

  -- If no delete fails, Enforce reports the number of backups under the prefix beyond `keep`, and
  -- leaves the smaller of `keep` and their number, on a lawful storage whose listing succeeds.
  pub enforce_exact :
      ((key : Text) (u : W) → (st.delete key u).0 ≡ ok tt)
      → ((enforce sorter pm name prefix keep w).0 ≡ ok (count st L prefix w - keep))
        × (count st L prefix after ≡ min keep (count st L prefix w))
  enforce_exact s = elim enforce_cases [
    | inl (few, e) ↦
        subst
          (λ (r : Result ℕ × W).
            (r.0 ≡ ok (count st L prefix w - keep))
            × (count st L prefix r.1 ≡ min keep (count st L prefix w)))
          (sym e)
          (
            ap ok (omega (arith, length_files sorter st L prefix w files listed)),
            omega (arith, length_files sorter st L prefix w files listed),
          )
    | inr (many, e) ↦
        subst
          (λ (r : Result ℕ × W).
            (r.0 ≡ ok (count st L prefix w - keep))
            × (count st L prefix r.1 ≡ min keep (count st L prefix w)))
          (sym e)
          (let all =
              delete_old_all st L s (drop keep (sorted sorter st L prefix w files listed)) 0 w in
            let d = length-drop keep (sorted sorter st L prefix w files listed) in
            let l = length_sorted sorter st L prefix w files listed in
            let m = length_files sorter st L prefix w files listed in
            let c = deleted_count sorter st L prefix w files listed keep in
            (ap ok (omega (arith, all, d, l, m)), ground (arith, all, d, l, m, c)))
  ]

-- Without a pool, or when the listing fails, Enforce reports that error and changes nothing.
pub enforce_error :
    {W : Type 0} (sorter : Sorter newer) (pm : PoolManager W) (name prefix : Text) (keep : ℕ)
    (w : W) (e : Error)
    → (enforce sorter pm name prefix keep w).0 ≡ err e
    → (enforce sorter pm name prefix keep w).1 ≡ w
unfolding enforce enforce_on
enforce_error sorter pm name prefix keep w e h = ground arith
