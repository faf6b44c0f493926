-- ===== src/Retention/Laws.antt =====
-- What retention deletes and what it keeps.
use docker_backup.Base.{
  ℕ, ◌+◌, ◌≤◌, Bool, true, not, List, [], ◌∷◌, ◌≡◌, ◌≢◌, inl, inr, refl, sym, ap, subst, ◌∙◌, arith,
  length, Text, ◌==◌, has_prefix, select, All, In, In-All, In-select, select-In, ok, Result-cases,
}
use docker_backup.Base.Strings.Laws.{==_iff}
use docker_backup.Base.Sort.{Pairwise}
use docker_backup.Storage.{Storage, BackupFile, IsLawful}
use docker_backup.Retention.{count_deleted, delete_old}

under : Text → BackupFile → Bool
under prefix f = has_prefix f.key prefix

abbrev pub UniqueKeys : List BackupFile → Type 0
UniqueKeys = Pairwise λ f g. f.key ≢ g.key

module _ {W : Type 0} (st : Storage W) (L : IsLawful st) where
  -- One delete: nothing new appears, and a file of another key stays.
  delete_subset :
      (key : Text) (w : W) (f : BackupFile) → In f (L.files (st.delete key w).1) → In f (L.files w)
  delete_subset key w f m = elim (Result-cases (st.delete key w).0) [
    | inl (tt, e) ↦
        (In-select (λ g. not (g.key == key)) f (L.files w)
          (subst (In f) (L.deleted key w (st.delete key w).1 (λ i. (e i, (st.delete key w).1)))
            m)).0
    | inr (x, e) ↦
        subst (In f) (L.kept key w (st.delete key w).1 x (λ i. (e i, (st.delete key w).1))) m
  ]

  delete_other :
      (key : Text) (w : W) (f : BackupFile)
      → key ≢ f.key
      → In f (L.files w)
      → In f (L.files (st.delete key w).1)
  delete_other key w f n m = elim (Result-cases (st.delete key w).0) [
    | inl (tt, e) ↦
        subst (In f) (sym (L.deleted key w (st.delete key w).1 (λ i. (e i, (st.delete key w).1))))
          (select-In (λ g. not (g.key == key)) f (L.files w) m (differs f n))
    | inr (x, e) ↦
        subst (In f) (sym (L.kept key w (st.delete key w).1 x (λ i. (e i, (st.delete key w).1)))) m
  ]
    where
      differs : (f : BackupFile) → key ≢ f.key → not (f.key == key) ≡ true
      differs f n = ground (arith, ==_iff f.key key)

  -- The loop: nothing new appears, and a file whose key is not on the list stays.
  pub delete_old_subset :
      (fs : List BackupFile) (n : ℕ) (w : W) (f : BackupFile)
      → In f (L.files (delete_old st fs n w).1)
      → In f (L.files w)
  unfolding delete_old
  delete_old_subset [] n w f m = m
  delete_old_subset (g ∷ fs) n w f m =
      delete_subset g.key w f (delete_old_subset fs _ (st.delete g.key w).1 f m)

  pub delete_old_other :
      (fs : List BackupFile) (n : ℕ) (w : W) (f : BackupFile)
      → All (λ g. g.key ≢ f.key) fs
      → In f (L.files w)
      → In f (L.files (delete_old st fs n w).1)
  unfolding delete_old
  delete_old_other [] n w f a m = m
  delete_old_other (g ∷ fs) n w f a m =
      delete_old_other fs _ (st.delete g.key w).1 f a.1 (delete_other g.key w f a.0 m)

  -- With deletes that succeed the loop counts the whole list.
  pub delete_old_all :
      ((key : Text) (w : W) → (st.delete key w).0 ≡ ok tt)
      → (fs : List BackupFile) (n : ℕ) (w : W) → (delete_old st fs n w).0 ≡ n + length fs
  unfolding delete_old
  delete_old_all s [] n w = omega arith
  delete_old_all s (g ∷ fs) n w =
      delete_old_all s fs (count_deleted (st.delete g.key w).0 n) (st.delete g.key w).1
      ∙ ground (arith, s g.key w)

pub delete_old_bound :
    {W : Type 0} (st : Storage W) (fs : List BackupFile) (n : ℕ) (w : W)
    → (delete_old st fs n w).0 ≤ n + length fs
unfolding delete_old
delete_old_bound st [] n w = omega arith
delete_old_bound st (g ∷ fs) n w =
    ground
      (arith, delete_old_bound st fs (count_deleted (st.delete g.key w).0 n) (st.delete g.key w).1)

-- Deleting the file of a key takes one file away from those that a test selects, if it selects it.
select-All :
    (key : Text) (fs : List BackupFile)
    → All (λ g. key ≢ g.key) fs
    → select (λ g. not (g.key == key)) fs ≡ fs
unfolding select
select-All key [] a = refl
select-All key (g ∷ fs) a = ground (arith, ==_iff g.key key, select-All key fs a.1)

count-delete :
    (p : BackupFile → Bool) (f : BackupFile) (fs : List BackupFile)
    → UniqueKeys fs
    → In f fs
    → p f ≡ true
    → length (select p (select (λ g. not (g.key == f.key)) fs)) + 1 ≡ length (select p fs)
unfolding select
count-delete p f [] u m t = absurd m
count-delete p f (g ∷ fs) u (inl e) t = ground (
  arith,
  ap p e,
  ap (λ (h : BackupFile). h.key) e,
  ==_iff g.key f.key,
  select-All f.key fs (subst (λ (h : BackupFile). All (λ z. h.key ≢ z.key) fs) (sym e) u.0),
)
count-delete p f (g ∷ fs) u (inr m) t =
    ground (
      arith,
      In-All (λ z. g.key ≢ z.key) f fs u.0 m,
      ==_iff g.key f.key,
      count-delete p f fs u.1 m t,
    )

module _ {W : Type 0} (st : Storage W) (L : IsLawful st) (prefix : Text) where
  abbrev pub count : W → ℕ
  count w = length (select (λ f. has_prefix f.key prefix) (L.files w))

  -- A delete of a listed file that succeeds lowers the number of files under the prefix by one.
  count_step :
      (f : BackupFile) (n : ℕ) (w : W)
      → In f (L.files w)
      → has_prefix f.key prefix ≡ true
      → count (st.delete f.key w).1 + count_deleted (st.delete f.key w).0 n ≡ count w + n
  count_step f n w m t = elim (Result-cases (st.delete f.key w).0) [
    | inl (tt, e) ↦
        rw (e, L.deleted f.key w (st.delete f.key w).1 (λ i. (e i, (st.delete f.key w).1)))
          (omega
            (arith, count-delete (λ g. has_prefix g.key prefix) f (L.files w) (L.unique w) m t))
    | inr (x, e) ↦
        rw (e, L.kept f.key w (st.delete f.key w).1 x (λ i. (e i, (st.delete f.key w).1))) refl
  ]

  pub count-delete_old :
      (fs : List BackupFile) (n : ℕ) (w : W)
      → UniqueKeys fs
      → All (λ f. In f (L.files w) × (has_prefix f.key prefix ≡ true)) fs
      → count (delete_old st fs n w).1 + (delete_old st fs n w).0 ≡ count w + n
  unfolding delete_old
  count-delete_old [] n w u a = refl
  count-delete_old (f ∷ fs) n w u a =
      count-delete_old fs (count_deleted (st.delete f.key w).0 n) (st.delete f.key w).1 u.1
        (still fs u.0 a.1)
      ∙ count_step f n w a.0.0 a.0.1
    where
      still :
          (gs : List BackupFile)
          → All (λ g. f.key ≢ g.key) gs
          → All (λ g. In g (L.files w) × (has_prefix g.key prefix ≡ true)) gs
          → All (λ g. In g (L.files (st.delete f.key w).1) × (has_prefix g.key prefix ≡ true)) gs
      still [] d b = tt
      still (g ∷ gs) d b = ((delete_other st L f.key w g d.0 b.0.0, b.0.1), still gs d.1 b.1)
