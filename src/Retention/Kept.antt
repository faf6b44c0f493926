-- ===== src/Retention/Kept.antt =====
-- The contract of a run of Enforce on a lawful storage.
use docker_backup.Base.{
  ℕ, zero, suc, ◌+◌, Bool, true, false, List, [], ◌∷◌, ◌≡◌, ◌≢◌, inl, inr, sym, ap, subst, ◌∙◌,
  arith, length, take, drop, take-append-drop, either, Bool-cases, Text, has_prefix, select,
  All-of_In, In, In-append, In-All, In-select, select-In, ok,
}
use docker_backup.Base.Sort.{
  Sorter, Pairwise, Pairwise-Permutes, Pairwise-cut, In-drop, Permutes, Permutes-In, Permutes-sym,
  Permutes-length, trans,
}
use docker_backup.Storage.{Storage, BackupFile, IsLawful}
use docker_backup.Retention.{newer, delete_old}
use docker_backup.Retention.Laws.{UniqueKeys, count, delete_old_other, count-delete_old}

pub In-take : {A : Type 0} (a : A) (n : ℕ) (l : List A) → In a (take n l) → In a l
In-take a zero l m = absurd m
In-take a (suc n) [] m = absurd m
In-take a (suc n) (x ∷ l) (inl e) = inl e
In-take a (suc n) (x ∷ l) (inr m) = inr (In-take a n l m)

Pairwise-select :
    {A : Type 0} (R : A → A → Type 0) (p : A → Bool) (l : List A)
    → Pairwise R l
    → Pairwise R (select p l)
unfolding select
Pairwise-select R p [] d = tt
Pairwise-select R p (x ∷ l) d = elim (Bool-cases (p x)) [
  | inl t ↦
      rw (t, select)
        (
          All-of_In (R x) (select p l) (λ y m. In-All (R x) y l d.0 (In-select p y l m).0),
          Pairwise-select R p l d.1,
        )
  | inr f ↦ rw (f, select) (Pairwise-select R p l d.1)
]

Pairwise-drop :
    {A : Type 0} (R : A → A → Type 0) (n : ℕ) (l : List A) → Pairwise R l → Pairwise R (drop n l)
Pairwise-drop R zero l d = d
Pairwise-drop R (suc n) [] d = d
Pairwise-drop R (suc n) (x ∷ l) d = Pairwise-drop R n l d.1

module _ {W : Type 0} (sorter : Sorter newer) (st : Storage W) (L : IsLawful st) (prefix : Text)
    (w : W) (files : List BackupFile) (listed : st.list prefix w ≡ ok files) where
  abbrev pub sorted : List BackupFile
  sorted = sorter.sort files

  abbrev pub under : List BackupFile
  under = select (λ f. has_prefix f.key prefix) (L.files w)

  shuffled : Permutes sorted under
  shuffled = trans (sorter.permutes files) (L.listed prefix w files listed)

  pub unique_sorted : UniqueKeys sorted
  unique_sorted =
      Pairwise-Permutes _ (λ a b d e. d (sym e)) (Permutes-sym shuffled)
        (Pairwise-select _ _ (L.files w) (L.unique w))

  pub length_files : length files ≡ count st L prefix w
  length_files = Permutes-length (L.listed prefix w files listed)

  pub length_sorted : length sorted ≡ length files
  length_sorted = Permutes-length (sorter.permutes files)

  pub stored : (f : BackupFile) → In f sorted → In f (L.files w) × (has_prefix f.key prefix ≡ true)
  stored f m = In-select (λ g. has_prefix g.key prefix) f (L.files w) (Permutes-In f shuffled m)

  module _ (keep : ℕ) where
    abbrev pub run : ℕ × W
    run = delete_old st (drop keep sorted) 0 w

    pub deleted_count : count st L prefix run.1 + run.0 ≡ count st L prefix w
    deleted_count =
        count-delete_old st L prefix (drop keep sorted) 0 w
          (Pairwise-drop _ keep sorted unique_sorted)
          (All-of_In _ (drop keep sorted) (λ f m. stored f (In-drop f keep sorted m)))
        ∙ omega arith

    pub outside_stays :
        (f : BackupFile) → has_prefix f.key prefix ≡ false → In f (L.files w) → In f (L.files run.1)
    outside_stays f n m =
        delete_old_other st L (drop keep sorted) 0 w f
          (All-of_In _ (drop keep sorted) (λ g i e.
            cc (n, (stored g (In-drop g keep sorted i)).1, ap (λ k. has_prefix k prefix) e)))
          m

    pub kept_stays : (f : BackupFile) → In f (take keep sorted) → In f (L.files run.1)
    kept_stays f m =
        delete_old_other st L (drop keep sorted) 0 w f
          (All-of_In _ (drop keep sorted) (λ g i e.
            Pairwise-cut (λ a b. a.key ≢ b.key) keep sorted unique_sorted f g m i (sym e)))
          (stored f (In-take f keep sorted m)).0

    pub removed_is_old :
        (f : BackupFile)
        → In f (L.files w)
        → has_prefix f.key prefix ≡ true
        → (In f (L.files run.1) → ⊥)
        → In f (drop keep sorted)
    removed_is_old f m t gone =
        either (λ n. absurd (gone (kept_stays f n))) (λ n. n)
          (In-append f (take keep sorted) (drop keep sorted) (
            subst (In f) (sym (take-append-drop keep sorted))
              (Permutes-In f (Permutes-sym shuffled) (select-In _ f (L.files w) m t))))

pub Pairwise-take :
    {A : Type 0} (R : A → A → Type 0) (n : ℕ) (l : List A) → Pairwise R l → Pairwise R (take n l)
Pairwise-take R zero l d = tt
Pairwise-take R (suc n) [] d = tt
Pairwise-take R (suc n) (x ∷ l) d = (
  All-of_In (R x) (take n l) (λ y m. In-All (R x) y l d.0 (In-take y n l m)),
  Pairwise-take R n l d.1,
)
