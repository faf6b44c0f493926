-- ===== src/Storages/S3/Refines.antt =====
-- The methods of internal/storages/s3/s3.go against the promises of a storage.
use docker_backup.Base.{
  true, not, List, [], ◌∷◌, String, map, and_left, wrap-ok, select-cons, select-In, ◌≡◌, ◌↔◌, inl,
  refl, sym, ap, subst, ◌∙◌, arith, Text, ◌==◌, has_prefix, select, All, All-of_In, In, In-select,
  Result, ok, wrap, bind_steps,
}
use docker_backup.Base.Sort.{
  Permutes, Permutes-map, Permutes-select, Permutes-sym, Permutes-In, trans, Sorter,
}
use docker_backup.Storage.{BackupFile, IsBackend}
use docker_backup.Retention.{newer}
use docker_backup.Storages.S3.{
  Object, S3Storage, full_key, add_pages, store, list, delete, retrieve, s3_storage, contents,
  IsBucket,
}
use docker_backup.Storages.S3.Objects.{
  root, full_key-root, file_of, file_of-full_key, under, add_pages_lem, contents-add_pages,
  select-under, select-others, files_unique, has_prefix-append_both,
}

module _ {W : Type 0} (sorter : Sorter newer) (s : S3Storage W)
    (B : IsBucket s.client s.bucket) where
  -- The files of the storage: the objects under its prefix, without the prefix.
  unfoldable pub s3_files : W → List BackupFile
  s3_files w = map (file_of s.prefix) (select (under s.prefix) (B.objects w))

  listed_under :
      (prefix : Text) (w : W) (objs : List Object)
      → contents (s.client.pages s.bucket (full_key s.prefix prefix) w) ≡ ok objs
      → All (λ o. under s.prefix o ≡ true) objs
  listed_under prefix w objs e = All-of_In _ objs λ o m.
      let (i, t) = In-select _ o (B.objects w) (Permutes-In o (B.paged _ w objs e) m) in
      and_left _ _ (
        sym (has_prefix-append_both o.key (root s.prefix) prefix)
        ∙ ap (has_prefix o.key) (sym (full_key-root s.prefix prefix))
        ∙ t)

  -- A listing that is answered in all its pages is the list of the files of these pages.
  list-contents :
      (prefix : Text) (w : W) (objs : List Object)
      → contents (s.client.pages s.bucket (full_key s.prefix prefix) w) ≡ ok objs
      → list s sorter prefix w ≡ ok (sorter.sort (map (file_of s.prefix) objs))
  unfolding list
  list-contents prefix w objs e =
      rw (add_pages_lem s.prefix _ objs [] e (listed_under prefix w objs e)) refl

  -- On a bucket, List of the S3 back end answers exactly if every page of the listing is answered:
  -- no key of the listing is too short for the slice that takes the prefix away.
  pub s3_list_total :
      (prefix : Text) (w : W)
      → ((files : List BackupFile) × (list s sorter prefix w ≡ ok files)) ↔ (
          (objs : List Object) × (contents (s.client.pages s.bucket (full_key s.prefix prefix) w)
            ≡ ok objs))
  unfolding list
  s3_list_total prefix w = (
    λ (files, e).
        let (more, f, g) =
          bind_steps (add_pages s.prefix (s.client.pages s.bucket (full_key s.prefix prefix) w) [])
            (λ fs. ok (sorter.sort fs)) e in
        contents-add_pages s.prefix _ [] more f,
    λ (objs, e). (_, list-contents prefix w objs e),
  )

  s3_listed :
      (prefix : Text) (w : W) (files : List BackupFile)
      → list s sorter prefix w ≡ ok files
      → Permutes files (select (λ f. has_prefix f.key prefix) (s3_files w))
  unfolding s3_files
  s3_listed prefix w files e =
      let (objs, f) = (s3_list_total prefix w).0 (files, e) in
      let same : sorter.sort (map (file_of s.prefix) objs) ≡ files =
        ground (arith, e, list-contents prefix w objs f) in
      subst (λ fs. Permutes fs (select (λ f. has_prefix f.key prefix) (s3_files w))) same
        (subst (Permutes (sorter.sort (map (file_of s.prefix) objs)))
          (sym (select-under s.prefix prefix (B.objects w)))
          (trans (sorter.permutes _)
            (Permutes-map (file_of s.prefix) (B.paged (full_key s.prefix prefix) w objs f))))

  -- The answer of the client under the wrapped answer of a method.
  answered :
      (f : String) (p : Result (Unit {0}) × W) {v : W}
      → ◌≡◌ {A = Result (Unit {0}) × W} (wrap f [] p.0, p.1) (ok tt, v)
      → p ≡ (ok tt, v)
  answered f p h i = (wrap-ok f [] p.0 (ap (λ (q : Result (Unit {0}) × W). q.0) h) i, (h i).1)

  s3_deleted :
      (key : Text) (w v : W)
      → delete s key w ≡ (ok tt, v)
      → s3_files v ≡ select (λ f. not (f.key == key)) (s3_files w)
  unfolding delete s3_files
  s3_deleted key w v e =
      let gone = B.removed (full_key s.prefix key) w v (answered _ _ e) in
      ap (λ os. map (file_of s.prefix) (select (under s.prefix) os)) gone
      ∙ select-others s.prefix key (B.objects w)

  -- An upload replaces the file of its key.
  s3_replaced :
      (key body : Text) (w v : W)
      → store s key body w ≡ (ok tt, v)
      → (f : BackupFile) × (f.key ≡ key)
        × Permutes (s3_files v) (f ∷ select (λ g. not (g.key == key)) (s3_files w))
  unfolding store s3_files
  s3_replaced key body w v e =
      let (o, same, permuted, _) = B.uploaded (full_key s.prefix key) body w v (answered _ _ e) in
      let (inside, named) = file_of-full_key s.prefix key o same in
      (
        file_of s.prefix o,
        named,
        subst (Permutes (s3_files v))
            (ap (map (file_of s.prefix)) (select-cons (under s.prefix) o _ inside)
              ∙ ap (file_of s.prefix o ∷◌) (select-others s.prefix key (B.objects w)))
            (Permutes-map (file_of s.prefix) (Permutes-select (under s.prefix) permuted)),
      )

  -- The S3 back end on a bucket keeps the promises of a back end: its files are the objects under
  -- its prefix, each without the prefix, no two with one key; a listing that is answered has the
  -- files under a prefix, a delete that succeeds removes the file of its key only, and a store
  -- that succeeds replaces the file of its key only. Of a delete that fails nothing is said.
  pub s3_storage-IsBackend : IsBackend (s3_storage s sorter) s3_files
  unfolding s3_storage s3_files
  s3_storage-IsBackend = record {
    unique = λ w. files_unique s.prefix (B.objects w) (B.unique w);
    listed = s3_listed;
    deleted = s3_deleted;
    replaced = s3_replaced;
  }

  -- After a store to the S3 back end that succeeds, Get of the key gives what was stored, and
  -- every listing that succeeds under a prefix of the key has a file of this key.
  pub s3_store-retrieve :
      (key body : Text) (w v : W)
      → store s key body w ≡ (ok tt, v)
      → (retrieve s key v ≡ ok body)
        × ((prefix : Text) (files : List BackupFile)
            → has_prefix key prefix ≡ true
            → list s sorter prefix v ≡ ok files
            → (f : BackupFile) × In f files × (f.key ≡ key))
  unfolding retrieve store
  s3_store-retrieve key body w v e = (
    ap (wrap "failed to get from S3: %w" [])
        (B.uploaded (full_key s.prefix key) body w v (answered _ _ e)).3,
    λ prefix files h l.
        let (f, named, permuted) = s3_replaced key body w v e in
        (
          f,
          Permutes-In f (Permutes-sym (s3_listed prefix v files l)) (
              select-In (λ (g : BackupFile). has_prefix g.key prefix) f (s3_files v)
                (Permutes-In f (Permutes-sym permuted) (inl refl))
                (ap (λ k. has_prefix k prefix) named ∙ h)),
          named,
        ),
  )
