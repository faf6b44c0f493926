-- ===== src/Tests/Buckets.antt =====
-- A bucket in memory whose listings have one object on a page, and the S3 back end over it.
use docker_backup.Base.{
  ℕ, ◌+◌, true, false, not, List, [], ◌∷◌, ◌≡◌, ◌≢◌, ◌↔◌, refl, sym, ap, subst, ◌∙◌, arith, length,
  if◌then◌else◌, Text, codes, ◌==◌, has_prefix, select, All, All-of_In, In, In-select, errorf,
  Result, ok, err, ok_injective,
}
use docker_backup.Base.Strings.Laws.{==_iff, ==_refl}
use docker_backup.Base.Sort.{Pairwise, Permutes, Permutes-refl}
use docker_backup.Storage.{BackupFile, IsBackend}
use docker_backup.Storages.S3.{
  Object, Client, S3Storage, full_key, store, list, retrieve, s3_storage, contents, IsBucket,
}
use docker_backup.Storages.S3.Refines.{
  s3_files, s3_list_total, s3_storage-IsBackend, s3_store-retrieve,
}
use docker_backup.Tests.World.{by_time, select-Pairwise}

-- The objects, of which no two have one key, what is stored under a key, and the time.
record Shelf : Type 0 where
  now : ℕ
  objects : List Object
  bodies : Text → Text
  unique : Pairwise (λ o p. o.key ≢ p.key) objects

abbrev other_objects : Text → List Object → List Object
other_objects key os = select (λ o. not (o.key == key)) os

other_objects_apart :
    (key : Text) (os : List Object) → All (λ o. key ≢ o.key) (other_objects key os)
other_objects_apart key os =
    All-of_In (λ o. key ≢ o.key) (other_objects key os)
      (λ o m e.
        ground (arith, (In-select (λ (p : Object). not (p.key == key)) o os m).1, ==_iff o.key key))

abbrev one_a_page : List Object → List (Result (List Object))
one_a_page [] = []
one_a_page (o ∷ os) = ok (o ∷ []) ∷ one_a_page os

contents-one_a_page : (os : List Object) → contents (one_a_page os) ≡ ok os
unfolding contents
contents-one_a_page [] = refl
contents-one_a_page (o ∷ os) = rw (contents-one_a_page os) refl

abbrev body_of : Text → List Object → Result Text
body_of body [] = err (errorf "NoSuchKey" [])
body_of body (o ∷ os) = ok body

abbrev shelf : Client Shelf
shelf = record {
  upload_object = λ bucket key body w. (
    ok tt,
    record {
      now = w.now + 1;
      objects =
          record { key = key; size = length body; last_modified = w.now }
          ∷ other_objects key w.objects;
      bodies = λ k. if k == key then body else w.bodies k;
      unique = (
        other_objects_apart key w.objects,
        select-Pairwise _ (λ o. not (o.key == key)) w.objects w.unique,
      );
    },
  );
  pages = λ bucket prefix w. one_a_page (select (λ o. has_prefix o.key prefix) w.objects);
  delete_object = λ bucket key w. (
    ok tt,
    record {
      now = w.now;
      objects = other_objects key w.objects;
      bodies = w.bodies;
      unique = select-Pairwise _ (λ o. not (o.key == key)) w.objects w.unique;
    },
  );
  get_object = λ bucket key w. body_of (w.bodies key) (select (λ o. o.key == key) w.objects);
}

found_body :
    (key body : Text) (os : List Object) (size now : ℕ) (bodies : Text → Text)
    → body_of
        (if key == key then body else bodies key)
        (select (λ o. o.key == key) (record { key = key; size = size; last_modified = now } ∷ os))
      ≡ ok body
unfolding select
found_body key body os size now bodies = ground (arith, ==_refl key)

abbrev shelf_bucket : IsBucket shelf (codes "backups")
shelf_bucket = record {
  objects = λ w. w.objects;
  unique = λ w. w.unique;
  paged = λ prefix w objs h.
      subst (λ (x : List Object). Permutes x (select (λ o. has_prefix o.key prefix) w.objects))
        (ok_injective (sym (contents-one_a_page _) ∙ h)) (Permutes-refl _);
  removed = λ key w v h. ap (λ (p : Result (Unit {0}) × Shelf). p.1.objects) (sym h);
  uploaded = λ key body w v h.
      subst
        (λ (u : Shelf).
          (o : Object) × (o.key ≡ key)
          × Permutes u.objects (o ∷ other_objects key w.objects)
          × (shelf.get_object (codes "backups") key u ≡ ok body))
        (ap (λ (p : Result (Unit {0}) × Shelf). p.1) h)
        (
          record { key = key; size = length body; last_modified = w.now },
          refl,
          Permutes-refl _,
          found_body key body (other_objects key w.objects) (length body) w.now w.bodies,
        );
}

apart : (s t : Text) → (s == t) ≡ false → s ≢ t
apart s t h e = ground (arith, ==_iff s t)

start_apart :
    Pairwise {A = Object}
      (λ o p. o.key ≢ p.key)
      (record { key = codes "daily/web/db/1"; size = 5; last_modified = 3 }
        ∷ record { key = codes "weekly/web"; size = 2; last_modified = 4 }
        ∷ record { key = codes "daily/web/db/2"; size = 6; last_modified = 5 }
        ∷ [])
unfolding ◌==◌ codes
start_apart = ((apart _ _ refl, (apart _ _ refl, tt)), ((apart _ _ refl, tt), (tt, tt)))

abbrev start : Shelf
start = record {
  now = 7;
  objects =
      record { key = codes "daily/web/db/1"; size = 5; last_modified = 3 }
      ∷ record { key = codes "weekly/web"; size = 2; last_modified = 4 }
      ∷ record { key = codes "daily/web/db/2"; size = 6; last_modified = 5 }
      ∷ [];
  bodies = λ k. k;
  unique = start_apart;
}

abbrev daily : S3Storage Shelf
daily = record {
  client = shelf;
  bucket = codes "backups";
  prefix = codes "daily";
  pool_name = codes "offsite";
}

-- The listing is without the prefix and newest first.
test_list :
    list daily by_time (codes "web/") start
    ≡ ok (
        record { key = codes "web/db/2"; size = 6; last_modified = 5 }
        ∷ record { key = codes "web/db/1"; size = 5; last_modified = 3 }
        ∷ [])
unfolding list by_time select has_prefix ◌==◌ codes
test_list = refl

s3_storage-IsBackend_example :
    IsBackend (s3_storage daily by_time) (s3_files by_time daily shelf_bucket)
s3_storage-IsBackend_example = s3_storage-IsBackend by_time daily shelf_bucket

s3_list_total_example :
    ((files : List BackupFile) × (list daily by_time (codes "web/") start ≡ ok files)) ↔ (
      (objs : List Object) × (contents
          (shelf.pages (codes "backups") (full_key (codes "daily") (codes "web/")) start)
        ≡ ok objs))
s3_list_total_example = s3_list_total by_time daily shelf_bucket (codes "web/") start

abbrev stored : Shelf
stored = (store daily (codes "web/db/3") (codes "dump") start).1

s3_store-retrieve_example :
    (retrieve daily (codes "web/db/3") stored ≡ ok (codes "dump"))
    × ((prefix : Text) (files : List BackupFile)
        → has_prefix (codes "web/db/3") prefix ≡ true
        → list daily by_time prefix stored ≡ ok files
        → (f : BackupFile) × In f files × (f.key ≡ codes "web/db/3"))
unfolding store
s3_store-retrieve_example =
    s3_store-retrieve by_time daily shelf_bucket (codes "web/db/3") (codes "dump") start stored refl
