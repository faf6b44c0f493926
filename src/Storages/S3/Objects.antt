-- ===== src/Storages/S3/Objects.antt =====
-- The files of a storage and the objects of its bucket.
use docker_backup.Base.{
  Bool, true, not, ◌&&◌, List, [], ◌∷◌, ◌++◌, map, ◌≡◌, ◌≢◌, inl, inr, refl, sym, ap, subst, ◌∙◌,
  arith, Text, ◌==◌, has_prefix, after_prefix, trim_prefix, select, slash, length, length-append,
  if◌then◌else◌, Bool-cases, All, All-append_left, All-append_right, In-map, All-of_In, In, In-All,
  In-select, Result, ok, err, bind_steps,
}
use mathlib.Core.List.{append-nil, append_assoc, map-append}
use docker_backup.Base.Strings.Laws.{
  ==_iff, has_prefix-append, has_prefix-split, trim_prefix-append,
}
use docker_backup.Base.Sort.{Pairwise}
use docker_backup.Storage.{BackupFile}
use docker_backup.Storages.S3.{
  Object, full_key, slice_from, rel_key, add_objects, add_pages, contents,
}

-- What stands in front of the keys in the bucket.
unfoldable pub root : Text → Text
root prefix = if prefix == [] then [] else (prefix ++ slash ∷ [])

pub full_key-root : (prefix key : Text) → full_key prefix key ≡ root prefix ++ key
unfolding full_key root ◌==◌
full_key-root [] key = refl
full_key-root (x ∷ prefix) key = sym (append_assoc (x ∷ prefix) (slash ∷ []) key)

-- The file that an object under the root is.
unfoldable pub file_of : Text → Object → BackupFile
file_of prefix o = record {
  key = trim_prefix o.key (root prefix);
  size = o.size;
  last_modified = o.last_modified;
}

abbrev pub under : Text → Object → Bool
under prefix o = has_prefix o.key (root prefix)

slice_from-append : (p s : Text) → slice_from (length p) (p ++ s) ≡ ok s
unfolding slice_from
slice_from-append [] s = refl
slice_from-append (x ∷ p) s = slice_from-append p s

rel_key-root : (prefix s : Text) → rel_key prefix (root prefix ++ s) ≡ ok s
unfolding rel_key root ◌==◌
rel_key-root [] s = refl
rel_key-root (x ∷ prefix) s =
    ap (λ n. slice_from n ((x ∷ prefix ++ slash ∷ []) ++ s))
      (sym (length-append (x ∷ prefix) (slash ∷ [])))
    ∙ slice_from-append (x ∷ prefix ++ slash ∷ []) s

rel_key-under :
    (prefix : Text) (o : Object)
    → under prefix o ≡ true
    → rel_key prefix o.key ≡ ok (file_of prefix o).key
unfolding file_of
rel_key-under prefix o h =
    ap (rel_key prefix) (has_prefix-split o.key (root prefix) h) ∙ rel_key-root prefix _

add_objects_lem :
    (prefix : Text) (objs : List Object) (files : List BackupFile)
    → All (λ o. under prefix o ≡ true) objs
    → add_objects prefix objs files ≡ ok (files ++ map (file_of prefix) objs)
unfolding add_objects file_of
add_objects_lem prefix [] files h = ap ok (sym (append-nil files))
add_objects_lem prefix (o ∷ objs) files h =
    rw (rel_key-under prefix o h.0)
      (add_objects_lem prefix objs _ h.1 ∙ ap ok (append_assoc files _ _))

-- The keys that a listing under the root gives are within the bounds of the slice, and the list is
-- of the files that the objects are.
pub add_pages_lem :
    (prefix : Text) (pages : List (Result (List Object))) (objs : List Object)
    (files : List BackupFile)
    → contents pages ≡ ok objs
    → All (λ o. under prefix o ≡ true) objs
    → add_pages prefix pages files ≡ ok (files ++ map (file_of prefix) objs)
unfolding add_pages contents
add_pages_lem prefix [] objs files e h =
    let same : [] ≡ objs = ground arith in
    subst (λ (os : List Object). ok files ≡ ok (files ++ map (file_of prefix) os)) same
      (ap ok (sym (append-nil files)))
add_pages_lem prefix (err x ∷ pages) objs files e h = cc
add_pages_lem prefix (ok os ∷ pages) objs files e h =
    let (rest, f, g) = bind_steps (contents pages) (λ rest. ok (os ++ rest)) e in
    let same : os ++ rest ≡ objs = ground arith in
    let all = subst (All (λ o. under prefix o ≡ true)) (sym same) h in
    rw (add_objects_lem prefix os files (All-append_left _ os rest all)) (
      add_pages_lem prefix pages rest _ f (All-append_right _ os rest all)
      ∙ ap ok (
          append_assoc files _ _
          ∙ ap (files ++◌)
              (sym (map-append (file_of prefix) os rest) ∙ ap (map (file_of prefix)) same)))

-- A loop that ends without an error has seen every page.
pub contents-add_pages :
    (prefix : Text) (pages : List (Result (List Object))) (files end : List BackupFile)
    → add_pages prefix pages files ≡ ok end
    → (objs : List Object) × (contents pages ≡ ok objs)
unfolding add_pages contents
contents-add_pages prefix [] files end e = ([], refl)
contents-add_pages prefix (err x ∷ pages) files end e = cc
contents-add_pages prefix (ok os ∷ pages) files end e =
    let (more, f, g) = bind_steps (add_objects prefix os files) (add_pages prefix pages) e in
    let (rest, h) = contents-add_pages prefix pages more end g in (os ++ rest, rw h refl)

pub has_prefix-append_both :
    (s r p : Text) → has_prefix s (r ++ p) ≡ (has_prefix s r && has_prefix (trim_prefix s r) p)
unfolding has_prefix trim_prefix after_prefix
has_prefix-append_both s [] p = refl
has_prefix-append_both [] (c ∷ r) p = refl
has_prefix-append_both (x ∷ s) (c ∷ r) p = ground (arith, has_prefix-append_both s r p)

-- The files under a prefix are the objects under its key.
pub select-under :
    (prefix p : Text) (objs : List Object)
    → select (λ f. has_prefix f.key p) (map (file_of prefix) (select (under prefix) objs))
      ≡ map (file_of prefix) (select (λ o. has_prefix o.key (full_key prefix p)) objs)
unfolding select file_of
select-under prefix p [] = refl
select-under prefix p (o ∷ objs) = ground (
  arith,
  has_prefix-append_both o.key (root prefix) p,
  ap (has_prefix o.key) (full_key-root prefix p),
  select-under prefix p objs,
)

same_key :
    (prefix key : Text) (o : Object)
    → under prefix o ≡ true
    → ((file_of prefix o).key == key) ≡ (o.key == full_key prefix key)
unfolding file_of
same_key prefix key o h = ground (
  arith,
  ==_iff (trim_prefix o.key (root prefix)) key,
  ==_iff o.key (full_key prefix key),
  full_key-root prefix key,
  has_prefix-split o.key (root prefix) h,
  trim_prefix-append (root prefix) key,
)

-- The files but one are the objects but one.
pub select-others :
    (prefix key : Text) (objs : List Object)
    → map
        (file_of prefix)
        (select (under prefix) (select (λ o. not (o.key == full_key prefix key)) objs))
      ≡ select (λ f. not (f.key == key)) (map (file_of prefix) (select (under prefix) objs))
unfolding select
select-others prefix key [] = refl
select-others prefix key (o ∷ objs) =
    ground (arith, same_key prefix key o, select-others prefix key objs)

file_of_injective :
    (prefix : Text) (o p : Object)
    → under prefix o ≡ true
    → under prefix p ≡ true
    → (file_of prefix o).key ≡ (file_of prefix p).key
    → o.key ≡ p.key
unfolding file_of
file_of_injective prefix o p h i e =
    has_prefix-split o.key (root prefix) h
    ∙ ap (root prefix ++◌) e
    ∙ sym (has_prefix-split p.key (root prefix) i)

pub files_unique :
    (prefix : Text) (objs : List Object)
    → Pairwise (λ o p. o.key ≢ p.key) objs
    → Pairwise (λ f g. f.key ≢ g.key) (map (file_of prefix) (select (under prefix) objs))
unfolding select
files_unique prefix [] h = tt
files_unique prefix (o ∷ objs) h = elim (Bool-cases (under prefix o)) [
  | inr f ↦ rw f (files_unique prefix objs h.1)
  | inl t ↦
      let differs : (g : BackupFile)
          → In g (map (file_of prefix) (select (under prefix) objs))
          → (file_of prefix o).key ≢ g.key =
        λ g m same.
          let (p, i, e) = In-map (file_of prefix) g (select (under prefix) objs) m in
          let (j, u) = In-select (under prefix) p objs i in
          In-All (λ q. o.key ≢ q.key) p objs h.0 j
            (file_of_injective prefix o p t u (same ∙ ap (λ (f : BackupFile). f.key) e)) in
      rw t (All-of_In (λ g. (file_of prefix o).key ≢ g.key) _ differs, files_unique prefix objs h.1)
]

-- The file of an object that stands under the key of the bucket for a key.
pub file_of-full_key :
    (prefix key : Text) (o : Object)
    → o.key ≡ full_key prefix key
    → (under prefix o ≡ true) × ((file_of prefix o).key ≡ key)
unfolding file_of
file_of-full_key prefix key o e =
    let f = e ∙ full_key-root prefix key in
    (
      ap (λ k. has_prefix k (root prefix)) f ∙ has_prefix-append (root prefix) key,
      ap (λ k. trim_prefix k (root prefix)) f ∙ trim_prefix-append (root prefix) key,
    )
