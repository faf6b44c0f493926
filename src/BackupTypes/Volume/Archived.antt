-- ===== src/BackupTypes/Volume/Archived.antt =====
-- internal/backuptypes/volume/volume.go: the archives of the mounted volumes and what Backup writes of
-- them.
use docker_backup.Base.{
  Bool, true, false, some, List, [], ◌∷◌, ◌++◌, map, ◌≡◌, ◌≢◌, ◌⊎◌, inl, inr, refl, sym, ap, String,
  subst, ◌∙◌, arith, Text, ◌==◌, has_suffix, contains, slash, select, if◌then◌else◌, All, All-of_In,
  In, In-All, In-select, Result, ok, err, wrapf, Bool-cases,
}
use docker_backup.Base.Map.{Map, get, put, get-put}
use docker_backup.Base.Paths.{path_base, path_dir}
use docker_backup.Base.Sort.{Pairwise}
use docker_backup.Base.Strings.Laws.{==_iff, ==_refl}
use mathlib.Core.List.{append-nil, append_assoc}
use docker_backup.Docker.{MountInfo, Daemon}
use docker_backup.Docker.Volumes.{Header, Control}
use docker_backup.BackupTypes.Volume.{
  Codec, Accepted, volume_kind, name_in_backup, renamed, written, write_entry, add_items,
  add_volume_to_tar, add_mounts,
}
use docker_backup.BackupTypes.Volume.Restore.{item_of, volume_dests}
use docker_backup.BackupTypes.Volume.Naming.{Rooted}

-- The mounts that are volumes.
abbrev pub is_volume : MountInfo → Bool
is_volume m = m.kind == volume_kind

-- What is relied on of the archive of a mount: a volume's name has no slash and is not mounted at the
-- root, and the archive has at least one entry, and each is named after the mount's last part and
-- has content only if it is a regular file.
pub record IsArchive (m : MountInfo) (es : List (Header × Text)) : Type 0 where
  pub plain : contains slash m.name ≡ false
  pub inner : has_suffix (path_base m.destination) (slash ∷ []) ≡ false
  pub filled : es ≢ []
  pub entries : All (λ e. Rooted (path_base m.destination) e.0.name × (written e.0 e.1 ≡ e)) es

unfoldable pub in_backup : MountInfo → Header × Text → Header × Text
in_backup m (h, body) = (renamed h (name_in_backup m.name (path_base m.destination) h.name), body)

module _ (arch : MountInfo → List (Header × Text)) where
  -- The entries of the backup.
  unfoldable pub backup_entries : List MountInfo → List (Header × Text)
  unfolding in_backup
  backup_entries [] = []
  backup_entries (m ∷ ms) = map (in_backup m) (arch m) ++ backup_entries ms

  -- Copying each archive to the parent of its mount, up to the first copy that fails.
  unfoldable pub copy_all :
      {W : Type 0} → Control W → Text → List MountInfo → W → Result (Unit {0}) × W
  copy_all control id [] w = (ok tt, w)
  copy_all control id (m ∷ ms) w =
      let (r, v) = control.copy_to id (path_dir m.destination) (map item_of (arch m)) w in
      elim r [
        | err e ↦ (err (wrapf "failed to restore volume: %w" [] e), v)
        | ok _ ↦ copy_all control id ms v
      ]

-- Backup and Restore look at the mounts of volumes only.
pub volume_dests-select :
    (ms : List MountInfo) (dests : Map Text)
    → volume_dests ms dests ≡ volume_dests (select is_volume ms) dests
unfolding volume_dests select
volume_dests-select [] dests = refl
volume_dests-select (m ∷ ms) dests = elim (Bool-cases (is_volume m)) [
  | inl t ↦ ground (arith, t, volume_dests-select ms (put m.name m.destination dests))
  | inr f ↦ ground (arith, f, volume_dests-select ms dests)
]

pub select-All_volumes : (ms : List MountInfo) → All (λ m. is_volume m ≡ true) (select is_volume ms)
select-All_volumes ms = All-of_In _ _ λ m i. (In-select is_volume m ms i).1

volume_dests-keeps :
    (ms : List MountInfo) (dests : Map Text) (name : Text)
    → All (λ m. m.name ≢ name) ms
    → get name (volume_dests ms dests) ≡ get name dests
unfolding volume_dests
volume_dests-keeps [] dests name a = refl
volume_dests-keeps (m ∷ ms) dests name a =
    volume_dests-keeps ms (if is_volume m then put m.name m.destination dests else dests) name a.1
    ∙ ground (arith, get-put m.name name m.destination dests, ==_iff m.name name, a.0)

-- A mounted volume's destination is found under its name, if no two volumes have one name.
pub volume_dests-own :
    (ms : List MountInfo) (dests : Map Text) (m : MountInfo)
    → All (λ m. is_volume m ≡ true) ms
    → Pairwise (λ m n. m.name ≢ n.name) ms
    → In m ms
    → get m.name (volume_dests ms dests) ≡ some m.destination
unfolding volume_dests
volume_dests-own [] dests m v p i = absurd i
volume_dests-own (n ∷ ms) dests m v p (inl e) =
    subst (λ (k : MountInfo). get k.name (volume_dests (n ∷ ms) dests) ≡ some k.destination) (sym e)
      (volume_dests-keeps ms _ n.name
          (All-of_In _ ms λ k i e. In-All (λ q. n.name ≢ q.name) k ms p.0 i (sym e))
        ∙ ground (arith, v.0, get-put n.name n.name n.destination dests, ==_refl n.name))
volume_dests-own (n ∷ ms) dests m v p (inr i) = volume_dests-own ms _ m v.1 p.1 i

-- Renaming an entry does not change which content is written.
written-rename :
    (r : Bool) (old new fields body : Text)
    → written (record { name = new; is_regular = r; fields = fields }) body ≡ (
      renamed (written (record { name = old; is_regular = r; fields = fields }) body).0 new,
      (written (record { name = old; is_regular = r; fields = fields }) body).1,
    )
written-rename true old new fields body = refl
written-rename false old new fields body = refl

written-renamed :
    (h : Header) (name body : Text)
    → written h body ≡ (h, body)
    → written (renamed h name) body ≡ (renamed h name, body)
written-renamed h name body e =
    written-rename h.is_regular h.name name h.fields body
    ∙ ap (λ (p : Header × Text). (renamed p.0 name, p.1)) e

pub write_entry_ok :
    (format : String) (a b : Result (Unit {0})) (h : Header) (body : Text)
    → a ≡ ok tt
    → (h.is_regular ≡ false) ⊎ (b ≡ ok tt)
    → write_entry format a b h body ≡ ok (written h body)
unfolding write_entry
write_entry_ok format a b h body e (inl f) = ground (arith, e, f)
write_entry_ok format a b h body e (inr f) = elim (Bool-cases h.is_regular) [
  | inl t ↦ ground (arith, e, f, t)
  | inr t ↦ ground (arith, e, f, t)
]

module _ {W : Type 0} (control : Control W) (id target : Text) where
  -- The stream to a directory of the container takes these entries after what has been written.
  abbrev pub Taken : List (Header × Text) → List (Header × Text) → Type 0
  Taken out [] = Unit {0}
  Taken out (e ∷ es) =
      ((w : W)
        → (control.takes_header id target (map item_of out) e.0 w ≡ ok tt)
          × ((e.0.is_regular ≡ false)
              ⊎ (control.takes_content id target (map item_of out) e.0 e.1 w ≡ ok tt)))
      × Taken (out ++ (e ∷ [])) es

module _ (codec : Codec) where
  -- What Backup writes of an archive.
  add_items_lem :
      (m : MountInfo) (es out : List (Header × Text))
      → All (λ e. (written e.0 e.1 ≡ e) × Accepted codec (in_backup m e)) es
      → add_items codec m.name (path_base m.destination) (map item_of es) out
        ≡ ok (out ++ map (in_backup m) es)
  unfolding add_items in_backup
  add_items_lem m [] out a = ap ok (sym (append-nil out))
  add_items_lem m ((h, body) ∷ es) out a =
      let name = name_in_backup m.name (path_base m.destination) h.name in
      let new = renamed h name in
      let wrote : write_entry "failed to write file to tar: %w" (codec.write_header new)
            (codec.write_content new body) new body
          ≡ ok (new, body) =
        write_entry_ok _ _ _ new body a.0.1.0 a.0.1.1 ∙ ap ok (written-renamed h name body a.0.0) in
      rw wrote (add_items_lem m es _ a.1 ∙ ap ok (append_assoc out _ _))

  map-Accepted :
      (m : MountInfo) (es rest : List (Header × Text))
      → All (λ e. Accepted codec (in_backup m e)) es
      → All (Accepted codec) rest
      → All (Accepted codec) (map (in_backup m) es ++ rest)
  map-Accepted m [] rest a b = b
  map-Accepted m (e ∷ es) rest a b = (a.0, map-Accepted m es rest a.1 b)

  pub backup_entries-Accepted :
      (arch : MountInfo → List (Header × Text)) (ms : List MountInfo)
      → All (λ m. All (λ e. Accepted codec (in_backup m e)) (arch m)) ms
      → All (Accepted codec) (backup_entries arch ms)
  unfolding backup_entries
  backup_entries-Accepted arch [] a = tt
  backup_entries-Accepted arch (m ∷ ms) a =
      map-Accepted m (arch m) (backup_entries arch ms) a.0 (backup_entries-Accepted arch ms a.1)

  module _ {W : Type 0} (d : Daemon W) (control : Control W) (id : Text)
      (arch : MountInfo → List (Header × Text)) where
    -- What Backup writes of the mounts.
    pub add_mounts_lem :
        (ms : List MountInfo) (out : List (Header × Text)) (w : W)
        → All
            (λ m.
              All (λ e. (written e.0 e.1 ≡ e) × Accepted codec (in_backup m e)) (arch m)
              × (control.copy_from id m.destination w ≡ ok (map item_of (arch m))))
            (select is_volume ms)
        → add_mounts d control codec id ms out w
          ≡ ok (out ++ backup_entries arch (select is_volume ms))
    unfolding add_mounts select backup_entries add_volume_to_tar
    add_mounts_lem [] out w a = ap ok (sym (append-nil out))
    add_mounts_lem (m ∷ ms) out w a = elim (Bool-cases (is_volume m)) [
      | inr f ↦ let b = rw (f, select) at a in ground (arith, f, add_mounts_lem ms out w b)
      | inl t ↦
          let b = rw (t, select) at a in
          let added : add_volume_to_tar d control codec id m.name m.destination out w
              ≡ ok (out ++ map (in_backup m) (arch m)) =
            ground (arith, b.0.1, add_items_lem m (arch m) out b.0.0) in
          ground (
            arith,
            t,
            added,
            add_mounts_lem ms (out ++ map (in_backup m) (arch m)) w b.1,
            append_assoc out (map (in_backup m) (arch m))
                (backup_entries arch (select is_volume ms)),
          )
    ]
