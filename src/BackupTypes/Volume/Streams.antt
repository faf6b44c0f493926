-- ===== src/BackupTypes/Volume/Streams.antt =====
-- internal/backuptypes/volume/volume.go: what Restore does with the entries of a backup.
use docker_backup.Base.{
  false, none, some, Option, List, [], ◌∷◌, ◌++◌, map, ◌≡◌, ◌≢◌, ◌⊎◌, inl, inr, refl, sym, ap, ◌∙◌,
  arith, Text, ◌==◌, has_suffix, contains, slash, All, Error, ok, err, wrapf, Result-cases,
}
use docker_backup.Base.Map.{Map, get}
use docker_backup.Base.Paths.{path_base, path_dir}
use docker_backup.Base.Sort.{Pairwise}
use docker_backup.Base.Strings.Laws.{==_iff, ==_refl}
use mathlib.Core.List.{append-nil, append_assoc, map-append}
use docker_backup.Docker.{MountInfo}
use docker_backup.Docker.Volumes.{Header, Item, Control}
use docker_backup.BackupTypes.Volume.{
  Codec, name_in_backup, split_volume_path, name_in_container, renamed, written,
}
use docker_backup.BackupTypes.Volume.Restore.{
  Stream, item_of, close, finish_current, stream_for, extended, send_entry, restore_items,
}
use docker_backup.BackupTypes.Volume.Naming.{Rooted, name_in_container-name_in_backup}
use docker_backup.BackupTypes.Volume.Archived.{
  IsArchive, in_backup, Taken, backup_entries, copy_all, write_entry_ok,
}

module _ (codec : Codec) {W : Type 0} (control : Control W) (id : Text)
    (arch : MountInfo → List (Header × Text)) where
  module _ (dests : Map Text) where
    -- One entry of a volume goes under its old name to the volume's stream.
    abbrev Own : MountInfo → Header × Text → Type 0
    Own m e = Rooted (path_base m.destination) e.0.name × (written e.0 e.1 ≡ e)

    abbrev stream_of : MountInfo → List (Header × Text) → Stream
    stream_of m es = record { volume_name = m.name; dest = m.destination; written = es }

    module _ (m : MountInfo) (plain : contains slash m.name ≡ false)
        (inner : has_suffix (path_base m.destination) (slash ∷ []) ≡ false)
        (found : get m.name dests ≡ some m.destination) where
      restore_entry :
          (e : Header × Text) (items : List Item) (current : Option Stream) (s : Stream) (w v : W)
          → Own m e
          → (control.takes_header id (path_dir s.dest) (map item_of s.written) e.0 v ≡ ok tt)
            × ((e.0.is_regular ≡ false)
                ⊎ (control.takes_content id (path_dir s.dest) (map item_of s.written) e.0 e.1 v
                    ≡ ok tt))
          → stream_for control codec id dests m.name m.destination current w ≡ (ok s, v)
          → restore_items control codec id dests (item_of (in_backup m e) ∷ items) current w
            ≡ restore_items control codec id dests items
                (some (extended control codec id dests s e))
                v
      unfolding restore_items in_backup send_entry
      restore_entry (h, body) items current s w v own took to =
          let name = name_in_backup m.name (path_base m.destination) h.name in
          let names =
            name_in_container-name_in_backup m.name (path_base m.destination) plain inner
              m.destination h.name refl own.0 in
          let found' : get (split_volume_path name).0 dests ≡ some m.destination =
            ap (λ x. get x dests) names.0 ∙ found in
          let to' : stream_for control codec id dests (split_volume_path name).0 m.destination
                current w
              ≡ (ok s, v) =
            ap (λ x. stream_for control codec id dests x m.destination current w) names.0 ∙ to in
          let wrote : send_entry control codec id dests s
                (renamed h (name_in_container m.destination (split_volume_path name).1 name)) body v
              ≡ ok (h, body) =
            ap (λ x. send_entry control codec id dests s (renamed h x) body v) names.1
            ∙ write_entry_ok _ _ _ h body took.0 took.1
            ∙ ap ok own.1 in
          ground (arith, found', to', wrote)

      stream_for_same :
          (out : List (Header × Text)) (w : W)
          → stream_for control codec id dests m.name m.destination (some (stream_of m out)) w
            ≡ (ok (stream_of m out), w)
      unfolding stream_for ◌==◌
      stream_for_same out w = rw (==_refl m.name) refl

      restore_same :
          (es out : List (Header × Text)) (items : List Item) (w : W)
          → All (Own m) es
          → Taken control id (path_dir m.destination) out es
          → restore_items control codec id dests
              (map item_of (map (in_backup m) es) ++ items)
              (some (stream_of m out))
              w
            ≡ restore_items control codec id dests items (some (stream_of m (out ++ es))) w
      unfolding extended
      restore_same [] out items w a k =
          ap (λ x. restore_items control codec id dests items (some (stream_of m x)) w)
            (sym (append-nil out))
      restore_same (e ∷ es) out items w a k =
          restore_entry e _ (some (stream_of m out)) (stream_of m out) w w a.0 (k.0 w)
            (stream_for_same out w)
          ∙ restore_same es (out ++ e ∷ []) items w a.1 k.1
          ∙ ap (λ x. restore_items control codec id dests items (some (stream_of m x)) w)
              (append_assoc out (e ∷ []) es)

      -- The entries of an archive go to a stream of their own.
      restore_group :
          (es : List (Header × Text)) (items : List Item) (current : Option Stream) (w v : W)
          → es ≢ []
          → All (Own m) es
          → Taken control id (path_dir m.destination) [] es
          → stream_for control codec id dests m.name m.destination current w
            ≡ (ok (stream_of m []), v)
          → restore_items control codec id dests
              (map item_of (map (in_backup m) es) ++ items)
              current
              w
            ≡ restore_items control codec id dests items (some (stream_of m es)) v
      unfolding extended
      restore_group [] items current w v n a k to = absurd (n refl)
      restore_group (e ∷ es) items current w v n a k to =
          restore_entry e _ current (stream_of m []) w v a.0 (k.0 v) to
          ∙ restore_same es (e ∷ []) items v a.1 k.1

      -- If the stream in front of them does not end well, Restore stops there.
      restore_stops :
          (es : List (Header × Text)) (items : List Item) (current : Option Stream) (w v : W)
          (x : Error)
          → es ≢ []
          → All (Own m) es
          → stream_for control codec id dests m.name m.destination current w ≡ (err x, v)
          → restore_items control codec id dests
              (map item_of (map (in_backup m) es) ++ items)
              current
              w
            ≡ (err x, v)
      unfolding restore_items in_backup
      restore_stops [] items current w v x n a to = absurd (n refl)
      restore_stops ((h, body) ∷ es) items current w v x n a to =
          let name = name_in_backup m.name (path_base m.destination) h.name in
          let names =
            name_in_container-name_in_backup m.name (path_base m.destination) plain inner
              m.destination h.name refl a.0.0 in
          let found' : get (split_volume_path name).0 dests ≡ some m.destination =
            ap (λ x. get x dests) names.0 ∙ found in
          let to' : stream_for control codec id dests (split_volume_path name).0 m.destination
                current w
              ≡ (err x, v) =
            ap (λ x. stream_for control codec id dests x m.destination current w) names.0 ∙ to in
          ground (arith, found', to')

    stream_for_next :
        (m n : MountInfo) (w : W)
        → m.name ≢ n.name
        → stream_for control codec id dests n.name n.destination (some (stream_of m (arch m))) w
          ≡ (elim (close control codec id dests (stream_of m (arch m)) w).0 [
            | err e ↦ (
              err (wrapf "failed to restore volume: %w" [] e),
              (close control codec id dests (stream_of m (arch m)) w).1,
            )
            | ok _ ↦
                (ok (stream_of n []), (close control codec id dests (stream_of m (arch m)) w).1)
          ])
    unfolding stream_for
    stream_for_next m n w d = ground (arith, d, ==_iff m.name n.name)

    abbrev Ready : MountInfo → Type 0
    Ready m =
        IsArchive m (arch m)
        × (get m.name dests ≡ some m.destination)
        × Taken control id (path_dir m.destination) [] (arch m)

    restore_rest :
        (m : MountInfo) (ms : List MountInfo) (w : W)
        → All Ready ms
        → Pairwise (λ m n. m.name ≢ n.name) (m ∷ ms)
        → restore_items control codec id dests
            (map item_of (backup_entries arch ms))
            (some (stream_of m (arch m)))
            w
          ≡ copy_all arch control id (m ∷ ms) w
    unfolding copy_all restore_items finish_current close backup_entries
    restore_rest m [] w a p =
        elim (Result-cases (close control codec id dests (stream_of m (arch m)) w).0) [
          | inl (_, e) ↦ ground (arith, e)
          | inr (x, e) ↦ ground (arith, e)
        ]
    restore_rest m (n ∷ ms) w a p =
        let v = (close control codec id dests (stream_of m (arch m)) w).1 in
        let A = a.0.0 in
        let cut =
          ap (λ is. restore_items control codec id dests is (some (stream_of m (arch m))) w)
            (map-append item_of (map (in_backup n) (arch n)) (backup_entries arch ms)) in
        elim (Result-cases (close control codec id dests (stream_of m (arch m)) w).0) [
          | inl (_, e) ↦
              cut
              ∙ restore_group n A.plain A.inner a.0.1 (arch n) _ (some (stream_of m (arch m))) w v
                  A.filled A.entries a.0.2 (ground (arith, stream_for_next m n w p.0.0, e))
              ∙ restore_rest n ms v a.1 p.1
              ∙ ground (arith, e)
          | inr (x, e) ↦
              cut
              ∙ restore_stops n A.plain A.inner a.0.1 (arch n) _ (some (stream_of m (arch m))) w v
                  (wrapf "failed to restore volume: %w" [] x) A.filled A.entries
                  (ground (arith, stream_for_next m n w p.0.0, e))
              ∙ ground (arith, e)
        ]

    pub restore_entries :
        (ms : List MountInfo) (w : W)
        → All Ready ms
        → Pairwise (λ m n. m.name ≢ n.name) ms
        → restore_items control codec id dests (map item_of (backup_entries arch ms)) none w
          ≡ copy_all arch control id ms w
    unfolding copy_all restore_items finish_current backup_entries stream_for
    restore_entries [] w a p = refl
    restore_entries (m ∷ ms) w a p =
        let A = a.0.0 in
        ap (λ is. restore_items control codec id dests is none w)
          (map-append item_of (map (in_backup m) (arch m)) (backup_entries arch ms))
        ∙ restore_group m A.plain A.inner a.0.1 (arch m) _ none w w A.filled A.entries a.0.2 refl
        ∙ restore_rest m ms w a.1 p
