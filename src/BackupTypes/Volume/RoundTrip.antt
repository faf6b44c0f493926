-- ===== src/BackupTypes/Volume/RoundTrip.antt =====
-- internal/backuptypes/volume/volume.go: Restore after Backup.
use docker_backup.Base.{
  Bool, some, List, [], map, ◌≡◌, ◌≢◌, inl, inr, refl, sym, ap, subst, ◌∙◌, arith, Text, select,
  All, All-of_In, In, In-All, List-cases, ok,
}
use docker_backup.Base.Map.{Map, get}
use docker_backup.Base.Paths.{path_dir}
use docker_backup.Base.Sort.{Pairwise}
use docker_backup.Docker.{MountInfo, ContainerInfo, Daemon}
use docker_backup.Docker.Volumes.{Header, Control}
use docker_backup.BackupTypes.Volume.{
  Codec, Accepted, volume_names, stop_all, restart_containers, archive, backup,
}
use docker_backup.BackupTypes.Volume.Restore.{item_of, volume_dests, restore_archive, restore}
use docker_backup.BackupTypes.Volume.Archived.{
  in_backup, Taken, backup_entries-Accepted, is_volume, IsArchive, backup_entries, copy_all,
  volume_dests-select, select-All_volumes, volume_dests-own, add_mounts_lem,
}
use docker_backup.BackupTypes.Volume.Streams.{restore_entries}

module _ {W : Type 0} (d : Daemon W) (control : Control W) (codec : Codec)
    (opens : codec.new_writer ≡ ok tt)
    (unpacks : (es : List (Header × Text))
      → All (Accepted codec) es
      → codec.items (codec.compress es) ≡ ok (map item_of es))
    (c : ContainerInfo) (arch : MountInfo → List (Header × Text))
    (different : Pairwise (λ m n. m.name ≢ n.name) (select is_volume c.mounts))
    (mounted : select is_volume c.mounts ≢ []) where
  mounts_filled : c.mounts ≡ [] → ⊥
  unfolding select
  mounts_filled e = mounted (ap (select is_volume) e)

  dests_own :
      (m : MountInfo)
      → In m (select is_volume c.mounts)
      → get m.name (volume_dests c.mounts []) ≡ some m.destination
  dests_own m i =
      ap (get m.name) (volume_dests-select c.mounts [])
      ∙ volume_dests-own (select is_volume c.mounts) [] m (select-All_volumes c.mounts) different i

  dests_filled : volume_dests c.mounts [] ≡ [] → ⊥
  unfolding get
  dests_filled e = elim (List-cases (select is_volume c.mounts)) [
    | inl f ↦ mounted f
    | inr (m, ms, f) ↦
        let own = dests_own m (subst (In m) (sym f) (inl refl)) in
        ground (arith, own, ap (get m.name) e)
  ]

  -- Backup of a container gives an archive from which Restore copies to the parent of every
  -- mounted volume exactly the entries that Docker gave for that volume, one volume after the
  -- other, up to the first copy that fails, and then restarts the containers. The conditions:
  -- Docker gives the archives, the stopping of the containers succeeds in Backup and in Restore,
  -- the writers are opened, the writer of the backup and the streams to the container take these
  -- entries, and what was packed of entries that the writer takes is read back. The mounted
  -- volumes, of which there is one at least, have different names without a slash, none is mounted
  -- at the root, and their archives are not empty, have contents for regular files only and are
  -- named after the last part of the mount.
  pub restore-backup :
      (w v : W) (stopped : Map Bool)
      → stop_all d control (volume_names c.mounts) [] w ≡ (ok stopped, v)
      → All
          (λ m.
            IsArchive m (arch m)
            × All (λ e. Accepted codec (in_backup m e)) (arch m)
            × Taken control c.id (path_dir m.destination) [] (arch m)
            × (control.copy_from c.id m.destination v ≡ ok (map item_of (arch m))))
          (select is_volume c.mounts)
      → (body : Text) × ((backup d control codec c w).0 ≡ ok body)
        × ((u x : W) (again : Map Bool)
            → stop_all d control (volume_names c.mounts) [] u ≡ (ok again, x)
            → restore d control codec c body u ≡ (
              (copy_all arch control c.id (select is_volume c.mounts) x).0,
              restart_containers d control again
                  (copy_all arch control c.id (select is_volume c.mounts) x).1,
            ))
  unfolding backup archive restore restore_archive
  restore-backup w v stopped halted archives =
      let vols = select is_volume c.mounts in
      let dests = volume_dests c.mounts [] in
      let entries = backup_entries arch vols in
      let added = add_mounts_lem codec d control c.id arch c.mounts [] v (
        All-of_In _ vols λ m i.
          let (A, fits, taken, copied) = In-All _ m vols archives i in
          (
            All-of_In _ (arch m)
                (λ e k. ((In-All _ e (arch m) A.entries k).1, In-All _ e (arch m) fits k)),
            copied,
          )) in
      let ready : All
          (λ m.
            IsArchive m (arch m)
            × (get m.name dests ≡ some m.destination)
            × Taken control c.id (path_dir m.destination) [] (arch m))
          vols =
        All-of_In _ vols (λ m i.
          let (A, fits, taken, copied) = In-All _ m vols archives i in (A, dests_own m i, taken)) in
      let fit : All (Accepted codec) entries =
        backup_entries-Accepted codec arch vols
          (All-of_In _ vols (λ m i. (In-All _ m vols archives i).1)) in
      elim (List-cases c.mounts) [
        | inl e ↦ absurd (mounts_filled e)
        | inr (m, ms, e) ↦ elim (List-cases dests) [
          | inl f ↦ absurd (dests_filled f)
          | inr (y, ys, f) ↦ (
            codec.compress entries,
            ground (arith, e, halted, opens, added),
            λ u x again halts. ground (
              arith,
              e,
              f,
              halts,
              unpacks entries fit,
              restore_entries codec control c.id arch dests vols x ready different,
            ),
          )
        ]
      ]
