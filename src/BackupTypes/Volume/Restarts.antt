-- ===== src/BackupTypes/Volume/Restarts.antt =====
-- internal/backuptypes/volume/volume.go: the containers that run before and after a backup or a
-- restore.
use docker_backup.Base.{
  none, some, Option, List, [], ◌∷◌, map, ◌≡◌, inl, inr, refl, subst, arith, Text, ◌==◌, ◌⊎◌, Error,
  ok, err, List-cases, Result-cases, Bool-cases, Option-cases,
}
use docker_backup.Base.Map.{Map, get}
use docker_backup.Docker.{ContainerInfo, Daemon}
use docker_backup.Docker.Volumes.{Item, Control}
use docker_backup.Docker.Volumes.Item.{entry, broken, cancelled}
use docker_backup.Base.Paths.{path_dir}
use docker_backup.BackupTypes.Volume.{
  Codec, stop_all, volume_names, backup, split_volume_path, renamed, name_in_container,
}
use docker_backup.BackupTypes.Volume.Restore.{
  Stream, close, finish_current, stream_for, restore_items, restore_archive, restore, volume_dests,
  item_of, extended, send_entry,
}
use docker_backup.BackupTypes.Volume.Stopping.{
  IsControl, Held, Same, Left, StopFailed, Ends, restart-Same, move-Held, stop_all-Ends, start-Held,
}

module _ {W : Type 0} (d : Daemon W) (control : Control W) (C : IsControl d control)
    (start_ok : (id : Text) (w : W) → (control.container_start id w).0 ≡ ok tt) where
  module _ (codec : Codec) (c : ContainerInfo) where
    -- After the Backup of a container's volumes, on every branch, a container runs exactly if it
    -- ran before, or Docker has answered an error to its stop and Backup ends with this error, if
    -- no start fails. Docker is relied on for inspections that tell the truth, a stop that
    -- succeeds and stops its container, stops and starts that touch no other container, and copies
    -- that stop and start none.
    pub backup_restarts :
        (w : W) (j : Text)
        → (C.running j (backup d control codec c w).1 ≡ C.running j w)
          ⊎ ((e : Error) × StopFailed d control C start_ok e j
              × ((backup d control codec c w).0 ≡ err e))
    unfolding backup
    backup_restarts w j = elim (List-cases c.mounts) [
      | inl e ↦ inl (ground (arith, e))
      | inr (m, ms, e) ↦
          let names = volume_names c.mounts in
          let v = (stop_all d control names [] w).1 in
          let ends =
            stop_all-Ends d control C start_ok w names [] w (start-Held d control C start_ok w) in
          elim (Result-cases (stop_all d control names [] w).0) [
            | inl (stopped, f) ↦
                let held : Held d control C start_ok w stopped v =
                  subst (λ r. Ends d control C start_ok w (r, v)) f ends in
                inl (ground (arith, e, f, restart-Same d control C start_ok w stopped v held j))
            | inr (x, f) ↦
                let left : Left d control C start_ok w x v =
                  subst (λ r. Ends d control C start_ok w (r, v)) f ends in
                elim (left j) [
                  | inl same ↦ inl (ground (arith, e, f, same))
                  | inr fails ↦ inr (x, fails, ground (arith, e, f))
                ]
          ]
    ]

    module _ (dests : Map Text) where
      finish-Same :
          (current : Option Stream) (v : W)
          → Same d control C start_ok v (finish_current control codec c.id dests current v).1
      unfolding finish_current
      finish-Same none v j = refl
      finish-Same (some s) v j = C.copies c.id _ _ v j

      stream-Same :
          (volume dest : Text) (current : Option Stream) (v : W)
          → Same d control C start_ok v
              (stream_for control codec c.id dests volume dest current v).1
      unfolding stream_for
      stream-Same volume dest none v j = refl
      stream-Same volume dest (some s) v j = elim (Bool-cases (s.volume_name == volume)) [
        | inl t ↦ ground (arith, t)
        | inr f ↦ elim (Result-cases (close control codec c.id dests s v).0) [
          | inl (u, e) ↦
              ground (arith, f, e, C.copies c.id (path_dir s.dest) (map item_of s.written) v j)
          | inr (x, e) ↦
              ground (arith, f, e, C.copies c.id (path_dir s.dest) (map item_of s.written) v j)
        ]
      ]

      restore_items-Same :
          (items : List Item) (current : Option Stream) (v : W)
          → Same d control C start_ok v (restore_items control codec c.id dests items current v).1
      unfolding restore_items
      restore_items-Same [] current v j = finish-Same current v j
      restore_items-Same (cancelled e ∷ items) current v j = finish-Same current v j
      restore_items-Same (broken e ∷ items) current v j = finish-Same current v j
      restore_items-Same (entry h body ∷ items) current v j =
          let volume = (split_volume_path h.name).0 in
          elim (Option-cases (get volume dests)) [
            | inl e ↦ ground (arith, e, restore_items-Same items current v j)
            | inr (dest, e) ↦
                let u = (stream_for control codec c.id dests volume dest current v).1 in
                let to_u = stream-Same volume dest current v j in
                elim (Result-cases (stream_for control codec c.id dests volume dest current v).0) [
                  | inr (x, f) ↦ ground (arith, e, f, to_u)
                  | inl (s, f) ↦
                      let wrote =
                        send_entry control codec c.id dests s
                          (renamed h (name_in_container dest (split_volume_path h.name).1 h.name))
                          body u in
                      elim (Result-cases wrote) [
                        | inr (x, g) ↦ ground (
                          arith,
                          e,
                          f,
                          g,
                          to_u,
                          C.copies c.id (path_dir s.dest) (codec.abandoned s.written x) u j,
                        )
                        | inl (y, g) ↦ ground (
                          arith,
                          e,
                          f,
                          g,
                          to_u,
                          restore_items-Same items (some (extended control codec c.id dests s y)) u
                              j,
                        )
                      ]
                ]
          ]

    -- After the Restore of a container's volumes, on every branch, a container runs exactly if it
    -- ran before, or Docker has answered an error to its stop and Restore ends with this error, if
    -- no start fails. Docker is relied on for inspections that tell the truth, a stop that
    -- succeeds and stops its container, stops and starts that touch no other container, and copies
    -- that stop and start none.
    pub restore_restarts :
        (body : Text) (w : W) (j : Text)
        → (C.running j (restore d control codec c body w).1 ≡ C.running j w)
          ⊎ ((e : Error) × StopFailed d control C start_ok e j
              × ((restore d control codec c body w).0 ≡ err e))
    unfolding restore restore_archive
    restore_restarts body w j = elim (List-cases c.mounts) [
      | inl e ↦ inl (ground (arith, e))
      | inr (m, ms, e) ↦ elim (List-cases (volume_dests c.mounts [])) [
        | inl f ↦ inl (ground (arith, e, f))
        | inr (y, ys, f) ↦
            let dests = volume_dests c.mounts [] in
            let names = volume_names c.mounts in
            let v = (stop_all d control names [] w).1 in
            let ends =
              stop_all-Ends d control C start_ok w names [] w (start-Held d control C start_ok w) in
            elim (Result-cases (stop_all d control names [] w).0) [
              | inr (x, g) ↦
                  let left : Left d control C start_ok w x v =
                    subst (λ r. Ends d control C start_ok w (r, v)) g ends in
                  elim (left j) [
                    | inl same ↦ inl (ground (arith, e, f, g, same))
                    | inr fails ↦ inr (x, fails, ground (arith, e, f, g))
                  ]
              | inl (stopped, g) ↦
                  let held : Held d control C start_ok w stopped v =
                    subst (λ r. Ends d control C start_ok w (r, v)) g ends in
                  elim (Result-cases (codec.items body)) [
                    | inr (x, h) ↦ inl (
                        ground
                          (arith, e, f, g, h, restart-Same d control C start_ok w stopped v held j))
                    | inl (items, h) ↦
                        let u = (restore_items control codec c.id dests items none v).1 in
                        inl (
                          ground (
                            arith,
                            e,
                            f,
                            g,
                            h,
                            restart-Same d control C start_ok w stopped u
                                (move-Held d control C start_ok w stopped v u held
                                  (restore_items-Same dests items none v))
                                j,
                          ))
                  ]
            ]
      ]
    ]
