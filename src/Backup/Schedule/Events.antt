-- ===== src/Backup/Schedule/Events.antt =====
-- handleEvent and syncContainers of internal/backup/manager.go, and runs of events.
use docker_backup.Base.{
  Bool, ◌||◌, true, false, List, [], ◌∷◌, inl, inr, subst, arith, if◌then◌else◌, Text, ◌==◌, codes,
  Result, ok, err, Result-cases,
}
use docker_backup.Base.Map.{Map}
use docker_backup.Config.Labels.{ContainerConfig, parse_labels}
use docker_backup.Docker.{ContainerInfo, get_container, list_containers}
use docker_backup.Scheduler.Api.{Jobs}
use docker_backup.Backup.{Env, Job}
use docker_backup.Backup.Schedule.{
  Manager, schedule_container, remove_container, schedule_enabled, add_container, unchanged,
  sync_one, sync_all, seen, drop_unseen, sync_listed, sync_containers, handle_event, prefix,
}
use docker_backup.Backup.Schedule.Owned.{
  IsOwned, remove_container-IsOwned, schedule_container-IsOwned,
}

module _ {W : Type 0} (J : Jobs (Job W)) (env : Env W) where
  schedule_enabled-IsOwned :
      (id : Text) (r : Result ContainerConfig) (m : Manager J env)
      → IsOwned J env m
      → IsOwned J env (schedule_enabled J env id r m)
  unfolding schedule_enabled
  schedule_enabled-IsOwned id (err e) m o = o
  schedule_enabled-IsOwned id (ok cfg) m o =
      elim cfg.enabled
        as (λ (x : Bool). IsOwned J env (if x then schedule_container J env id cfg m else m)) [
          | true ↦ schedule_container-IsOwned J env id cfg m o
          | false ↦ o
        ]

  add_container-IsOwned :
      (id : Text) (w : W) (m : Manager J env)
      → IsOwned J env m
      → IsOwned J env (add_container J env id w m)
  unfolding add_container
  add_container-IsOwned id w m o =
      elim (get_container env.daemon id w)
        as (λ (x : Result ContainerInfo). IsOwned J env (elim x [
          | err e ↦ m
          | ok info ↦
              schedule_enabled J env id
                (parse_labels env.label_sorter prefix info.id info.name info.labels) m
        ])) [ err e ↦ o | ok info ↦ schedule_enabled-IsOwned id _ m o ]

  sync_all-IsOwned :
      (infos : List ContainerInfo) (m : Manager J env)
      → IsOwned J env m
      → IsOwned J env (sync_all J env infos m)
  unfolding sync_all sync_one
  sync_all-IsOwned [] m o = o
  sync_all-IsOwned (info ∷ infos) m o = sync_all-IsOwned infos _ (one info m o)
    where
      one :
          (info : ContainerInfo) (m : Manager J env)
          → IsOwned J env m
          → IsOwned J env (sync_one J env info m)
      one info m o =
          let parsed = parse_labels env.label_sorter prefix info.id info.name info.labels in
          elim (unchanged J env info.id parsed m)
            as (λ (x : Bool).
              IsOwned J env (if x then m else schedule_enabled J env info.id parsed m)) [
                | true ↦ o
                | false ↦ schedule_enabled-IsOwned info.id parsed m o
              ]

  drop_unseen-IsOwned :
      (infos : List ContainerInfo) (c : Map ContainerConfig) (m : Manager J env)
      → IsOwned J env m
      → IsOwned J env (drop_unseen J env infos c m)
  unfolding drop_unseen
  drop_unseen-IsOwned infos [] m o = o
  drop_unseen-IsOwned infos ((id, cfg) ∷ rest) m o =
      drop_unseen-IsOwned infos rest _
        (elim (seen J env id infos)
          as (λ (x : Bool). IsOwned J env (if x then m else remove_container J env id m)) [
            | true ↦ o
            | false ↦ remove_container-IsOwned J env id m o
          ])

  pub sync_listed-IsOwned :
      (infos : List ContainerInfo) (m : Manager J env)
      → IsOwned J env m
      → IsOwned J env (sync_listed J env infos m)
  unfolding sync_listed
  sync_listed-IsOwned infos m o =
      drop_unseen-IsOwned infos (sync_all J env infos m).containers _ (sync_all-IsOwned infos m o)

  sync_containers-IsOwned :
      (w : W) (m : Manager J env) → IsOwned J env m → IsOwned J env (sync_containers J env w m).1
  unfolding sync_containers
  sync_containers-IsOwned w m o = elim (Result-cases (list_containers env.daemon w)) [
    | inl (infos, e) ↦
        subst (IsOwned J env) {x = sync_listed J env infos m} (ground (arith, e))
          (sync_listed-IsOwned infos m o)
    | inr (x, e) ↦ subst (IsOwned J env) {x = m} (ground (arith, e)) o
  ]

  either_way :
      (t : Bool) (m n : Manager J env)
      → IsOwned J env m
      → IsOwned J env n
      → IsOwned J env (if t then m else n)
  either_way true m n o p = o
  either_way false m n o p = p

  -- After any event, every job runs a configuration of a container that is tracked.
  pub handle_event-IsOwned :
      (action id : Text) (w : W) (m : Manager J env)
      → IsOwned J env m
      → IsOwned J env (handle_event J env action id w m)
  unfolding handle_event
  handle_event-IsOwned action id w m o =
      either_way (action == codes "start") _ _ (add_container-IsOwned id w m o) (
        either_way (action == codes "stop" || action == codes "die") _ _
          (remove_container-IsOwned J env id m o)
          (either_way (action == codes "sync") _ _ (sync_containers-IsOwned w m o) o))

  -- A run of the manager: the events in their order, each in the world as it finds it.
  abbrev pub run_events : List (Text × Text × W) → Manager J env → Manager J env
  run_events [] m = m
  run_events ((action, id, w) ∷ events) m = run_events events (handle_event J env action id w m)

  -- After any sequence of events, each handled in the world as it then is, every scheduled job
  -- runs a configuration of a container that is tracked with it, under that configuration's key,
  -- schedule and registered type, if this held before.
  pub run_events-IsOwned :
      (events : List (Text × Text × W)) (m : Manager J env)
      → IsOwned J env m
      → IsOwned J env (run_events events m)
  run_events-IsOwned [] m o = o
  run_events-IsOwned ((action, id, w) ∷ events) m o =
      run_events-IsOwned events _ (handle_event-IsOwned action id w m o)
