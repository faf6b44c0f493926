-- ===== src/Backup/Schedule/Synced.antt =====
-- Events and synchronisation: what they keep, and which containers are tracked after a sync.
use docker_backup.Base.{
  Bool, ◌||◌, ◌&&◌, not, true, false, none, some, List, [], ◌∷◌, ◌≡◌, inl, inr, refl, sym, ap,
  subst, arith, if◌then◌else◌, Bool-cases, Text, ◌==◌, codes, colon, contains, All, ok,
  Result-cases, bind_steps,
}
use docker_backup.Base.Strings.Laws.{==_iff}
use docker_backup.Base.Map.{Map, get, remove, has, NodupKeys, get-remove, get-has}
use docker_backup.Config.Labels.{ContainerConfig, parse_labels, disabled}
use docker_backup.Config.Labels.Parsed.{parse_labels_cases}
use docker_backup.Config.Labels.Order.{Distinct, parse_named_configs-Distinct}
use docker_backup.Docker.{
  ContainerInfo, Inspect, Daemon, container_info, get_container, inspect_all, list_containers,
}
use docker_backup.Scheduler.Api.{Jobs}
use docker_backup.Backup.{Env, Job}
use docker_backup.Backup.Schedule.{
  Manager, schedule_container, remove_container, schedule_enabled, add_container, unchanged,
  sync_one, sync_all, seen, drop_unseen, sync_listed, sync_containers, handle_event, prefix,
}
use docker_backup.Backup.Schedule.Complete.{
  IsComplete, remove_container-IsComplete, schedule_container-IsComplete,
}

-- What Docker's answers satisfy: an id, which is hexadecimal, has no colon, and a container has no
-- label twice.
pub record IsPlain (info : ContainerInfo) : Type 0 where
  pub id_plain : contains colon info.id ≡ false
  pub labels_once : NodupKeys info.labels

pub record IsDocker {W : Type 0} (d : Daemon W) : Type 0 where
  pub answers :
      (id : Text) (w : W) (i : Inspect)
      → d.container_inspect id w ≡ ok i
      → IsPlain (container_info i)

module _ {W : Type 0} (d : Daemon W) (D : IsDocker d) where
  pub get_container-IsPlain :
      (id : Text) (w : W) (info : ContainerInfo) → get_container d id w ≡ ok info → IsPlain info
  unfolding get_container
  get_container-IsPlain id w info h =
      let (i, e, f) = bind_steps (d.container_inspect id w) _ h in
      subst IsPlain (ground (arith, f)) (D.answers id w i e)

  inspect_all-IsPlain : (ids : List Text) (w : W) → All IsPlain (inspect_all d ids w)
  unfolding inspect_all
  inspect_all-IsPlain [] w = tt
  inspect_all-IsPlain (id ∷ ids) w = elim (Result-cases (get_container d id w)) [
    | inl (info, e) ↦
        subst (All IsPlain) {x = info ∷ inspect_all d ids w} (ground (arith, e))
          (get_container-IsPlain id w info e, inspect_all-IsPlain ids w)
    | inr (x, e) ↦
        subst (All IsPlain) {x = inspect_all d ids w} (ground (arith, e))
          (inspect_all-IsPlain ids w)
  ]

  pub list_containers-IsPlain :
      (w : W) (infos : List ContainerInfo) → list_containers d w ≡ ok infos → All IsPlain infos
  unfolding list_containers
  list_containers-IsPlain w infos h =
      let (ids, e, f) = bind_steps (d.container_list w) _ h in
      subst (All IsPlain) (ground (arith, f)) (inspect_all-IsPlain ids w)

module _ {W : Type 0} (J : Jobs (Job W)) (env : Env W) where
  labels-Distinct :
      (info : ContainerInfo) (cfg : ContainerConfig)
      → IsPlain info
      → parse_labels env.label_sorter prefix info.id info.name info.labels ≡ ok cfg
      → Distinct cfg.backups
  labels-Distinct info cfg p h =
      elim (parse_labels_cases env.label_sorter prefix info.id info.name info.labels cfg h) [
        | inl e ↦
            subst (λ (c : ContainerConfig). Distinct c.backups) {x = disabled info.id info.name}
              (sym e) tt
        | inr (on, some_, named, ns) ↦
            parse_named_configs-Distinct env.label_sorter prefix info.name info.labels p.labels_once
              cfg.backups named
      ]

  schedule_enabled-IsComplete :
      (id : Text) (info : ContainerInfo) (m : Manager J env)
      → contains colon id ≡ false
      → IsPlain info
      → IsComplete J env m
      → IsComplete J env (
          schedule_enabled J env id
            (parse_labels env.label_sorter prefix info.id info.name info.labels)
            m)
  unfolding schedule_enabled
  schedule_enabled-IsComplete id info m h p c =
      elim (Result-cases (parse_labels env.label_sorter prefix info.id info.name info.labels)) [
        | inr (x, e) ↦ subst (IsComplete J env) {x = m} (ground (arith, e)) c
        | inl (cfg, e) ↦ elim (Bool-cases cfg.enabled) [
          | inr f ↦ subst (IsComplete J env) {x = m} (ground (arith, e, f)) c
          | inl t ↦
              subst (IsComplete J env) {x = schedule_container J env id cfg m}
                (ground (arith, e, t))
                (schedule_container-IsComplete J env id cfg m h (labels-Distinct info cfg p e) c)
        ]
      ]

  add_container-IsComplete :
      (D : IsDocker env.daemon) (id : Text) (w : W) (m : Manager J env)
      → contains colon id ≡ false
      → IsComplete J env m
      → IsComplete J env (add_container J env id w m)
  unfolding add_container
  add_container-IsComplete D id w m h c = elim (Result-cases (get_container env.daemon id w)) [
    | inr (x, e) ↦ subst (IsComplete J env) {x = m} (ground (arith, e)) c
    | inl (info, e) ↦
        subst (IsComplete J env)
          {x = schedule_enabled J env id
            (parse_labels env.label_sorter prefix info.id info.name info.labels) m}
          (ground (arith, e))
          (schedule_enabled-IsComplete id info m h (get_container-IsPlain env.daemon D id w info e)
            c)
  ]

  sync_all-IsComplete :
      (infos : List ContainerInfo) (m : Manager J env)
      → All IsPlain infos
      → IsComplete J env m
      → IsComplete J env (sync_all J env infos m)
  unfolding sync_all sync_one
  sync_all-IsComplete [] m a c = c
  sync_all-IsComplete (info ∷ infos) m a c =
      sync_all-IsComplete infos _ a.1
        (elim (unchanged J env info.id
            (parse_labels env.label_sorter prefix info.id info.name info.labels) m)
          as (λ (x : Bool). IsComplete J env (
            if x
            then m
            else schedule_enabled J env info.id
                (parse_labels env.label_sorter prefix info.id info.name info.labels) m)) [
                  | true ↦ c
                  | false ↦ schedule_enabled-IsComplete info.id info m a.0.id_plain a.0 c
                ])

  drop_unseen-IsComplete :
      (infos : List ContainerInfo) (c : Map ContainerConfig) (m : Manager J env)
      → IsComplete J env m
      → IsComplete J env (drop_unseen J env infos c m)
  unfolding drop_unseen
  drop_unseen-IsComplete infos [] m o = o
  drop_unseen-IsComplete infos ((id, cfg) ∷ rest) m o =
      drop_unseen-IsComplete infos rest _
        (elim (seen J env id infos)
          as (λ (x : Bool). IsComplete J env (if x then m else remove_container J env id m)) [
            | true ↦ o
            | false ↦ remove_container-IsComplete J env id m o
          ])

  sync_containers-IsComplete :
      (D : IsDocker env.daemon) (w : W) (m : Manager J env)
      → IsComplete J env m
      → IsComplete J env (sync_containers J env w m).1
  unfolding sync_containers sync_listed
  sync_containers-IsComplete D w m c = elim (Result-cases (list_containers env.daemon w)) [
    | inl (infos, e) ↦
        subst (IsComplete J env) {x = sync_listed J env infos m} (ground (arith, e)) (
          drop_unseen-IsComplete infos (sync_all J env infos m).containers _
            (sync_all-IsComplete infos m (list_containers-IsPlain env.daemon D w infos e) c))
    | inr (x, e) ↦ subst (IsComplete J env) {x = m} (ground (arith, e)) c
  ]

  either_way :
      (t : Bool) (m n : Manager J env)
      → IsComplete J env m
      → IsComplete J env n
      → IsComplete J env (if t then m else n)
  either_way true m n o p = o
  either_way false m n o p = p

  -- An event of a container whose id has no colon keeps this invariant: every configuration of a
  -- tracked container whose type is registered, whose pool exists and whose schedule parses has
  -- its job. Docker's answers are assumed to have ids without a colon and no label twice.
  pub handle_event-IsComplete :
      (D : IsDocker env.daemon) (action id : Text) (w : W) (m : Manager J env)
      → contains colon id ≡ false
      → IsComplete J env m
      → IsComplete J env (handle_event J env action id w m)
  unfolding handle_event
  handle_event-IsComplete D action id w m h c =
      either_way (action == codes "start") _ _ (add_container-IsComplete D id w m h c) (
        either_way (action == codes "stop" || action == codes "die") _ _
          (remove_container-IsComplete J env id m c)
          (either_way (action == codes "sync") _ _ (sync_containers-IsComplete D w m c) c))

  remove_container_containers :
      (id : Text) (m : Manager J env)
      → (remove_container J env id m).containers ≡ remove id m.containers
  unfolding remove_container
  remove_container_containers id m = refl

  drop_unseen_lem :
      (infos : List ContainerInfo) (c : Map ContainerConfig) (m : Manager J env) (id : Text)
      → get id (drop_unseen J env infos c m).containers
        ≡ (if has id c && not (seen J env id infos) then none else get id m.containers)
  unfolding drop_unseen get
  drop_unseen_lem infos [] m id = refl
  drop_unseen_lem infos ((k, cfg) ∷ rest) m id = elim (Bool-cases (seen J env k infos)) [
    | inl t ↦ ground (arith, t, ==_iff k id, drop_unseen_lem infos rest m id)
    | inr f ↦ ground (
      arith,
      f,
      ==_iff k id,
      drop_unseen_lem infos rest (remove_container J env k m) id,
      ap (get id) (remove_container_containers k m),
      get-remove k id m.containers,
    )
  ]

  -- After a sync every tracked container was listed by Docker.
  pub sync_listed_tracked :
      (infos : List ContainerInfo) (m : Manager J env) (id : Text) (cfg : ContainerConfig)
      → get id (sync_listed J env infos m).containers ≡ some cfg
      → seen J env id infos ≡ true
  unfolding sync_listed
  sync_listed_tracked infos m id cfg h = ground (
    arith,
    drop_unseen_lem infos (sync_all J env infos m).containers (sync_all J env infos m) id,
    get-has id (sync_all J env infos m).containers,
  )
