-- ===== src/BackupTypes/Volume/Stopping.antt =====
-- internal/backuptypes/volume/volume.go: what the stopping of containers leaves for their restart.
use docker_backup.Base.{
  ℕ, Bool, true, false, none, some, List, [], ◌∷◌, ◌≡◌, ◌⊎◌, inl, inr, refl, sym, ap, subst, ◌∙◌,
  arith, Text, ◌==◌, if◌then◌else◌, All, Error, Result, ok, err, wrapf, ok_injective, bind_steps,
  Result-cases, Bool-cases,
}
use docker_backup.Base.Map.{Map, get, put, has, NodupKeys, get-put, put-NodupKeys, has-put}
use docker_backup.Base.Strings.Laws.{==_iff}
use docker_backup.Docker.{ContainerInfo, Daemon, get_container, inspect_all}
use docker_backup.Docker.Volumes.{
  Item, Control, get_containers_using_volume, stop_container, start_container,
}
use docker_backup.BackupTypes.Volume.{restart_containers, stop_each, stop_all}

-- What is relied on of Docker: an inspection tells whether the container runs; a stop that succeeds
-- stops the container, a start that succeeds makes it run, a stop and such a start change no other
-- container, and a copy changes nothing about which containers run. A stop that fails may have
-- stopped its container.
pub record IsControl {W : Type 0} (d : Daemon W) (control : Control W) : Type 0 where
  pub running : Text → W → Bool
  pub truthful :
      (id : Text) (w : W) (c : ContainerInfo)
      → get_container d id w ≡ ok c
      → running c.id w ≡ c.running
  pub stops :
      (id : Text) (seconds : ℕ) (w v : W) (j : Text)
      → control.container_stop id seconds w ≡ (ok tt, v)
      → running j v ≡ (if id == j then false else running j w)
  pub spares :
      (id : Text) (seconds : ℕ) (w : W) (j : Text)
      → (id == j) ≡ false
      → running j (control.container_stop id seconds w).1 ≡ running j w
  pub starts :
      (id : Text) (w v : W) (j : Text)
      → control.container_start id w ≡ (ok tt, v)
      → running j v ≡ (if id == j then true else running j w)
  pub copies :
      (id target : Text) (items : List Item) (w : W) (j : Text)
      → running j (control.copy_to id target items w).1 ≡ running j w

module _ {W : Type 0} (d : Daemon W) (control : Control W) (C : IsControl d control)
    (start_ok : (id : Text) (w : W) → (control.container_start id w).0 ≡ ok tt) where
  -- Whether a container ran before, as the map and the world tell.
  abbrev pub before : Map Bool → W → Text → Bool
  before stopped v j = elim (get j stopped) [ none ↦ C.running j v | some b ↦ b ]

  -- The map tells truly which containers ran in the world w, and those that are on it have stopped.
  abbrev pub Held : W → Map Bool → W → Type 0
  Held w stopped v =
      NodupKeys stopped
      × ((j : Text) → before stopped v j ≡ C.running j w)
      × ((j : Text) → has j stopped ≡ true → C.running j v ≡ false)

  abbrev pub Same : W → W → Type 0
  Same w v = (j : Text) → C.running j v ≡ C.running j w

  -- The error says that Docker has answered an error when it was to stop this container.
  abbrev pub StopFailed : Error → Text → Type 0
  StopFailed e j =
      (c : ContainerInfo) × (w u : W) × (x : Error) × (c.id ≡ j)
      × (control.container_stop j 30 w ≡ (err x, u))
      × (e ≡ wrapf "failed to stop container %s: %w" (c.name ∷ []) x)

  start_running :
      (id : Text) (w : W) (j : Text)
      → C.running j (start_container d control id w).1 ≡ (if id == j then true else C.running j w)
  unfolding start_container
  start_running id w j =
      C.starts id w (control.container_start id w).1 j
        (λ i. (start_ok id w i, (control.container_start id w).1))

  restart_running :
      (stopped : Map Bool) (v : W) (j : Text)
      → NodupKeys stopped
      → C.running j (restart_containers d control stopped v)
        ≡ elim (get j stopped) [ some true ↦ true | _ ↦ C.running j v ]
  unfolding restart_containers get
  restart_running [] v j h = refl
  restart_running ((id, true) ∷ more) v j h = ground (
    arith,
    restart_running more (start_container d control id v).1 j h.1,
    start_running id v j,
    ==_iff id j,
    h.0,
  )
  restart_running ((id, false) ∷ more) v j h =
      ground (arith, restart_running more v j h.1, ==_iff id j, h.0)

  restart_at :
      (w : W) (stopped : Map Bool) (v u : W) (j : Text)
      → Held w stopped v
      → C.running j u ≡ C.running j v
      → C.running j (restart_containers d control stopped u) ≡ C.running j w
  restart_at w stopped v u j h s = ground (arith, restart_running stopped u j h.0, h.1 j, h.2 j, s)

  -- After the restart the containers run that ran before.
  pub restart-Same :
      (w : W) (stopped : Map Bool) (v : W)
      → Held w stopped v
      → Same w (restart_containers d control stopped v)
  restart-Same w stopped v h j = restart_at w stopped v v j h refl

  abbrev pub Left : W → Error → W → Type 0
  Left w e v = (j : Text) → (C.running j v ≡ C.running j w) ⊎ StopFailed e j

  -- What the stopping of containers ends in: a map that tells the truth, or an error after which the
  -- containers run that ran before, apart from one whose stop has failed.
  abbrev pub Ends : W → Result (Map Bool) × W → Type 0
  Ends w p = elim p.0 [ ok stopped ↦ Held w stopped p.1 | err e ↦ Left w e p.1 ]

  -- The world has not changed for the containers that are not on the map.
  abbrev Known : W → Map Bool → ContainerInfo → Type 0
  Known w stopped c = has c.id stopped ≡ false → C.running c.id w ≡ c.running

  put-Known :
      (w : W) (stopped : Map Bool) (id : Text) (b : Bool) (cs : List ContainerInfo)
      → All (Known w stopped) cs
      → All (Known w (put id b stopped)) cs
  put-Known w stopped id b [] a = tt
  put-Known w stopped id b (c ∷ cs) a =
      (λ h. a.0 (ground (arith, has-put id c.id b stopped)), put-Known w stopped id b cs a.1)

  -- A container that is not running goes on the map.
  put-Held :
      (w : W) (stopped : Map Bool) (v u : W) (id : Text) (b : Bool)
      → Held w stopped v
      → has id stopped ≡ false
      → C.running id w ≡ b
      → ((j : Text) → C.running j u ≡ (if id == j then false else C.running j v))
      → Held w (put id b stopped) u
  put-Held w stopped v u id b h n r s = (
    put-NodupKeys id b stopped h.0,
    λ j. ground (arith, get-put id j b stopped, h.1 j, s j, ==_iff id j),
    λ j m. ground (arith, has-put id j b stopped, h.2 j, s j, ==_iff id j),
  )

  pub move-Held :
      (w : W) (stopped : Map Bool) (v u : W) → Held w stopped v → Same v u → Held w stopped u
  move-Held w stopped v u h s = (h.0, λ j. ground (arith, h.1 j, s j), λ j m. s j ∙ h.2 j m)

  stop_each-Ends :
      (w : W) (cs : List ContainerInfo) (stopped : Map Bool) (v : W)
      → Held w stopped v
      → All (Known w stopped) cs
      → Ends w (stop_each d control cs stopped v)
  unfolding stop_each
  stop_each-Ends w [] stopped v h a = h
  stop_each-Ends w (c ∷ cs) stopped v h a = elim (Bool-cases (has c.id stopped)) [
    | inl t ↦
        subst (Ends w) {x = stop_each d control cs stopped v}
          {y = stop_each d control (c ∷ cs) stopped v} (ground (arith, t))
          (stop_each-Ends w cs stopped v h a.1)
    | inr n ↦ elim (Bool-cases c.running) [
      | inr f ↦
          let held =
            put-Held w stopped v v c.id false h n (a.0 n ∙ f)
              (λ j. ground (arith, ==_iff c.id j, h.1 c.id, n, a.0 n, f)) in
          subst (Ends w) {x = stop_each d control cs (put c.id false stopped) v}
            {y = stop_each d control (c ∷ cs) stopped v} (ground (arith, n, f))
            (stop_each-Ends w cs _ v held (put-Known w stopped c.id false cs a.1))
      | inl t ↦ elim (Result-cases (stop_container d control c.id 30 v).0) [
        | inl (_, e) ↦
            let u = (stop_container d control c.id 30 v).1 in
            let held =
              put-Held w stopped v u c.id true h n (a.0 n ∙ t)
                (λ j. C.stops c.id 30 v u j (λ i. (e i, u))) in
            subst (Ends w) {x = stop_each d control cs (put c.id true stopped) u}
              {y = stop_each d control (c ∷ cs) stopped v} (ground (arith, n, t, e))
              (stop_each-Ends w cs _ u held (put-Known w stopped c.id true cs a.1))
        | inr (x, e) ↦
            let u = (stop_container d control c.id 30 v).1 in
            let e' = wrapf "failed to stop container %s: %w" (c.name ∷ []) x in
            let left : Left w e' (restart_containers d control stopped u) = λ j.
              elim (Bool-cases (c.id == j)) [
                | inl same ↦
                    let own = (==_iff c.id j).0 same in
                    inr (
                      c,
                      v,
                      u,
                      x,
                      own,
                      ap (λ k. control.container_stop k 30 v) (sym own) ∙ (λ i. (e i, u)),
                      refl,
                    )
                | inr other ↦ inl (restart_at w stopped v u j h (C.spares c.id 30 v j other))
              ] in
            subst (Ends w)
              {x = (
                err (wrapf "failed to stop container %s: %w" (c.name ∷ []) x),
                restart_containers d control stopped u,
              )}
              {y = stop_each d control (c ∷ cs) stopped v} (ground (arith, n, t, e)) left
      ]
    ]
  ]

  inspect_all-truthful :
      (ids : List Text) (w : W) → All (λ c. C.running c.id w ≡ c.running) (inspect_all d ids w)
  unfolding inspect_all
  inspect_all-truthful [] w = tt
  inspect_all-truthful (id ∷ ids) w = elim (Result-cases (get_container d id w)) [
    | inl (c, e) ↦
        subst (All (λ k. C.running k.id w ≡ k.running)) {x = c ∷ inspect_all d ids w}
          {y = inspect_all d (id ∷ ids) w} (ground (arith, e))
          (C.truthful id w c e, inspect_all-truthful ids w)
    | inr (x, e) ↦
        subst (All (λ k. C.running k.id w ≡ k.running)) {x = inspect_all d ids w}
          {y = inspect_all d (id ∷ ids) w} (ground (arith, e)) (inspect_all-truthful ids w)
  ]

  using-truthful :
      (volume : Text) (w : W) (cs : List ContainerInfo)
      → get_containers_using_volume d control volume w ≡ ok cs
      → All (λ c. C.running c.id w ≡ c.running) cs
  unfolding get_containers_using_volume
  using-truthful volume w cs e =
      let (ids, f, g) =
        bind_steps (control.containers_using volume w) (λ ids. ok (inspect_all d ids w)) e in
      subst (All (λ c. C.running c.id w ≡ c.running)) (ok_injective g) (inspect_all-truthful ids w)

  All-Known :
      (w : W) (stopped : Map Bool) (v : W) (cs : List ContainerInfo)
      → Held w stopped v
      → All (λ c. C.running c.id v ≡ c.running) cs
      → All (Known w stopped) cs
  All-Known w stopped v [] h a = tt
  All-Known w stopped v (c ∷ cs) h a =
      (λ n. ground (arith, h.1 c.id, a.0), All-Known w stopped v cs h a.1)

  pub stop_all-Ends :
      (w : W) (volumes : List Text) (stopped : Map Bool) (v : W)
      → Held w stopped v
      → Ends w (stop_all d control volumes stopped v)
  unfolding stop_all
  stop_all-Ends w [] stopped v h = h
  stop_all-Ends w (volume ∷ volumes) stopped v h =
      elim (Result-cases (get_containers_using_volume d control volume v)) [
        | inr (x, e) ↦
            subst (Ends w) {x = stop_all d control volumes stopped v}
              {y = stop_all d control (volume ∷ volumes) stopped v} (ground (arith, e))
              (stop_all-Ends w volumes stopped v h)
        | inl (cs, e) ↦
            let u = (stop_each d control cs stopped v).1 in
            let ends =
              stop_each-Ends w cs stopped v h
                (All-Known w stopped v cs h (using-truthful volume v cs e)) in
            elim (Result-cases (stop_each d control cs stopped v).0) [
              | inl (more, f) ↦
                  let held : Held w more u = subst (λ r. Ends w (r, u)) f ends in
                  subst (Ends w) {x = stop_all d control volumes more u}
                    {y = stop_all d control (volume ∷ volumes) stopped v} (ground (arith, e, f))
                    (stop_all-Ends w volumes more u held)
              | inr (x, f) ↦
                  let left : Left w x u = subst (λ r. Ends w (r, u)) f ends in
                  subst (Ends w) {x = (err x, u)}
                    {y = stop_all d control (volume ∷ volumes) stopped v} (ground (arith, e, f))
                    left
            ]
      ]

  pub start-Held : (w : W) → Held w [] w
  unfolding get
  start-Held w = (tt, λ j. refl, λ j m. cc)
