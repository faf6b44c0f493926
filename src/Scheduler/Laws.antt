-- ===== src/Scheduler/Laws.antt =====
-- internal/scheduler/scheduler.go: the map of jobs and the cron entries.
use docker_backup.Base.{
  ℕ, true, none, some, ◌≡◌, ◌≢◌, ◌⊎◌, ◌↔◌, refl, ◌∙◌, arith, nat_eq, inl, inr, if◌then◌else◌,
  Bool-cases, Option-cases, Text, ◌==◌, Error, ok, err, Result-cases,
}
use docker_backup.Base.Strings.Laws.{==_iff}
use docker_backup.Base.Map.{get, put, remove, get-put, get-remove}
use docker_backup.Scheduler.{
  Cron, IsLawful, Scheduler, remove_job, register, add_job, scheduled, has_job,
}

-- Each key's entry is live, no two keys share one, and no entry is live without a key.
pub record IsConsistent {Job : Type 0} (C : Cron Job) (s : Scheduler C) : Type 0 where
  pub live : (k : Text) (id : ℕ) → get k s.jobs ≡ some id → C.entry id s.cron ≢ none
  pub injective : (j k : Text) (id : ℕ) → get j s.jobs ≡ some id → get k s.jobs ≡ some id → j ≡ k
  pub owned :
      (id : ℕ) (run : Text × Job)
      → C.entry id s.cron ≡ some run
      → (k : Text) × (get k s.jobs ≡ some id)

module _ {Job : Type 0} (C : Cron Job) (L : IsLawful C) (s : Scheduler C)
    (v : IsConsistent C s) where
  module _ (key : Text) (old : ℕ) (held : get key s.jobs ≡ some old) where
    abbrev dropped : Scheduler C
    dropped = record s { cron = C.remove_entry old s.cron; jobs = remove key s.jobs }

    dropped-IsConsistent : IsConsistent C dropped
    dropped-IsConsistent = record {
      live = λ k id h e. ground (
        arith,
        get-remove key k s.jobs,
        ==_iff key k,
        L.removed old id s.cron,
        v.live k id,
        v.injective k key id,
      );
      injective = λ j k id g h.
          v.injective j k id (ground (arith, get-remove key j s.jobs))
            (ground (arith, get-remove key k s.jobs));
      owned = λ id run h. keep id run h (v.owned id run (ground (arith, L.removed old id s.cron)));
    }
      where
        keep :
            (id : ℕ) (run : Text × Job)
            → C.entry id (C.remove_entry old s.cron) ≡ some run
            → (k : Text) × (get k s.jobs ≡ some id)
            → (k : Text) × (get k (remove key s.jobs) ≡ some id)
        keep id run h (k, g) =
            (k, ground (arith, get-remove key k s.jobs, ==_iff key k, L.removed old id s.cron))

  pub remove_job-IsConsistent : (key : Text) → IsConsistent C (remove_job C key s)
  unfolding remove_job
  remove_job-IsConsistent key = elim (Option-cases (get key s.jobs)) [
    | inl e ↦ rw (e, remove_job) v
    | inr (old, e) ↦ rw (e, remove_job) (dropped-IsConsistent key old e)
  ]

  -- Removing a job takes away what runs for its key and nothing else.
  pub scheduled-remove_job :
      (key k : Text)
      → scheduled C k (remove_job C key s) ≡ (if key == k then none else scheduled C k s)
  unfolding remove_job scheduled
  scheduled-remove_job key k = elim (Option-cases (get key s.jobs)) [
    | inl e ↦ ground (arith, e, ==_iff key k)
    | inr (old, e) ↦ elim (Option-cases (get k s.jobs)) [
      | inl n ↦ ground (arith, e, n, get-remove key k s.jobs)
      | inr (id, m) ↦ ground (
        arith,
        e,
        m,
        get-remove key k s.jobs,
        ==_iff key k,
        L.removed old id s.cron,
        v.injective key k old,
      )
    ]
  ]

  module _ (key spec : Text) (job : Job) (free : get key s.jobs ≡ none) where
    module _ (id : ℕ) (t : C.State) (run : C.add_func spec job s.cron ≡ (ok id, t)) where
      granted-IsConsistent : IsConsistent C (record { cron = t; jobs = put key id s.jobs })
      granted-IsConsistent = record {
        live = λ k i h e. ground (
          arith,
          (L.added spec job s.cron t id run).1,
          (L.added spec job s.cron t id run).2 i,
          get-put key k id s.jobs,
          v.live k i,
        );
        injective = λ j k i g h. same j k i g h;
        owned = λ i x h. elim (Bool-cases (nat_eq id i)) [
          | inl e ↦ (key, ground (arith, get-put key key id s.jobs, ==_iff key key))
          | inr e ↦ keep i x (v.owned i x (ground (arith, (L.added spec job s.cron t id run).2 i)))
        ];
      }
        where
          same :
              (j k : Text) (i : ℕ)
              → get j (put key id s.jobs) ≡ some i
              → get k (put key id s.jobs) ≡ some i
              → j ≡ k
          same j k i g h = ground (
            arith,
            get-put key j id s.jobs,
            get-put key k id s.jobs,
            ==_iff key j,
            ==_iff key k,
            v.live j i,
            v.live k i,
            v.injective j k i,
            (L.added spec job s.cron t id run).1,
          )

          keep :
              (i : ℕ) (x : Text × Job)
              → (k : Text) × (get k s.jobs ≡ some i)
              → (k : Text) × (get k (put key id s.jobs) ≡ some i)
          keep i x (k, g) = (k, ground (arith, get-put key k id s.jobs, ==_iff key k))

    module _ (e : Error) (t : C.State) (run : C.add_func spec job s.cron ≡ (err e, t)) where
      refused-IsConsistent : IsConsistent C (record s { cron = t })
      refused-IsConsistent = record {
        live = λ k i h n. ground (arith, (L.refused spec job s.cron t e run).1 i, v.live k i);
        injective = v.injective;
        owned = λ i x h. v.owned i x (ground (arith, (L.refused spec job s.cron t e run).1 i));
      }

    add_cases :
        ((id : ℕ) × (t : C.State) × (C.add_func spec job s.cron ≡ (ok id, t)))
        ⊎ ((e : Error) × (t : C.State) × (C.add_func spec job s.cron ≡ (err e, t)))
    add_cases = elim (Result-cases (C.add_func spec job s.cron).0) [
      | inl (id, p) ↦ inl (id, (C.add_func spec job s.cron).1, ground arith)
      | inr (e, p) ↦ inr (e, (C.add_func spec job s.cron).1, ground arith)
    ]

    register-IsConsistent : IsConsistent C (register C key spec job s).1
    unfolding register
    register-IsConsistent = elim add_cases [
      | inl (id, t, run) ↦ rw (run, register) (granted-IsConsistent id t run)
      | inr (e, t, run) ↦ rw (run, register) (refused-IsConsistent e t run)
    ]

    scheduled-register :
        (k : Text)
        → scheduled C k (register C key spec job s).1 ≡ (
            if key == k
            then (if C.accepts spec then some (spec, job) else none)
            else scheduled C k s)
    unfolding register scheduled
    scheduled-register k = elim add_cases [
      | inl (id, t, run) ↦ rw (run, register) (at_grant id t run)
      | inr (e, t, run) ↦
          rw (run, register)
            (ground
              (arith, (L.refused spec job s.cron t e run).0, ==_iff key k, at_refusal e t run))
    ]
      where
        at_refusal :
            (e : Error) (t : C.State)
            → C.add_func spec job s.cron ≡ (err e, t)
            → scheduled C k (record s { cron = t }) ≡ scheduled C k s
        at_refusal e t run = elim (Option-cases (get k s.jobs)) [
          | inl n ↦ ground (arith, n)
          | inr (i, n) ↦ ground (arith, n, (L.refused spec job s.cron t e run).1 i)
        ]

        at_grant :
            (id : ℕ) (t : C.State)
            → C.add_func spec job s.cron ≡ (ok id, t)
            → scheduled C k (record { cron = t; jobs = put key id s.jobs }) ≡ (
                if key == k
                then (if C.accepts spec then some (spec, job) else none)
                else scheduled C k s)
        at_grant id t run = elim (Option-cases (get k s.jobs)) [
          | inl n ↦ ground (
            arith,
            n,
            (L.added spec job s.cron t id run).0,
            (L.added spec job s.cron t id run).2 id,
            get-put key k id s.jobs,
            ==_iff key k,
          )
          | inr (i, n) ↦ ground (
            arith,
            n,
            (L.added spec job s.cron t id run).0,
            (L.added spec job s.cron t id run).1,
            (L.added spec job s.cron t id run).2 id,
            (L.added spec job s.cron t id run).2 i,
            get-put key k id s.jobs,
            ==_iff key k,
            v.live k i,
          )
        ]

    register_result : ((register C key spec job s).0 ≡ ok tt) ↔ (C.accepts spec ≡ true)
    unfolding register
    register_result = elim add_cases [
      | inl (id, t, run) ↦ rw (run, register) (λ _. (L.added spec job s.cron t id run).0, λ _. refl)
      | inr (e, t, run) ↦
          rw (run, register) (λ h. cc h, λ h. cc (h, (L.refused spec job s.cron t e run).0))
    ]

module _ {Job : Type 0} (C : Cron Job) (L : IsLawful C) (s : Scheduler C) (v : IsConsistent C s)
    (key spec : Text) (job : Job) where
  free_after_remove : get key (remove_job C key s).jobs ≡ none
  unfolding remove_job
  free_after_remove = ground (arith, get-remove key key s.jobs, ==_iff key key)

  -- AddJob keeps the map of jobs and the cron entries in step, also when the schedule is refused,
  -- over a lawful cron.
  pub add_job-IsConsistent : IsConsistent C (add_job C key spec job s).1
  unfolding add_job
  add_job-IsConsistent =
      register-IsConsistent C L (remove_job C key s) (remove_job-IsConsistent C L s v key) key spec
        job free_after_remove

  -- After AddJob the key runs the new job on the new schedule, or nothing if the schedule is
  -- refused, and every other key runs what it ran before, over a lawful cron and from a consistent
  -- scheduler.
  pub scheduled-add_job :
      (k : Text)
      → scheduled C k (add_job C key spec job s).1 ≡ (
          if key == k then (if C.accepts spec then some (spec, job) else none) else scheduled C k s)
  unfolding add_job
  scheduled-add_job k =
      scheduled-register C L (remove_job C key s) (remove_job-IsConsistent C L s v key) key spec job
        free_after_remove k
      ∙ ground (arith, scheduled-remove_job C L s v key k)

  pub add_job_result : ((add_job C key spec job s).0 ≡ ok tt) ↔ (C.accepts spec ≡ true)
  unfolding add_job
  add_job_result =
      register_result C L (remove_job C key s) (remove_job-IsConsistent C L s v key) key spec job
        free_after_remove

-- The jobs that the scheduler reports are those that run.
pub has_job-scheduled :
    {Job : Type 0} (C : Cron Job) (s : Scheduler C)
    → IsConsistent C s
    → (key : Text) → (has_job C key s ≡ true) ↔ (scheduled C key s ≢ none)
unfolding has_job scheduled
has_job-scheduled C s v key = elim (Option-cases (get key s.jobs)) [
  | inl e ↦ (λ h n. ground (arith, e), λ h. absurd (h (ground (arith, e))))
  | inr (id, e) ↦ (λ h n. v.live key id e (ground (arith, e)), λ h. ground (arith, e))
]
