-- ===== src/Tests/World.antt =====
-- A world whose back ends are concrete: a store of files in memory with a clock, and a table of
-- cron entries.
use docker_backup.Base.{
  ℕ, ◌+◌, ◌≤◌, Bool, true, false, not, Option, none, some, List, [], ◌∷◌, ◌≡◌, ◌≢◌, refl, sym, ap,
  subst, ◌∙◌, arith, nat_eq, length, if◌then◌else◌, Text, ◌==◌, text_lt, has_prefix, select, All,
  All-of_In, In-All, In-select, Error, errorf, Result, ok, err, ok_injective,
}
use docker_backup.Base.Strings.Laws.{==_iff}
use docker_backup.Base.Sort.{Pairwise, Permutes, Permutes-refl, Sorter, insertion_sorter}
use docker_backup.Config.Labels.{name_lt}
use docker_backup.Storage.{Storage, BackupFile, IsLawful}
use docker_backup.Retention.{newer}
use docker_backup.Scheduler
use docker_backup.Scheduler.{Cron}

pub text_lt-asym : (s t : Text) → text_lt s t ≡ true → text_lt t s ≡ false
unfolding text_lt
text_lt-asym [] [] h = refl
text_lt-asym [] (y ∷ t) h = refl
text_lt-asym (x ∷ s) [] h = ground arith
text_lt-asym (x ∷ s) (y ∷ t) h = ground (arith, text_lt-asym s t)

pub text_lt-trans_ge :
    (s t u : Text) → text_lt s t ≡ false → text_lt t u ≡ false → text_lt s u ≡ false
unfolding text_lt
text_lt-trans_ge [] t [] h k = refl
text_lt-trans_ge (x ∷ s) t [] h k = refl
text_lt-trans_ge [] [] (z ∷ u) h k = k
text_lt-trans_ge [] (y ∷ t) (z ∷ u) h k = ground arith
text_lt-trans_ge (x ∷ s) [] (z ∷ u) h k = ground arith
text_lt-trans_ge (x ∷ s) (y ∷ t) (z ∷ u) h k = ground (arith, text_lt-trans_ge s t u)

unfoldable pub by_name : Sorter name_lt
unfolding insertion_sorter
by_name =
    insertion_sorter name_lt (λ a b. text_lt-asym a.name b.name)
      (λ a b c. text_lt-trans_ge a.name b.name c.name)

pub newer-asym : (f g : BackupFile) → newer f g ≡ true → newer g f ≡ false
newer-asym f g h = ground arith

pub newer-trans_ge :
    (f g k : BackupFile) → newer f g ≡ false → newer g k ≡ false → newer f k ≡ false
newer-trans_ge f g k h i = ground arith

unfoldable pub by_time : Sorter newer
unfolding insertion_sorter
by_time = insertion_sorter newer newer-asym newer-trans_ge

-- The files in memory, of which no two have one key, and the time.
pub record World : Type 0 where
  pub now : ℕ
  pub files : List BackupFile
  pub unique : Pairwise (λ f g. f.key ≢ g.key) files

pub select-Pairwise :
    {A : Type 0} (R : A → A → Type 0) (p : A → Bool) (l : List A)
    → Pairwise R l
    → Pairwise R (select p l)
unfolding select
select-Pairwise R p [] h = tt
select-Pairwise R p (x ∷ l) h =
    elim (p x) as (λ (b : Bool). Pairwise R (if b then x ∷ select p l else select p l)) [
      | true ↦ (
        All-of_In (R x) (select p l) (λ y m. In-All (R x) y l h.0 (In-select p y l m).0),
        select-Pairwise R p l h.1,
      )
      | false ↦ select-Pairwise R p l h.1
    ]

abbrev pub others : Text → List BackupFile → List BackupFile
others key fs = select (λ f. not (f.key == key)) fs

pub others_apart : (key : Text) (fs : List BackupFile) → All (λ f. key ≢ f.key) (others key fs)
others_apart key fs =
    All-of_In (λ f. key ≢ f.key) (others key fs)
      (λ f m e.
        ground
          (arith, (In-select (λ (g : BackupFile). not (g.key == key)) f fs m).1, ==_iff f.key key))

pub ok_no_err : {A : Type 0} {a : A} {e : Error} → ok a ≡ err e → ⊥
ok_no_err h = cc

-- The body of a stored file is its key.
abbrev pub found_file : Text → List BackupFile → Result Text
found_file key [] = err (errorf "no such file" [])
found_file key (f ∷ fs) = ok key

abbrev pub memory : Storage World
memory = record {
  store = λ key body w. (
    ok tt,
    record {
      now = w.now + 1;
      files = record { key = key; size = length body; last_modified = w.now } ∷ others key w.files;
      unique =
          (others_apart key w.files, select-Pairwise _ (λ f. not (f.key == key)) w.files w.unique);
    },
  );
  list = λ prefix w. ok (select (λ f. has_prefix f.key prefix) w.files);
  delete = λ key w. (
    ok tt,
    record {
      now = w.now;
      files = others key w.files;
      unique = select-Pairwise _ (λ f. not (f.key == key)) w.files w.unique;
    },
  );
  retrieve = λ key w. found_file key (select (λ f. f.key == key) w.files);
}

abbrev pub memory_lawful : IsLawful memory
memory_lawful = record {
  files = λ w. w.files;
  unique = λ w. w.unique;
  listed = λ prefix w fs h.
      subst (λ (x : List BackupFile). Permutes x (select (λ f. has_prefix f.key prefix) w.files))
        (ok_injective h) (Permutes-refl _);
  deleted = λ key w v h. ap (λ (p : Result (Unit {0}) × World). p.1.files) (sym h);
  kept = λ key w v e h. absurd (ok_no_err (ap (λ (p : Result (Unit {0}) × World). p.0) h));
}

-- A table of cron entries, in which every number from `next` on is free. The schedule "" is refused.
pub record Table (Job : Type 0) : Type 0 where
  pub next : ℕ
  pub entry : ℕ → Option (Text × Job)
  pub free : (j : ℕ) → next ≤ j → entry j ≡ none

pub enter_free :
    {Job : Type 0} (spec : Text) (job : Job) (s : Table Job) (j : ℕ)
    → s.next + 1 ≤ j
    → (if nat_eq s.next j then some (spec, job) else s.entry j) ≡ none
enter_free spec job s j h = ground (arith, s.free j (omega arith))

abbrev pub enter : {Job : Type 0} → Text → Job → Table Job → Table Job
enter spec job s = record {
  next = s.next + 1;
  entry = λ j. if nat_eq s.next j then some (spec, job) else s.entry j;
  free = enter_free spec job s;
}

pub clear_free :
    {Job : Type 0} (id : ℕ) (s : Table Job) (j : ℕ)
    → s.next ≤ j
    → (if nat_eq id j then none else s.entry j) ≡ none
clear_free id s j h = ground (arith, s.free j h)

abbrev pub add_unless : {Job : Type 0} → Bool → Text → Job → Table Job → Result ℕ × Table Job
add_unless true spec job s = (err (errorf "empty spec string" []), s)
add_unless false spec job s = (ok s.next, enter spec job s)

abbrev pub table_cron : {Job : Type 0} → Cron Job
table_cron {Job = Job} = record {
  State = Table Job;
  add_func = λ spec job s. add_unless (spec == []) spec job s;
  remove_entry = λ id s. record {
    next = s.next;
    entry = λ j. if nat_eq id j then none else s.entry j;
    free = clear_free id s;
  };
  entry = λ id s. s.entry id;
  next = λ id s. id;
  accepts = λ spec. not (spec == []);
}

pub add_unless_added :
    {Job : Type 0} (refuse : Bool) (spec : Text) (job : Job) (s t : Table Job) (id : ℕ)
    → add_unless refuse spec job s ≡ (ok id, t)
    → (not refuse ≡ true)
      × (s.entry id ≡ none)
      × ((j : ℕ) → t.entry j ≡ (if nat_eq id j then some (spec, job) else s.entry j))
add_unless_added {Job = Job} true spec job s t id h =
    absurd (ok_no_err (sym (ap (λ (p : Result ℕ × Table Job). p.0) h)))
add_unless_added {Job = Job} false spec job s t id h =
    let same : s.next ≡ id = ok_injective (ap (λ (p : Result ℕ × Table Job). p.0) h) in
    (
      refl,
      subst (λ (i : ℕ). s.entry i ≡ none) same (s.free s.next (omega arith)),
      λ j.
          sym (ap (λ (p : Result ℕ × Table Job). p.1.entry j) h)
          ∙ ap (λ (i : ℕ). if nat_eq i j then some (spec, job) else s.entry j) same,
    )

pub add_unless_refused :
    {Job : Type 0} (refuse : Bool) (spec : Text) (job : Job) (s t : Table Job) (e : Error)
    → add_unless refuse spec job s ≡ (err e, t)
    → (not refuse ≡ false) × ((j : ℕ) → t.entry j ≡ s.entry j)
add_unless_refused {Job = Job} true spec job s t e h =
    (refl, λ j. sym (ap (λ (p : Result ℕ × Table Job). p.1.entry j) h))
add_unless_refused {Job = Job} false spec job s t e h =
    absurd (ok_no_err (ap (λ (p : Result ℕ × Table Job). p.0) h))

abbrev pub table_lawful : {Job : Type 0} → docker_backup.Scheduler.IsLawful (table_cron {Job = Job})
table_lawful {Job = Job} = record {
  added = λ spec job s t id h. add_unless_added (spec == []) spec job s t id h;
  refused = λ spec job s t x h. add_unless_refused (spec == []) spec job s t x h;
  removed = λ id j s. refl;
}
