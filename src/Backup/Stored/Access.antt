-- ===== src/Backup/Stored/Access.antt =====
-- Which storage and which configuration the operations on stored backups work with.
use docker_backup.Base.{
  ℕ, false, not, some, List, [], ◌∷◌, ◌≡◌, ◌≢◌, ◌↔◌, inl, inr, refl, sym, ap, subst, ◌∙◌, arith,
  Option-cases, Text, ◌==◌, slash, contains, All, In, In-All, ok, Result-cases, In-select,
  select-In,
}
use docker_backup.Base.Strings.Laws.{==_iff, ==_refl}
use docker_backup.Base.Map.{Map, get}
use docker_backup.Config.Labels.{BackupConfig, ContainerConfig}
use docker_backup.Config.Labels.Order.{Distinct}
use docker_backup.Storage.{Storage, BackupFile, IsLawful}
use docker_backup.Storage.Pools.{get_for_container}
use docker_backup.Backup.{BackupType, Env}
use docker_backup.Backup.Keys.{generate_backup_key, get_storage_for_backup_key}
use docker_backup.Backup.Keys.RoundTrip.{Named, get_storage-generate_backup_key}
use docker_backup.Backup.Run.{run_backup}
use docker_backup.Backup.Stored.{find_container_config, find_backup_config, delete_backup, run_all}

-- findBackupConfig finds a configuration by its name.
pub find_backup_config_own :
    (cfg : ContainerConfig) (bs : List BackupConfig) (b : BackupConfig)
    → Distinct bs
    → In b bs
    → find_backup_config cfg b.name bs ≡ ok b
unfolding find_backup_config
find_backup_config_own cfg [] b d m = absurd m
find_backup_config_own cfg (c ∷ bs) b d (inl e) =
    ground (arith, e, ap (λ (x : BackupConfig). x.name) e, ==_refl c.name)
find_backup_config_own cfg (c ∷ bs) b d (inr m) = ground (
  arith,
  ==_iff c.name b.name,
  In-All (λ x. c.name ≢ x.name) b bs d.0 m,
  find_backup_config_own cfg bs b d.1 m,
)

module _ {W : Type 0} (env : Env W) (containers : Map ContainerConfig) where
  -- The answer of TriggerBackup's loop is no error exactly if every configuration's type is
  -- registered: whether the runs succeed plays no part.
  pub run_all_ok :
      (cfg : ContainerConfig) (id : Text) (bs : List BackupConfig) (w : W)
      → ((run_all env containers cfg id bs w).0 ≡ ok tt)
        ↔ All (λ b. (t : BackupType W) × (get b.backup_type env.types ≡ some t)) bs
  unfolding run_all
  run_all_ok cfg id [] w = (λ h. tt, λ a. refl)
  run_all_ok cfg id (b ∷ bs) w = elim (Option-cases (get b.backup_type env.types)) [
    | inl e ↦ (λ h. ground (arith, e), λ a. ground (arith, e, a.0.1))
    | inr (t, e) ↦
        let v = (run_backup env cfg b id t w).1 in
        (
          λ h. ((t, e), (run_all_ok cfg id bs v).0 (ground (arith, e))),
          λ a. ground (arith, e, (run_all_ok cfg id bs v).1 a.1),
        )
  ]

  module _ (name id extension : Text) (cfg : ContainerConfig) (b : BackupConfig) (t : ℕ) (w : W)
      (st : Storage W) (L : IsLawful st)
      (found : find_container_config env containers name w ≡ ok (cfg, id))
      (plain : contains slash cfg.container_name ≡ false)
      (plain_name : contains slash b.name ≡ false) (named : Named cfg.backups)
      (distinct : Distinct cfg.backups) (listed : In b cfg.backups)
      (pool : get_for_container W env.pools b.storage ≡ ok st) where
    abbrev key : Text
    key = generate_backup_key env cfg.container_name b.name extension t

    -- If DeleteBackup of a key that a run of a configuration generated answers with no error, the
    -- file of that key has gone from the configuration's own pool and every other file of it is
    -- there. The pool is lawful, the configurations have different names that are not empty, and
    -- neither the container's name nor the configuration's has a slash.
    pub delete_backup_generated :
        (delete_backup env containers name key w).0 ≡ ok tt
        → (f : BackupFile)
        → In f (L.files (delete_backup env containers name key w).1)
          ↔ (In f (L.files w) × (f.key ≢ key))
    unfolding delete_backup
    delete_backup_generated h f = elim (Result-cases (st.delete key w).0) [
      | inr (x, e) ↦ ground (arith, found, storage, e)
      | inl (u, e) ↦
          let gone = L.deleted key w (st.delete key w).1 (λ i. (e i, (st.delete key w).1)) in
          subst (λ (v : W). In f (L.files v) ↔ (In f (L.files w) × (f.key ≢ key)))
            {x = (st.delete key w).1} {y = (delete_backup env containers name key w).1}
            (ground (arith, found, storage))
            (subst (λ (fs : List BackupFile). In f fs ↔ (In f (L.files w) × (f.key ≢ key)))
              (sym gone)
              (
                λ m.
                    let r = In-select (λ (g : BackupFile). not (g.key == key)) f (L.files w) m in
                    (r.0, λ same. ground (arith, r.1, ==_iff f.key key)),
                λ r.
                    select-In (λ (g : BackupFile). not (g.key == key)) f (L.files w) r.0
                      (ground (arith, r.1, ==_iff f.key key)),
              ))
    ]
      where
        storage : get_storage_for_backup_key env cfg key ≡ ok st
        storage =
            get_storage-generate_backup_key env cfg b extension t plain plain_name named distinct
              listed
            ∙ pool
