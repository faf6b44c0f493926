-- ===== src/Backup/Keys/RoundTrip.antt =====
-- generateBackupKey and getStorageForBackupKey of internal/backup/manager.go, one after the other.
use docker_backup.Base.{
  ℕ, true, false, some, List, [], ◌∷◌, ◌++◌, ◌≡◌, ◌≢◌, inl, inr, ap, subst, ◌∙◌, arith, Text, cut,
  split, slash, contains, has_prefix, All, In, In-All,
}
use mathlib.Core.List.{append_assoc}
use docker_backup.Base.Strings.Laws.{
  ==_iff, ==_refl, split-append, has_prefix-append, has_prefix-split, cut-append,
}
use docker_backup.Config.Labels.{BackupConfig, ContainerConfig}
use docker_backup.Config.Labels.Order.{Distinct}
use docker_backup.Storage.Pools.{get_for_container}
use docker_backup.Backup.{Env}
use docker_backup.Backup.Keys.{
  backup_prefix, find_by_path, generate_backup_key, get_storage_for_backup_key,
}

-- Every configuration has a name.
abbrev pub Named : List BackupConfig → Type 0
Named = All λ b. b.name ≢ []

pub find_by_path_own :
    (bs : List BackupConfig) (b : BackupConfig)
    → Named bs
    → Distinct bs
    → In b bs
    → find_by_path b.name bs ≡ some b
unfolding find_by_path
find_by_path_own [] b n d m = absurd m
find_by_path_own (c ∷ bs) b n d (inl e) =
    ground (arith, e, n.0, ==_iff c.name [], ap (λ (x : BackupConfig). x.name) e, ==_refl c.name)
find_by_path_own (c ∷ bs) b n d (inr m) = ground (
  arith,
  n.0,
  ==_iff c.name [],
  ==_iff c.name b.name,
  In-All (λ x. c.name ≢ x.name) b bs d.0 m,
  find_by_path_own bs b n.1 d.1 m,
)

module _ {W : Type 0} (env : Env W) where
  pub parts_of_key :
      (container path extension : Text) (t : ℕ)
      → contains slash container ≡ false
      → contains slash path ≡ false
      → split slash (generate_backup_key env container path extension t)
        ≡ container
          ∷ path
          ∷ split slash (env.clock.date t ++ (slash ∷ (env.clock.time_of_day t ++ extension)))
  unfolding generate_backup_key
  parts_of_key container path extension t h h' =
      split-append slash container (path ++ (slash ∷ rest)) h
      ∙ ap (λ (x : List Text). container ∷ x) (split-append slash path rest h')
    where
      rest : Text
      rest = env.clock.date t ++ (slash ∷ (env.clock.time_of_day t ++ extension))

  -- The key that a run generates for a configuration leads back to the pool of that configuration,
  -- if the configurations have names, no two the same one, and neither the container's name nor
  -- the configuration's has a slash.
  pub get_storage-generate_backup_key :
      (cfg : ContainerConfig) (b : BackupConfig) (extension : Text) (t : ℕ)
      → contains slash cfg.container_name ≡ false
      → contains slash b.name ≡ false
      → Named cfg.backups
      → Distinct cfg.backups
      → In b cfg.backups
      → get_storage_for_backup_key env cfg
          (generate_backup_key env cfg.container_name b.name extension t)
        ≡ get_for_container W env.pools b.storage
  unfolding get_storage_for_backup_key
  get_storage-generate_backup_key cfg b extension t h h' n d m = ground (
    arith,
    parts_of_key cfg.container_name b.name extension t h h',
    find_by_path_own cfg.backups b n d m,
  )

  -- A generated key lies under the prefix of its own container and configuration and under that of
  -- no other, if no name has a slash.
  pub generate_backup_key-prefix :
      (container path container' path' extension : Text) (t : ℕ)
      → contains slash container ≡ false
      → contains slash path ≡ false
      → contains slash container' ≡ false
      → contains slash path' ≡ false
      → (has_prefix
              (generate_backup_key env container path extension t)
              (backup_prefix container' path')
            ≡ true
          → (container ≡ container') × (path ≡ path'))
        × (has_prefix
              (generate_backup_key env container path extension t)
              (backup_prefix container path)
            ≡ true)
  unfolding generate_backup_key
  generate_backup_key-prefix container path container' path' extension t c p c' p' = (there, back)
    where
      rest : Text
      rest = env.clock.date t ++ (slash ∷ (env.clock.time_of_day t ++ extension))

      regroup :
          (a b r : Text)
          → (a ++ (slash ∷ (b ++ (slash ∷ [])))) ++ r ≡ a ++ (slash ∷ (b ++ (slash ∷ r)))
      regroup a b r =
          append_assoc a (slash ∷ (b ++ (slash ∷ []))) r
          ∙ ap (λ (x : Text). a ++ (slash ∷ x)) (append_assoc b (slash ∷ []) r)

      same :
          (r : Text)
          → generate_backup_key env container path extension t
            ≡ container' ++ (slash ∷ (path' ++ (slash ∷ r)))
          → (container ≡ container') × (path ≡ path')
      same r e = ground (
        arith,
        ap (cut slash) e,
        cut-append slash container (path ++ (slash ∷ rest)) c,
        cut-append slash container' (path' ++ (slash ∷ r)) c',
        cut-append slash path rest p,
        cut-append slash path' r p',
      )

      there :
          has_prefix
              (generate_backup_key env container path extension t)
              (backup_prefix container' path')
            ≡ true
          → (container ≡ container') × (path ≡ path')
      there h = same _ (has_prefix-split _ _ h ∙ regroup container' path' _)

      back :
          has_prefix
            (generate_backup_key env container path extension t)
            (backup_prefix container path)
          ≡ true
      back =
          subst (λ (x : Text). has_prefix x (backup_prefix container path) ≡ true)
            (regroup container path rest) (has_prefix-append (backup_prefix container path) rest)
