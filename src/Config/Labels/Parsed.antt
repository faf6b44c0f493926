-- ===== src/Config/Labels/Parsed.antt =====
-- What ParseLabels returns, read off the labels.
use docker_backup.Base.{
  ℕ, ◌≤◌, ◌≡◌, ◌≢◌, ◌⊎◌, ◌↔◌, refl, sym, subst, ◌∙◌, arith, true, false, Option, none, some, List,
  [], ◌∷◌, ◌++◌, inl, inr, Bool-cases, Text, ◌==◌, dot, In, either, ok,
}
use docker_backup.Base.Strings.Laws.{==_refl, ==→eq, ==_iff}
use mathlib.Core.Path.{fun_ext}
use docker_backup.Base.Map.{Map, get, has, get-has, NodupKeys}
use docker_backup.Base.Numbers.{parse_bool}
use docker_backup.Base.Sort.{Sorter, IsSorted, Permutes-In, Permutes-sym}
use docker_backup.Config.Labels.{
  BackupConfig, ContainerConfig, label_type, label_schedule, label_retention, label_storage,
  label_notify, label_enable, trimmed, value_of, parse_notify_value, parse_retention,
  parse_config_group, parse_groups, group_of, group_labels, name_lt, parse_named_configs,
  require_backups, parse_enabled, parse_labels, disabled,
}
use docker_backup.Config.Labels.Groups.{
  IsName, AreGroups, label_of, get-group_labels, group_labels-AreGroups, has-group_labels,
}

-- `b` is what the properties `props` say about the configuration `b.name`.
pub record Reads (container : Text) (props : Text → Option Text) (b : BackupConfig) : Type 0 where
  pub backup_type : b.backup_type ≡ trimmed (props label_type)
  pub has_type : b.backup_type ≢ []
  pub schedule : b.schedule ≡ trimmed (props label_schedule)
  pub has_schedule : b.schedule ≢ []
  pub retention : parse_retention b.name container (props label_retention) ≡ ok b.retention
  pub keeps_one : 1 ≤ b.retention
  pub storage : b.storage ≡ trimmed (props label_storage)
  pub notify :
      b.notify ≡ elim (props label_notify) [ none ↦ [] | some val ↦ parse_notify_value val ]

parse_retention-pos :
    (name container : Text) (o : Option Text) (n : ℕ)
    → parse_retention name container o ≡ ok n
    → 1 ≤ n
unfolding parse_retention
parse_retention-pos name container none n h = ground arith
parse_retention-pos name container (some val) n h = ground arith

not-empty : (s : Text) → (s == []) ≡ false → s ≢ []
unfolding ◌==◌
not-empty s h e = ground (arith, ==_iff s [])

pub parse_config_group-Reads :
    (name container : Text) (props : Map Text) (b : BackupConfig)
    → parse_config_group name container props ≡ ok b
    → (b.name ≡ name) × Reads container (λ p. get p props) b
unfolding parse_config_group
parse_config_group-Reads name container props b h = ground (
  arith,
  not-empty (trimmed (get label_type props)),
  not-empty (trimmed (get label_schedule props)),
  parse_retention-pos name container (get label_retention props),
)

-- A run of the second loop, taken apart at its first group.
pub parse_groups-cons :
    (container name : Text) (props : Map Text) (groups : Map (Map Text)) (bs : List BackupConfig)
    → parse_groups container ((name, props) ∷ groups) ≡ ok bs
    → (c : BackupConfig) × (rest : List BackupConfig) × (parse_config_group name container props
        ≡ ok c)
      × (parse_groups container groups ≡ ok rest)
      × (bs ≡ c ∷ rest)
unfolding parse_groups
parse_groups-cons container name props groups bs h = ground arith

pub parse_groups-nil :
    (container : Text) (bs : List BackupConfig) → parse_groups container [] ≡ ok bs → bs ≡ []
unfolding parse_groups
parse_groups-nil container bs h = ground arith

pub parse_groups-In :
    (container : Text) (groups : Map (Map Text)) (bs : List BackupConfig) (b : BackupConfig)
    → NodupKeys groups
    → parse_groups container groups ≡ ok bs
    → In b bs
    → (props : Map Text) × (get b.name groups ≡ some props)
      × (parse_config_group b.name container props ≡ ok b)
unfolding get
parse_groups-In container [] bs b u h m = absurd (subst (In b) (parse_groups-nil container bs h) m)
parse_groups-In container ((name, props) ∷ groups) bs b u h m =
    let (c, rest, p, q, e) = parse_groups-cons container name props groups bs h in
    either
      (λ here. (
        props,
        ground (arith, here, parse_config_group-Reads name container props c p, ==_iff name b.name),
        ground (arith, here, parse_config_group-Reads name container props c p),
      ))
      (λ there. later (parse_groups-In container groups rest b u.1 q there)) (subst (In b) e m)
  where
    later :
        (ps : Map Text) × (get b.name groups ≡ some ps)
          × (parse_config_group b.name container ps ≡ ok b)
        → (ps : Map Text) × (get b.name ((name, props) ∷ groups) ≡ some ps)
          × (parse_config_group b.name container ps ≡ ok b)
    later (ps, g, r) = (ps, ground (arith, ==_iff name b.name), r)

parse_groups-has :
    (container name : Text) (groups : Map (Map Text)) (bs : List BackupConfig)
    → parse_groups container groups ≡ ok bs
    → has name groups ≡ true
    → (b : BackupConfig) × In b bs × (b.name ≡ name)
unfolding get
parse_groups-has container name [] bs h m = cc
parse_groups-has container name ((n, props) ∷ groups) bs h m =
    let (c, rest, p, q, e) = parse_groups-cons container n props groups bs h in
    elim (Bool-cases (n == name)) [
      | inl t ↦
          (c, rw e (inl refl), (parse_config_group-Reads n container props c p).0 ∙ ==→eq n name t)
      | inr f ↦
          let (b, i, s) = parse_groups-has container name groups rest q (ground arith) in
          (b, rw e (inr i), s)
    ]

module _ (prefix : Text) (labels : Map Text) where
  abbrev pub groups : Map (Map Text)
  groups = group_labels (prefix ++ dot ∷ []) labels []

  pub groups_of_labels : AreGroups groups
  unfolding get
  groups_of_labels = group_labels-AreGroups (prefix ++ dot ∷ []) labels [] (record {
    nodup = tt;
    names = λ name h. absurd (cc h);
    inhabited = λ name props h. absurd (cc h);
  })

  -- The properties of a configuration, looked up among the labels themselves.
  abbrev pub property_of : Text → Text → Option Text
  property_of name property = get (label_of (prefix ++ dot ∷ []) name property) labels

  -- In the group of a name the properties are those of the labels.
  pub group_properties :
      (name : Text) (props : Map Text)
      → NodupKeys labels
      → get name groups ≡ some props
      → (λ p. get p props) ≡ property_of name
  unfolding group_of
  group_properties name props u g = fun_ext λ p. ground (
    arith,
    get-group_labels (prefix ++ dot ∷ []) name p
        (groups_of_labels.names name (get-has name groups g)) labels u,
  )

module _ (sorter : Sorter name_lt) (prefix container : Text) (labels : Map Text)
    (u : NodupKeys labels) where
  module _ (bs : List BackupConfig)
      (parsed : parse_named_configs sorter prefix container labels ≡ ok bs) where
    pub sorted_groups :
        (gs : List BackupConfig) × (parse_groups container (groups prefix labels) ≡ ok gs)
        × (bs ≡ sorter.sort gs)
    unfolding parse_named_configs
    sorted_groups = ground arith

    pub parse_named_configs-Reads :
        (b : BackupConfig)
        → In b bs
        → IsName b.name × Reads container (property_of prefix labels b.name) b
    parse_named_configs-Reads b m =
        let (gs, run, e) = sorted_groups in
        let (props, g, r) =
          parse_groups-In container (groups prefix labels) gs b
            (groups_of_labels prefix labels).nodup run
            (Permutes-In b (sorter.permutes gs) (subst (In b) e m)) in
        (
          (groups_of_labels prefix labels).names b.name (get-has b.name (groups prefix labels) g),
          subst (λ (f : Text → Option Text). Reads container f b)
              (group_properties prefix labels b.name props u g)
              (parse_config_group-Reads b.name container props b r).1,
        )

    -- When parseNamedConfigs succeeds, each name without a dot that is not reserved, and for which
    -- some label <prefix>.<name>.<property> is set, has a configuration, if no label stands twice.
    pub parse_named_configs_complete :
        (name property value : Text)
        → IsName name
        → property_of prefix labels name property ≡ some value
        → (b : BackupConfig) × In b bs × (b.name ≡ name)
    parse_named_configs_complete name property value is_name e =
        let (gs, run, s) = sorted_groups in
        let (b, m, n) =
          parse_groups-has container name (groups prefix labels) gs run
            (has-group_labels (prefix ++ dot ∷ []) name property value labels is_name u e) in
        (b, subst (In b) (sym s) (Permutes-In b (Permutes-sym (sorter.permutes gs)) m), n)

    pub parse_named_configs-IsSorted : IsSorted name_lt bs
    parse_named_configs-IsSorted =
        let (gs, run, s) = sorted_groups in subst (IsSorted name_lt) (sym s) (sorter.sorted gs)

-- Two configurations of one name that the same labels describe are equal.
pub Reads-unique :
    (container : Text) (props : Text → Option Text) (a b : BackupConfig)
    → a.name ≡ b.name
    → Reads container props a
    → Reads container props b
    → a ≡ b
Reads-unique container props a b e r s = ground arith

module _ (sorter : Sorter name_lt) (prefix id container : Text) (labels : Map Text) where
  -- What a successful ParseLabels has returned: a container that is not enabled has no
  -- configuration, and one that is has at least one.
  pub parse_labels_cases :
      (cfg : ContainerConfig)
      → parse_labels sorter prefix id container labels ≡ ok cfg
      → (cfg ≡ disabled id container)
        ⊎ ((cfg.enabled ≡ true)
            × (cfg.backups ≢ [])
            × (parse_named_configs sorter prefix container labels ≡ ok cfg.backups)
            × (cfg.notify ≡ parse_notify_value (value_of (prefix ++ dot ∷ label_notify) labels)))
  unfolding parse_labels parse_enabled require_backups
  parse_labels_cases cfg h = ground arith

  pub parse_labels_id :
      (cfg : ContainerConfig)
      → parse_labels sorter prefix id container labels ≡ ok cfg
      → (cfg.container_id ≡ id) × (cfg.container_name ≡ container)
  unfolding parse_labels parse_enabled require_backups
  parse_labels_id cfg h = ground arith

  -- A configuration that ParseLabels returns is enabled exactly if the enable label is set to a
  -- value that reads as true.
  pub parse_labels_enabled :
      (cfg : ContainerConfig)
      → parse_labels sorter prefix id container labels ≡ ok cfg
      → (cfg.enabled ≡ true) ↔ (
          (val : Text) × (get (prefix ++ dot ∷ label_enable) labels ≡ some val)
          × (parse_bool val ≡ ok true))
  unfolding parse_labels parse_enabled require_backups
  parse_labels_enabled cfg h = (λ e. ground arith, λ e. ground arith)

-- The other way: a configuration that the properties describe is what parseConfigGroup returns.
pub parse_config_group_of_Reads :
    (container : Text) (props : Map Text) (b : BackupConfig)
    → Reads container (λ p. get p props) b
    → parse_config_group b.name container props ≡ ok b
unfolding parse_config_group
parse_config_group_of_Reads container props b r =
    ground (arith, ==_iff b.backup_type [], ==_iff b.schedule [])

pub parse_groups_total :
    (container : Text) (groups : Map (Map Text))
    → NodupKeys groups
    → ((name : Text) (props : Map Text)
        → get name groups ≡ some props
        → (b : BackupConfig) × (parse_config_group name container props ≡ ok b))
    → (bs : List BackupConfig) × (parse_groups container groups ≡ ok bs)
unfolding parse_groups get
parse_groups_total container [] u h = ([], refl)
parse_groups_total container ((name, props) ∷ groups) u h =
    let (b, p) = h name props (rw ==_refl refl) in
    let (bs, q) =
      parse_groups_total container groups u.1
        (λ n ps e. h n ps (ground (arith, ==_iff name n, get-has n groups {v = ps}))) in
    (b ∷ bs, rw (p, q))
