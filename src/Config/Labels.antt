-- ===== src/Config/Labels.antt =====
-- internal/config/labels.go: the backup configuration that a container's labels describe.
pub mod Groups
pub mod Parsed
pub mod Order
use docker_backup.Base.{
  ℕ, ◌+◌, ◌<◌, String, Bool, true, false, ◌||◌, Option, none, some, List, [], ◌∷◌, ◌++◌, ltb, leb,
  if◌then◌else◌, Text, codes, ◌==◌, text_lt, has_prefix, trim_prefix, trim_space, cut, split, dot,
  comma, Error, errorf, wrapf, Result, ok, err, ◌>>=◌, wrap,
}
use docker_backup.Base.Map.{Map, get, put}
use docker_backup.Base.Numbers.{ℤ, pos, negsuc, atoi, parse_bool}
use docker_backup.Base.Sort.{Sorter}

pub record BackupConfig : Type 0 where
  pub name : Text
  pub backup_type : Text
  pub schedule : Text
  pub retention : ℕ
  pub storage : Text
  pub notify : List Text

pub record ContainerConfig : Type 0 where
  pub container_id : Text
  pub container_name : Text
  pub enabled : Bool
  pub notify : List Text
  pub backups : List BackupConfig

abbrev pub label_enable : Text
label_enable = codes "enable"

abbrev pub label_type : Text
label_type = codes "type"

abbrev pub label_schedule : Text
label_schedule = codes "schedule"

abbrev pub label_retention : Text
label_retention = codes "retention"

abbrev pub label_storage : Text
label_storage = codes "storage"

abbrev pub label_notify : Text
label_notify = codes "notify"

-- reservedProperties[name]
unfoldable pub is_reserved : Text → Bool
is_reserved name =
    name == label_enable
    || (name == label_type
        || (name == label_schedule
            || (name == label_retention || (name == label_storage || name == label_notify))))

-- The loop of parseNotifyValue over the parts.
unfoldable pub collect_providers : List Text → List Text
collect_providers [] = []
collect_providers (p ∷ ps) =
    let rest = collect_providers ps in let q = trim_space p in if q == [] then rest else q ∷ rest

unfoldable pub parse_notify_value : Text → List Text
unfolding collect_providers
parse_notify_value val =
    let v = trim_space val in if v == [] then [] else collect_providers (split comma v)

-- `if val, ok := props[label]; ok { field = strings.TrimSpace(val) }` on a field that is "".
abbrev trimmed : Option Text → Text
trimmed none = []
trimmed (some val) = trim_space val

-- The retention label's part of parseConfigGroup.
unfoldable pub parse_retention : Text → Text → Option Text → Result ℕ
parse_retention name container none = ok 7
parse_retention name container (some val) = elim (atoi val) [
  | err e ↦ err (wrapf "container %s config %q has invalid retention: %w" (container ∷ name ∷ []) e)
  | ok (negsuc n) ↦
      err
        (errorf "container %s config %q retention must be at least 1" (container ∷ name ∷ val ∷ []))
  | ok (pos n) ↦
      if ltb n 1
      then err (
          errorf "container %s config %q retention must be at least 1"
            (container ∷ name ∷ val ∷ []))
      else ok n
]

unfoldable pub parse_config_group : Text → Text → Map Text → Result BackupConfig
unfolding parse_retention
parse_config_group name container props =
    let backup_type = trimmed (get label_type props) in
    let schedule = trimmed (get label_schedule props) in
    if backup_type == []
    then err (errorf "container %s config %q has no backup type specified" (container ∷ name ∷ []))
    else if schedule == []
    then err (errorf "container %s config %q has no schedule specified" (container ∷ name ∷ []))
    else do
      retention ← parse_retention name container (get label_retention props)
      ok (record {
        name = name;
        backup_type = backup_type;
        schedule = schedule;
        retention = retention;
        storage = trimmed (get label_storage props);
        notify = elim (get label_notify props) [ none ↦ [] | some val ↦ parse_notify_value val ];
      })

-- configGroups[name], where a name that is missing has no property
unfoldable pub group_of : Text → Map (Map Text) → Map Text
group_of name groups = elim (get name groups) [ none ↦ [] | some props ↦ props ]

-- One round of the first loop of parseNamedConfigs, after the prefix has been taken off.
unfoldable pub add_property : Option (Text × Text) → Text → Map (Map Text) → Map (Map Text)
unfolding group_of is_reserved
add_property none value groups = groups
add_property (some (name, property)) value groups =
    if is_reserved name then groups else put name (put property value (group_of name groups)) groups

unfoldable pub add_label : Text → Text → Text → Map (Map Text) → Map (Map Text)
unfolding add_property
add_label prefix_dot key value groups =
    if has_prefix key prefix_dot
    then add_property (cut dot (trim_prefix key prefix_dot)) value groups
    else groups

-- The loop itself; `groups` is configGroups so far.
unfoldable pub group_labels : Text → Map Text → Map (Map Text) → Map (Map Text)
unfolding add_label
group_labels prefix_dot [] groups = groups
group_labels prefix_dot ((key, value) ∷ labels) groups =
    group_labels prefix_dot labels (add_label prefix_dot key value groups)

-- The second loop: each group is parsed, and the first error ends the loop.
unfoldable pub parse_groups : Text → Map (Map Text) → Result (List BackupConfig)
unfolding parse_config_group
parse_groups container [] = ok []
parse_groups container ((name, props) ∷ groups) = do
  backup ← parse_config_group name container props
  rest ← parse_groups container groups
  ok (backup ∷ rest)

abbrev pub name_lt : BackupConfig → BackupConfig → Bool
name_lt a b = text_lt a.name b.name

-- The last test of ParseLabels, `len(cfg.Backups) == 0`.
unfoldable pub require_backups : List BackupConfig → ContainerConfig → Result ContainerConfig
require_backups [] cfg = err (
    errorf "container %s has backup enabled but no backup configurations found"
      (cfg.container_name ∷ []))
require_backups (b ∷ bs) cfg = ok cfg

abbrev pub disabled : Text → Text → ContainerConfig
disabled id container = record {
  container_id = id;
  container_name = container;
  enabled = false;
  notify = [];
  backups = [];
}

-- labels[key], which is "" for a key that is missing
abbrev pub value_of : Text → Map Text → Text
value_of key labels = elim (get key labels) [ none ↦ [] | some val ↦ val ]

module _ (sorter : Sorter name_lt) where
  unfoldable pub parse_named_configs : Text → Text → Map Text → Result (List BackupConfig)
  unfolding group_labels parse_groups
  parse_named_configs prefix container labels = do
    backups ← parse_groups container (group_labels (prefix ++ (dot ∷ [])) labels [])
    ok (sorter.sort backups)

  -- What ParseLabels does when the container is enabled.
  unfoldable pub parse_enabled : Text → Text → Text → Map Text → Result ContainerConfig
  unfolding parse_named_configs require_backups
  parse_enabled prefix id container labels = do
    backups ← parse_named_configs prefix container labels
    require_backups backups (record {
      container_id = id;
      container_name = container;
      enabled = true;
      notify = parse_notify_value (value_of (prefix ++ dot ∷ label_notify) labels);
      backups = backups;
    })

  unfoldable pub parse_labels : Text → Text → Text → Map Text → Result ContainerConfig
  unfolding parse_enabled
  parse_labels prefix id container labels = elim (get (prefix ++ dot ∷ label_enable) labels) [
    | none ↦ ok (disabled id container)
    | some val ↦ elim (parse_bool val) [
      | err e ↦ err (wrapf "invalid value for %s: %w" ((prefix ++ dot ∷ label_enable) ∷ []) e)
      | ok false ↦ ok (disabled id container)
      | ok true ↦ parse_enabled prefix id container labels
    ]
  ]
