-- ===== src/Tests/Labels.antt =====
-- The labels of a container, at concrete maps.
use docker_backup.Base.{
  true, [], ◌∷◌, ◌++◌, ◌≡◌, ◌≢◌, ◌⊎◌, arith, refl, Text, codes, ◌==◌, dot, contains, has_prefix,
  cut, trim_prefix, after_prefix, trim_space, In, ok, some,
}
use docker_backup.Base.Strings.Laws.{==_iff}
use docker_backup.Base.Numbers.{parse_bool}
use docker_backup.Base.Map.{Map, get, put, NodupKeys}
use docker_backup.Config.Labels.{
  BackupConfig, ContainerConfig, is_reserved, label_notify, parse_notify_value, value_of, disabled,
  parse_labels, parse_named_configs,
}
use docker_backup.Config.Labels.Groups.{IsName}
use docker_backup.Config.Labels.Parsed.{
  property_of, parse_named_configs_complete, parse_labels_cases,
}
use docker_backup.Config.Labels.Order.{parse_labels_order}
use docker_backup.Tests.World.{by_name}

abbrev enable_label : Text × Text
enable_label = (codes "docker-backup.enable", codes "true")

abbrev db_type : Text × Text
db_type = (codes "docker-backup.db.type", codes "mysql")

abbrev db_schedule : Text × Text
db_schedule = (codes "docker-backup.db.schedule", codes "@daily")

abbrev labels : Map Text
labels = enable_label ∷ db_type ∷ db_schedule ∷ []

abbrev shuffled : Map Text
shuffled = db_schedule ∷ enable_label ∷ db_type ∷ []

abbrev db : BackupConfig
db = record {
  name = codes "db";
  backup_type = codes "mysql";
  schedule = codes "@daily";
  retention = 7;
  storage = [];
  notify = [];
}

abbrev web : ContainerConfig
web = record {
  container_id = codes "c1";
  container_name = codes "web";
  enabled = true;
  notify = [];
  backups = db ∷ [];
}

parsed : parse_labels by_name (codes "docker-backup") (codes "c1") (codes "web") labels ≡ ok web
unfolding parse_labels by_name get ◌==◌ codes parse_bool has_prefix cut trim_prefix after_prefix put
    trim_space parse_notify_value
parsed = refl

configs : parse_named_configs by_name (codes "docker-backup") (codes "web") labels ≡ ok (db ∷ [])
unfolding parse_named_configs by_name get ◌==◌ codes has_prefix cut trim_prefix after_prefix put
    trim_space
configs = refl

labels_once : NodupKeys labels
unfolding ◌==◌ codes get
labels_once = (refl, (refl, (refl, tt)))

shuffled_once : NodupKeys shuffled
unfolding ◌==◌ codes get
shuffled_once = (refl, (refl, (refl, tt)))

same_labels : (key : Text) → get key labels ≡ get key shuffled
unfolding get codes
same_labels key =
    ground (arith, ==_iff enable_label.0 key, ==_iff db_type.0 key, ==_iff db_schedule.0 key)

parse_labels_order_example :
    parse_labels by_name (codes "docker-backup") (codes "c1") (codes "web") shuffled ≡ ok web
parse_labels_order_example =
    parse_labels_order by_name by_name (codes "docker-backup") (codes "c1") (codes "web") labels
      shuffled labels_once shuffled_once same_labels web parsed

db_is_name : IsName (codes "db")
unfolding codes contains is_reserved ◌==◌
db_is_name = record { no_dot = refl; free = refl }

typed :
    property_of (codes "docker-backup") labels (codes "db") (codes "type") ≡ some (codes "mysql")
unfolding codes get ◌==◌
typed = refl

parse_named_configs_complete_example : (b : BackupConfig) × In b (db ∷ []) × (b.name ≡ codes "db")
parse_named_configs_complete_example =
    parse_named_configs_complete by_name (codes "docker-backup") (codes "web") labels labels_once
      (db ∷ []) configs (codes "db") (codes "type") (codes "mysql") db_is_name typed

parse_labels_cases_example :
    (web ≡ disabled (codes "c1") (codes "web"))
    ⊎ ((web.enabled ≡ true)
        × (web.backups ≢ [])
        × (parse_named_configs by_name (codes "docker-backup") (codes "web") labels
            ≡ ok web.backups)
        × (web.notify
            ≡ parse_notify_value (value_of (codes "docker-backup" ++ dot ∷ label_notify) labels)))
parse_labels_cases_example =
    parse_labels_cases by_name (codes "docker-backup") (codes "c1") (codes "web") labels web parsed
