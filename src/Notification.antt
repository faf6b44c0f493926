-- ===== src/Notification.antt =====
-- internal/notification: events (notification.go), messages and sizes (registry.go) and the
-- dispatch to the notifiers (manager.go).
pub mod Dispatch
pub mod Sizes
use docker_backup.Base.{ℕ, Option, none, List, [], ◌∷◌, Text, Error}

-- The constants of EventType.
pub data EventType : Type 0 where
  backup_started backup_completed backup_failed : EventType
  restore_started restore_completed restore_failed : EventType

pub record Event : Type 0 where
  pub event_type : EventType
  pub container_name : Text
  pub backup_type : Text
  pub backup_key : Text
  pub size : ℕ
  pub duration : ℕ
  pub error : Option Error
  pub timestamp : ℕ
