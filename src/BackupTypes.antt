-- ===== src/BackupTypes.antt =====
-- internal/backuptypes: the types of backups.
pub mod Volume
pub mod Database
