-- ===== src/Storages.antt =====
-- internal/storages: the back ends of the storage interface.
pub mod S3
