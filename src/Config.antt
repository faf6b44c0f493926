-- ===== src/Config.antt =====
-- Package internal/config: container labels (Config/Labels) and the daemon's options
-- (Config/Options).
pub mod Labels
pub mod Options
