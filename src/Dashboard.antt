-- ===== src/Dashboard.antt =====
-- internal/dashboard: the authentication of the dashboard.
pub mod Htpasswd
pub mod Oidc
