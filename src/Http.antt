-- ===== src/Http.antt =====
-- addon/petkit_local/http: what a proxied answer of the real cloud may hold when a device sees it.
pub mod Redact
