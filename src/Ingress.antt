-- ===== src/Ingress.antt =====
-- crates/ingress/src: the REST layer.
pub mod Jobs
pub mod Presign
pub mod Access
pub mod Audience
pub mod Suppression
