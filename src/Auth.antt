-- ===== src/Auth.antt =====
-- control-plane/src/auth: the limits on sign-in attempts and other requests.
pub mod RateLimit
mod Examples
