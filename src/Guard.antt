-- ===== src/Guard.antt =====
-- Package guard: the HTTP middleware that limits and filters requests.
pub mod Limiter
pub mod KeyFunc
pub mod Timeout
pub mod Cors
