-- ===== src/Call.antt =====
-- Package call: a resilient HTTP client with retry, a circuit breaker and a token cache.
pub mod Errors
pub mod Breaker
pub mod Registry
pub mod Retry
pub mod Token
pub mod Client
