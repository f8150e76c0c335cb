-- ===== src/Auth.antt =====
-- internal/auth: the credential stores and the authentication of requests.
pub mod InMemoryStore
pub mod Config
pub mod FileStore
pub mod Middleware
