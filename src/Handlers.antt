-- ===== src/Handlers.antt =====
-- internal/handlers: what the service answers.
pub mod State
pub mod Value
pub mod Resource
pub mod Upload
pub mod Health
