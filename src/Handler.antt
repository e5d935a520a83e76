-- ===== src/Handler.antt =====
-- The package handler: which account a request goes to.
pub mod Affinity
pub mod Gateway
pub mod Routing
pub mod Recovery
pub mod Binding
pub mod Responses
pub mod Completions
pub mod Messages
pub mod CallIds
