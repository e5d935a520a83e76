-- ===== src/Anthropic.antt =====
-- The package anthropic: responses of the upstream in the terms of Anthropic's API.
pub mod Types
pub mod Stream
pub mod Response
