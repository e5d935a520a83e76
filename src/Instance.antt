-- ===== src/Instance.antt =====
-- The package instance: accounts at work, their workers, and what is remembered of their turns.
pub mod Ports
pub mod Supervisor
pub mod Usage
pub mod LoadBalancer
pub mod RateLimiter
pub mod Turns
pub mod Replay
pub mod Continuation
pub mod Registry
pub mod ToolValidation
