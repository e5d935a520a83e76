-- ===== src/Store.antt =====
-- The package store: JSON files under the application directory, and what is kept in them.
pub mod Disk
pub mod Account
pub mod ModelMap
pub mod Reauth
pub mod Admin
pub mod Pool
