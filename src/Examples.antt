-- ===== src/Examples.antt =====
-- Concrete parameters and rows, and each theorem applied to them.
pub mod World
pub mod Stores
pub mod Accounts
mod Chat
pub mod Uploads
pub mod Live
pub mod Shared
mod Sessions
mod Cleaning
pub mod Cursors
mod Migrating
mod Instances
mod Routes
mod Service
