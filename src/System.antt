-- ===== src/System.antt =====
-- The program as cmd/server/main.go puts it together, driven by a sequence of calls.
pub mod Wiring
pub mod Calls
pub mod Methods
pub mod Callbacks
pub mod Changes
pub mod Accounts
pub mod Uploads
pub mod Storing
pub mod Bounded
pub mod Statuses
pub mod Backed
pub mod Paid
pub mod Schema
pub mod Settled
pub mod Isolation
pub mod Callback
pub mod Create
pub mod Users
pub mod Hidden
pub mod Revised
pub mod Concurrent
