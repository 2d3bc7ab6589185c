-- ===== src/System/Concurrent.antt =====
-- Calls of the payment service that the server handles at the same time, statement by statement.
pub mod InStep
pub mod Stable
pub mod Changes
pub mod Turn
pub mod Agreed
pub mod Steps
pub mod Race
pub mod Overtaken
pub mod Turned
pub mod Marked
pub mod Tracked
pub mod Followed
pub mod Settling
pub mod Company
pub mod Settles
