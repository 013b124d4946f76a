-- ===== src/Common.antt =====
-- common: users and their roles, stored messages, notices by email.
pub mod Users
pub mod Messages
pub mod Emails
pub mod Reminders
mod Samples
