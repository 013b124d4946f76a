-- ===== src/Massmail/Sending.antt =====
-- massmail/utils/sendmassmail.py: the sending thread.
pub mod BusinessTime
pub mod Tables
pub mod Objects
pub mod Contacts
pub mod Attempt
pub mod Pass
pub mod Owners
mod Walk
pub mod Untouched
pub mod Delivered
pub mod Refused
pub mod Limit
