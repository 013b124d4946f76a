-- ===== src/Massmail.antt =====
-- massmail: bulk mailing
pub mod Ids
pub mod Queue
pub mod Accounts
pub mod MailingOut
pub mod Sending
pub mod Actions
pub mod Vip
pub mod OwnerChange
mod Samples
mod ActionSamples
