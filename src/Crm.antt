-- ===== src/Crm.antt =====
-- crm: payments, and the rates of their currencies.
pub mod Payments
pub mod Rates
pub mod Persons
pub mod Deals
pub mod Requests
pub mod Imap
pub mod Tickets
pub mod Permissions
mod Samples
mod DealSamples
mod RequestSamples
mod ImapSamples
mod PermissionSamples
