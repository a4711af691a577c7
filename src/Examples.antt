-- ===== src/Examples.antt =====
-- The theorems at concrete inputs: an account with one stored message and a recorded identity.
pub mod Mailboxes
pub mod Syncs
pub mod Brokers
pub mod Cores
pub mod Tokens
pub mod Bodies
pub mod Searches
pub mod Dates
pub mod Listeners
