-- ===== src/Backend.antt =====
-- The secrets engine's package temporalcloud: what its parts share. The state is the world outside,
-- the client handles, and a record of the calls made that change something outside, newest first.
pub mod Handles
pub mod Entries
pub mod Handler
pub mod World
pub mod Namespaces
pub mod Policy
pub mod Accounts
pub mod Probing
pub mod Creds
pub mod Lease
pub mod RootConfig
pub mod Rotate
