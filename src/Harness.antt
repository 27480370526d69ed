-- ===== src/Harness.antt =====
-- The scripts of verification/, with which the gateway is checked by hand: a key pair and its key
-- document, tokens that are signed with it, the server of the document, and a stub of the upstream.
pub mod Options
pub mod Mint
pub mod Keys
pub mod Servers
pub mod Client
pub mod Checked
pub mod Found
