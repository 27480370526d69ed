-- ===== src/Examples.antt =====
-- The theorems at concrete inputs.
pub mod Policies
pub mod Tokens
pub mod Requests
pub mod Upstream
pub mod Exchanges
pub mod Listings
pub mod Gateways
pub mod Logs
pub mod Clients
pub mod Keys
pub mod Scripts
