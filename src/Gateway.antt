-- ===== src/Gateway.antt =====
-- dex/scripts/quote-api-gateway.mjs: the quote API's gateway, its state, its health.
pub mod Requests
pub mod State
pub mod Handler
pub mod Branches
pub mod Accounting
pub mod Capacity
pub mod Health
pub mod Reached
pub mod Reports
pub mod Evidence
pub mod Replay
pub mod Client
