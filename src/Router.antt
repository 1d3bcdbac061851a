-- ===== src/Router.antt =====
-- dex/app/router-sdk.js: quotes, their ranking, the proof of best execution, the intent that is
-- signed for it, its settlement, and what a wallet may do next.
pub mod Payloads
pub mod Ranking
pub mod Proofs
pub mod ExecutionPlan
pub mod Intents
pub mod Settlements
pub mod Canonical
pub mod Routes
pub mod Quotes
pub mod Wallet
pub mod Recovery
pub mod QuoteApi
