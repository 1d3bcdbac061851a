-- ===== src/Lib.antt =====
-- LQC Flow: the demo perpetual-futures engine under dex/app/futures of the repository, the router SDK
-- dex/app/router-sdk.js with its proofs of best execution, and the quote API of dex/scripts.
--
-- The engine keeps a margin account and a book of positions, charges funding and fees, liquidates a
-- cross account that has lost its equity, covers what is missing from an insurance fund and by
-- auto-deleveraging, and stands behind an authenticated API, a price oracle and emergency controls.
--
-- Each file models these sources of dex/app/futures, one definition per function:
--   Markets           markets.js: the listing table, its checks and its registry
--   Risk              risk-engine.js: margins, profits, liquidation prices, account health
--   Orders            order-engine.js: the validation and the building of an order
--   Positions         position-engine.js: opening, merging, reducing and marking a position
--   Book              position-book.js: the map of positions of one account
--   Account           account-engine.js: cash and reserves
--   Insurance         insurance-engine.js, insurance-fund-service.js
--   Funding           funding-engine.js, funding-controller.js
--   Adl               adl-engine.js, insurance-adl-controller.js
--   Limits            leverage-tiers.js, liquidation-engine.js, market-risk-limits.js
--   Fees              fee-engine.js, liquidation-fee-engine.js
--   FeeController     fee-controller.js
--   Liquidation       liquidation-controller.js
--   Emergency         emergency-controls.js
--   Oracle            oracle-guard.js
--   PriceService      oracle-price-service.js
--   Auth              api-auth-contract.js
--   Trading           trading-api-service.js
--   AccountApi        account-position-api.js
--   MarketData        market-data-models.js
--   Stream            websocket-stream.js
--   Listing           listing-activation-gate.js
--   ServiceBoundary   service-boundary.js
-- and these the swap side:
--   Router/Routes, Quotes, Ranking   router-sdk.js: encodings, amounts, the order of routes
--   Router/Payloads, Proofs          router-sdk.js: what is hashed, proofs of best execution
--   Router/ExecutionPlan, Intents    router-sdk.js: a live plan against a proof, signed intents
--   Router/Settlements, Canonical    router-sdk.js: receipts, and receipts against the chain
--   Router/Wallet, Recovery          router-sdk.js: session, approvals, funds; errors
--   Router/QuoteApi                  router-sdk.js: quote requests and their answers
--   Gateway/Requests, State, Handler, Health   dex/scripts/quote-api-gateway.mjs
--   Gateway/Client                   dex/scripts/quote-api-client.mjs
-- The child of a file holds what is proved of it, Common what they share, and Tests the theorems at
-- concrete inputs.
--
-- How the parts meet: Trading authenticates by Auth and builds orders by Orders, which reads
-- Markets and Risk. Book merges and reduces by Positions. Funding settles against Book and Account,
-- FeeController against Account and Insurance, and Liquidation against Book, Account, Insurance and
-- Adl. PriceService refreshes by Oracle. Listing reads Markets. AccountApi reads
-- Account and Book behind Auth. The gateway answers requests of Router/QuoteApi with proofs of
-- Router/Proofs; a plan, an intent, a settlement and its evidence each refer to such a proof.
--
-- How the code is translated:
--   * A JavaScript number is a value of a type N with the operations of `Double` (Common/Double).
--     Theorems about amounts take the laws of `IsIeee`, which hold of IEEE 754 doubles with NaN,
--     infinities and rounding to nearest; Common/Fixed gives a concrete type that meets them.
--   * A closure with variables is a record of them, which each operation takes and gives back. What
--     throws gives `err` with the message. A transaction ends in an `Outcome`.
--   * A Map is an association list in insertion order. An object that the code compares with
--     `===` has a reference number, drawn from a counter, in place of its identity.
--   * Strings are lists of character codes, with the case mapping of ASCII. Arguments have the types
--     that the code converts them to: the conversions by Number() and String() are the caller's.
--   * The clock, random identifiers, the signature check, the key store, the source provider and
--     localeCompare are arguments. Times in Auth and Stream are natural numbers, as the code demands
--     integers there; a sequence number is counted on as a double is, exactly up to 2^53. Each loop is
--     a recursion on a list, but for the retries of the client (Gateway/Client), which run on fuel:
--     one more attempt than the retries allowed, which is enough for a result.
--
-- Not modelled: onLiquidated of the liquidation controller, listeners that throw, the canonical
-- text of a signed request, buildLiquidationQueue, the subscriptions and the recovery path of
-- streams, the REST router, the market-data adapter and gateway; of the router SDK the two checks of a
-- deployment and the texts for the user; of the gateway the headers of its answers; of its client the
-- reading of a response; and the pages, the contracts and the other scripts.
pub mod Common
pub mod Markets
pub mod Risk
pub mod Router
pub mod Gateway
pub mod Orders
pub mod Positions
pub mod Book
pub mod Account
pub mod Insurance
pub mod Funding
pub mod Adl
pub mod Limits
pub mod Fees
pub mod Emergency
pub mod Oracle
pub mod PriceService
pub mod Auth
pub mod Trading
pub mod AccountApi
pub mod MarketData
pub mod FeeController
pub mod Liquidation
pub mod Stream
pub mod Listing
pub mod ServiceBoundary
pub mod Tests
