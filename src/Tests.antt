-- ===== src/Tests.antt =====
-- The theorems at concrete inputs, on fixed-point numbers.
pub mod Access
pub mod Book
pub mod Money
pub mod Prices
pub mod Settlement
pub mod Trade
pub mod Router
pub mod Swap
pub mod Gateway
pub mod Safety
