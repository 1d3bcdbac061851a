-- ===== src/ServiceBoundary/Isolation.antt =====
-- A failure of one engine stays at its boundary (service-boundary.js).
use lqc_liquidity_chain.Common.{◌≡◌, ◌⊎◌, String, Result, ok, err}
use lqc_liquidity_chain.ServiceBoundary.{Domain, Operation, FailureEvent, Monitoring, Engine}

module _ {Mon : Type 0} (monitor : Monitoring Mon) where
  -- What the monitoring is told of a call with a result: nothing of a success; a failure is emitted,
  -- and the monitoring is in the state that this leaves, or as before where the emission throws.
  abbrev pub Told : {B : Type 0} → Domain → Operation → Result B → Mon → Mon → Type 0
  Told domain operation (ok b) m m' = m' ≡ m
  Told domain operation (err code) m m' =
      let event : FailureEvent = record { domain = domain; operation = operation; code = code } in
      (monitor.emit event m ≡ ok m') ⊎ ((c : String) × (monitor.emit event m ≡ err c) × (m' ≡ m))

  -- A call through the boundary, by the call itself.
  abbrev IsIsolated :
      {S A B : Type 0}
      → Domain
      → Operation
      → Engine S A B
      → A
      → S
      → Mon
      → Result B × S × Mon
      → Type 0
  IsIsolated domain operation call a s m (r, s', m') =
      (r ≡ (call a s).0) × (s' ≡ (call a s).1) × Told domain operation (call a s).0 m m'
