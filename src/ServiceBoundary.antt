-- ===== src/ServiceBoundary.antt =====
-- dex/app/futures/service-boundary.js: the calls of the DEX router and of the futures engine, which
-- are kept apart from each other and from the monitoring.
pub mod Isolation
use lqc_liquidity_chain.Common.{String, Result, ok, err}

pub data Domain : Type 0 where
  dex_router futures_engine : Domain

pub data Operation : Type 0 where
  quote place_order : Operation

pub record FailureEvent : Type 0 where
  pub domain : Domain
  pub operation : Operation
  pub code : String

-- The monitoring: its state after an event, or the error that `emit` throws. `Mon` and the states
-- of the engines are the deployment's.
pub record Monitoring (Mon : Type 0) : Type 0 where
  pub emit : FailureEvent → Mon → Result Mon

-- An engine call gives a result or an error, and the state that it leaves.
abbrev pub Engine : Type 0 → Type 0 → Type 0 → Type 0
Engine S A B = A → S → Result B × S

pub record Boundary (R F Mon : Type 0) : Type 0 where
  pub router : R
  pub futures : F
  pub monitoring : Mon

module _ {Mon : Type 0} (monitor : Monitoring Mon) where
  -- what `emit` throws is dropped
  unfoldable pub report_failure : FailureEvent → Mon → Mon
  report_failure e m = elim (monitor.emit e m) [ ok m' ↦ m' | err _ ↦ m ]

  unfoldable pub isolated_call :
      {S A B : Type 0} → Domain → Operation → Engine S A B → A → S → Mon → Result B × S × Mon
  isolated_call domain operation call a s m =
      let (r, s') = call a s in
      elim r [
        | ok b ↦ (ok b, s', m)
        | err code ↦ (
          err code,
          s',
          report_failure (record { domain = domain; operation = operation; code = code }) m,
        )
      ]

  module _ {R F A B C D : Type 0} (dex : Engine R A B) (engine : Engine F C D) where
    unfoldable pub dex_quote : A → Boundary R F Mon → Result B × Boundary R F Mon
    unfolding isolated_call
    dex_quote a b =
        let (r, router, m) = isolated_call dex_router quote dex a b.router b.monitoring in
        (r, record b { router = router; monitoring = m })

    unfoldable pub futures_place_order : C → Boundary R F Mon → Result D × Boundary R F Mon
    unfolding isolated_call
    futures_place_order a b =
        let (r, futures, m) =
          isolated_call futures_engine place_order engine a b.futures b.monitoring in
        (r, record b { futures = futures; monitoring = m })
