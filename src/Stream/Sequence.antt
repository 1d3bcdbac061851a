-- ===== src/Stream/Sequence.antt =====
-- Numbered streams have no gaps (websocket-stream.js).
use lqc_liquidity_chain.Common.{
  ℕ, zero, suc, ◌+◌, ◌≤◌, ◌<◌, ◌≡◌, ◌≢◌, ◌↔◌, true, false, some, List, [], ◌∷◌, arith, ok,
}
use lqc_liquidity_chain.Common.Dict.{lookup-insert_self, lookup-insert_ne}
use lqc_liquidity_chain.Common.Text.{Text}
use mathlib.Core.Path.{subst}
use lqc_liquidity_chain.Stream.{Sequencer, add_one, current, next, Gap, detect_sequence_gap}

-- The numbers of `n` events that follow one another on a stream.
pub take_numbers : ℕ → Text → Sequencer → List ℕ
take_numbers zero stream s = []
take_numbers (suc n) stream s =
    let (number, s') = next stream s in number ∷ take_numbers n stream s'

-- Each number follows the one before it, by the client's own test.
abbrev pub Gapless : ℕ → List ℕ → Type 0
Gapless previous [] = Unit
Gapless previous (n ∷ ns) =
    (detect_sequence_gap (some previous) (some n)
      ≡ ok (record { gap = false; expected = n; received = n; duplicate_or_old = false }))
    × Gapless n ns

current-next :
    (stream : Text) (s : Sequencer) → current stream (next stream s).1 ≡ (next stream s).0
unfolding current next
current-next stream s = rw (lookup-insert_self stream (add_one (current stream s)) s)

abbrev pub two_53 : ℕ
two_53 = 9_007_199_254_740_992

-- Below 2^53 the next number is the successor.
next_exact :
    (stream : Text) (s : Sequencer)
    → current stream s < two_53
    → (next stream s).0 ≡ current stream s + 1
unfolding next
next_exact stream s h = ground arith

next-gapless :
    (stream : Text) (s : Sequencer)
    → current stream s < two_53
    → detect_sequence_gap (some (current stream s)) (some (next stream s).0)
      ≡ ok (record {
        gap = false;
        expected = (next stream s).0;
        received = (next stream s).0;
        duplicate_or_old = false;
      })
unfolding next detect_sequence_gap
next-gapless stream s h = ground arith

-- The events of one stream, as many as there are, show a client that saw the current number neither
-- a gap nor a duplicate, whatever numbers the other streams have, as long as the last of them is not
-- above 2^53, up to which a double counts exactly.
pub take_numbers-Gapless :
    (n : ℕ) (stream : Text) (s : Sequencer)
    → current stream s + n ≤ two_53
    → Gapless (current stream s) (take_numbers n stream s)
unfolding take_numbers
take_numbers-Gapless zero stream s h = tt
take_numbers-Gapless (suc n) stream s h =
    let exact = next_exact stream s (omega arith) in
    let here = current-next stream s in
    let rest = take_numbers-Gapless n stream (next stream s).1 (omega (arith, exact, here, h)) in
    (
      next-gapless stream s (omega arith),
      subst (λ k. Gapless k (take_numbers n stream (next stream s).1)) here rest,
    )

-- A number that is drawn on one stream leaves the number of every other stream.
pub next_others :
    (stream other : Text) (s : Sequencer)
    → other ≢ stream
    → current other (next stream s).1 ≡ current other s
unfolding current next
next_others stream other s ne = rw (lookup-insert_ne other stream (add_one (current stream s)) s ne)

-- A client that has seen a number above zero and below 2^53 reports a gap exactly when the next number that comes
-- in is not its successor, and a duplicate exactly when that number is not above what it has seen.
pub detect_sequence_gap_iff :
    (previous incoming : ℕ) {g : Gap}
    → 0 < previous
    → previous < two_53
    → detect_sequence_gap (some previous) (some incoming) ≡ ok g
    → ((g.gap ≡ true) ↔ (incoming ≢ previous + 1))
      × ((g.duplicate_or_old ≡ true) ↔ (incoming ≤ previous))
      × (g.expected ≡ previous + 1)
unfolding detect_sequence_gap
detect_sequence_gap_iff previous incoming pos small h =
    ((λ p. ground arith, λ p. ground arith), (λ p. ground arith, λ p. ground arith), ground arith)
