-- ===== src/Book.antt =====
-- dex/app/futures/position-book.js: one position for each symbol, side and margin mode. A stored
-- object has the number under which it was allocated, by which `!==` compares.
pub mod Keys
pub mod Reached
pub mod Refined
use lqc_liquidity_chain.Common.{
  ℕ, ◌+◌, Bool, true, false, not, ◌&&◌, ◌||◌, Option, none, some, List, [], ◌∷◌, ◌++◌, map, ltb,
  ◌==◌, if◌then◌else◌, same_text, filter, every, Result, ok, ◌>>=◌, ◌>>◌, throw_if, required,
}
use lqc_liquidity_chain.Common.Double.{Double}
use lqc_liquidity_chain.Common.Dict.{Dict, lookup, contains, insert, erase, values}
use lqc_liquidity_chain.Common.Text.{Text, codes, to_upper}
use lqc_liquidity_chain.Markets.{normalize_futures_symbol}
use lqc_liquidity_chain.Risk.{
  MarginMode, isolated, cross, is_cross, Position, LiquidationDecision, LiquidationAction,
  liquidate, hold, liquidation_action,
}
use lqc_liquidity_chain.Positions.{
  Fill, open_demo_position, merge_demo_position, reduce_demo_position,
}

-- A frozen position object.
pub record Entry (N : Type 0) : Type 0 where
  pub ref : ℕ
  pub position : Position N

-- The `Map`, and the number of the next object.
pub record Book (N : Type 0) : Type 0 where
  pub positions : Dict (Entry N)
  pub next : ℕ

pub record Criteria : Type 0 where
  pub symbol : Text
  pub side : Text
  pub margin_mode : MarginMode

pub record Added (N : Type 0) : Type 0 where
  pub entry : Entry N
  pub merged : Bool

pub record Replaced (N : Type 0) : Type 0 where
  pub previous : Entry N
  pub entry : Entry N

pub record Reduced (N : Type 0) : Type 0 where
  pub released_collateral : N
  pub ratio : N
  pub previous : Entry N
  pub entry : Option (Entry N)

pub record LiquidatedPosition (N : Type 0) : Type 0 where
  pub previous : Entry N
  pub decision : LiquidationDecision N

unfoldable pub mode_text : MarginMode → Text
mode_text cross = codes "CROSS"
mode_text isolated = codes "ISOLATED"

unfoldable pub key_of : Criteria → Text
unfolding mode_text
key_of c =
    normalize_futures_symbol c.symbol
    ++ (codes ":" ++ (to_upper c.side ++ (codes ":" ++ mode_text c.margin_mode)))

-- `a ?? b`
abbrev pub or_else {ℓ} : {A : Type ℓ} → Option A → Option A → Option A
or_else none b = b
or_else (some a) b = some a

-- The order of `sort()` on strings, and the sort.
pub text_le : Text → Text → Bool
text_le [] ys = true
text_le (x ∷ xs) [] = false
text_le (x ∷ xs) (y ∷ ys) = ltb x y || (x == y && text_le xs ys)

insert_text : Text → List Text → List Text
insert_text k [] = k ∷ []
insert_text k (j ∷ js) = if text_le k j then k ∷ j ∷ js else j ∷ insert_text k js

unfoldable pub sort_texts : List Text → List Text
unfolding insert_text text_le
sort_texts [] = []
sort_texts (k ∷ ks) = insert_text k (sort_texts ks)

abbrev pub same_texts : List Text → List Text → Bool
same_texts [] [] = true
same_texts (x ∷ xs) (y ∷ ys) = same_text x y && same_texts xs ys
same_texts _ _ = false

abbrev pub is_liquidate : LiquidationAction → Bool
is_liquidate liquidate = true
is_liquidate hold = false

module _ {N : Type 0} where
  abbrev pub criteria_of : Position N → Criteria
  criteria_of p = record { symbol = p.symbol; side = p.side; margin_mode = p.margin_mode }

  -- `keyOf(position)`
  unfoldable pub key_of_position : Position N → Text
  key_of_position p = key_of (criteria_of p)

  unfoldable pub create_demo_position_book : Book N
  create_demo_position_book = record { positions = []; next = 0 }

  unfoldable pub list_book : Book N → List (Entry N)
  list_book b = values b.positions

  unfoldable pub get_position : Criteria → Book N → Option (Entry N)
  get_position c b = lookup (key_of c) b.positions

  -- A new object is stored under `key`.
  abbrev pub store : Text → Position N → Book N → Entry N × Book N
  store key p b =
      let e : Entry N = record { ref = b.next; position = p } in
      (e, record { positions = insert key e b.positions; next = b.next + 1 })

  abbrev pub delete : Text → Book N → Book N
  delete key b = record b { positions = erase key b.positions }

  unfoldable pub replace : Entry N → Position N → Book N → Result (Replaced N × Book N)
  replace expected next b = do
    let key = key_of_position expected.position
    throw_if (not (same_text key (key_of_position next))) "POSITION_IDENTITY_CHANGE_NOT_ALLOWED"
    current ← required (lookup key b.positions) "NO_POSITION_TO_REPLACE"
    throw_if (not (current.ref == expected.ref)) "POSITION_CHANGED"
    let replacement = record next {
      margin_mode = current.position.margin_mode;
      take_profit = or_else next.take_profit current.position.take_profit;
      stop_loss = or_else next.stop_loss current.position.stop_loss;
    }
    let (entry, b') = store key replacement b
    ok (record { previous = current; entry = entry }, b')

  -- The removed object, or `none` where there was none.
  unfoldable pub remove : Criteria → Book N → Option (Entry N) × Book N
  remove c b = elim (lookup (key_of c) b.positions) [
    | none ↦ (none, b)
    | some e ↦ (some e, delete (key_of c) b)
  ]

  abbrev pub entry_is_cross : Entry N → Bool
  entry_is_cross e = is_cross e.position.margin_mode

  unfoldable pub delete_entries : List (Entry N) → Book N → Book N
  delete_entries [] b = b
  delete_entries (e ∷ es) b = delete_entries es (delete (key_of_position e.position) b)

  abbrev pub entry_keys : List (Entry N) → List Text
  entry_keys = map (λ e. key_of_position e.position)

  unfoldable pub remove_cross : Option (List (Entry N)) → Book N → Result (List (Entry N) × Book N)
  unfolding list_book
  remove_cross expected b = do
    let current = filter entry_is_cross (list_book b)
    throw_if
        (elim expected [
          | none ↦ false
          | some es ↦
              not (same_texts (sort_texts (entry_keys current)) (sort_texts (entry_keys es)))
        ])
        "CROSS_POSITION_SET_CHANGED"
    ok (current, delete_entries current b)

  unfoldable pub insert_entries : List (Entry N) → Book N → Book N
  insert_entries [] b = b
  insert_entries (e ∷ es) b =
      insert_entries es (record b { positions = insert (key_of_position e.position) e b.positions })

  abbrev pub conflicts : Book N → Entry N → Bool
  conflicts b e = contains (key_of_position e.position) b.positions

  unfoldable pub restore_cross : List (Entry N) → Book N → Result (List (Entry N) × Book N)
  restore_cross snapshot b = do
    throw_if (not (every entry_is_cross snapshot)) "INVALID_CROSS_POSITION_SNAPSHOT"
    throw_if (not (every (λ e. not (conflicts b e)) snapshot)) "CROSS_POSITION_RESTORE_CONFLICT"
    ok (snapshot, insert_entries snapshot b)

  unfoldable pub clear : Book N → Book N
  clear b = record b { positions = [] }

module _ {N : Type 0} ⦃d : Double N⦄ where
  abbrev pub criteria_of_fill : Fill N → Criteria
  criteria_of_fill f = record { symbol = f.symbol; side = f.side; margin_mode = f.margin_mode }

  unfoldable pub add : Text → ℕ → Fill N → Book N → Result (Added N × Book N)
  add id now f b =
      let key = key_of (criteria_of_fill f) in
      elim (lookup key b.positions) [
        | some existing ↦ do
          merged ← merge_demo_position now existing.position f
          let next = record merged {
            margin_mode = f.margin_mode;
            take_profit = or_else f.take_profit existing.position.take_profit;
            stop_loss = or_else f.stop_loss existing.position.stop_loss;
          }
          let (entry, b') = store key next b
          ok (record { entry = entry; merged = true }, b')
        | none ↦ do
          opened ← open_demo_position id now f
          let next = record opened {
            margin_mode = f.margin_mode;
            take_profit = f.take_profit;
            stop_loss = f.stop_loss;
          }
          let (entry, b') = store key next b
          ok (record { entry = entry; merged = false }, b')
      ]

  -- The remaining position is stored with the mode and the triggers of the current one.
  unfoldable pub keep_or_delete : Text → Position N → Option (Position N) → Book N → Book N
  keep_or_delete key current none b = delete key b
  keep_or_delete key current (some p) b =
      (store key
        (record p {
          margin_mode = current.margin_mode;
          take_profit = current.take_profit;
          stop_loss = current.stop_loss;
        })
        b).1

  unfoldable pub reduce : ℕ → Criteria → N → Book N → Result (Reduced N × Book N)
  reduce now c quantity b = do
    let key = key_of c
    current ← required (lookup key b.positions) "NO_POSITION_TO_REDUCE"
    result ← reduce_demo_position now current.position quantity
    let b' = keep_or_delete key current.position result.position b
    ok (
      record {
        released_collateral = result.released_collateral;
        ratio = result.ratio;
        previous = current;
        entry = lookup key b'.positions;
      },
      b',
    )

  unfoldable pub evaluate_liquidation : Criteria → N → Book N → Result (LiquidationDecision N)
  evaluate_liquidation c mark_price b = do
    current ← required (lookup (key_of c) b.positions) "NO_POSITION_TO_LIQUIDATE"
    throw_if (entry_is_cross current) "CROSS_LIQUIDATION_REQUIRES_ACCOUNT_HEALTH"
    liquidation_action current.position mark_price

  -- `liquidate` of the book
  unfoldable pub liquidate_position : Criteria → N → Book N → Result (LiquidatedPosition N × Book N)
  liquidate_position c mark_price b = do
    let key = key_of c
    current ← required (lookup key b.positions) "NO_POSITION_TO_LIQUIDATE"
    throw_if (entry_is_cross current) "CROSS_LIQUIDATION_REQUIRES_ACCOUNT_HEALTH"
    decision ← liquidation_action current.position mark_price
    throw_if (not (is_liquidate decision.action)) "POSITION_NOT_LIQUIDATABLE"
    ok (record { previous = current; decision = decision }, delete key b)
