-- ===== src/Book/Reached.antt =====
-- One position for each symbol, side and margin mode, in every book that the operations make
-- (position-book.js).
use lqc_liquidity_chain.Common.{
  ℕ, ◌+◌, ◌≡◌, refl, sym, ◌∙◌, ◌⊎◌, inl, inr, Bool, true, false, not, Option, none, some, List,
  ◌==◌, if◌then◌else◌, Option-cases, same_text, same_text_sound, filter, every, ok, required,
  >>=-eq-ok, ok-inj, required-eq-some, not-false, throw_if-eq-ok,
}
use lqc_liquidity_chain.Common.Double.{Double}
use lqc_liquidity_chain.Common.Dict.{lookup, insert, values}
use lqc_liquidity_chain.Common.Text.{Text}
use lqc_liquidity_chain.Common.Validation.{positive_number}
use mathlib.Core.Path.{subst}
use lqc_liquidity_chain.Markets.{get_futures_market}
use lqc_liquidity_chain.Risk.{normalized_side, Position, liquidation_action}
use lqc_liquidity_chain.Positions.{
  Fill, Reduction, text_or, validate_market_precision, open_demo_position, merge_demo_position,
  reduce_demo_position,
}
use lqc_liquidity_chain.Book.{
  Entry, Book, Criteria, Added, Replaced, Reduced, LiquidatedPosition, key_of, key_of_position,
  create_demo_position_book, list_book, delete, replace, remove, entry_is_cross, remove_cross,
  restore_cross, clear, criteria_of_fill, add, keep_or_delete, reduce, liquidate_position,
  conflicts,
}
use lqc_liquidity_chain.Book.Keys.{
  IsKeyed, key_from-mode, lookup-HasKey, insert-IsKeyed, delete-IsKeyed, delete_entries-IsKeyed,
  insert_entries-IsKeyed, same_key-mode, opened-key,
}

module _ {N : Type 0} where
  -- The key of a position with the symbol and the side of another and the mode that it had.
  kept-key :
      (p q : Position N)
      → q.symbol ≡ p.symbol
      → q.side ≡ p.side
      → q.margin_mode ≡ p.margin_mode
      → key_of_position q ≡ key_of_position p
  unfolding key_of_position key_of
  kept-key p q same_symbol same_side same_mode = rw (same_symbol, same_side, same_mode) refl

  -- A position is stored under its own key `k`.
  pub data Stores (b : Book N) (k : Text) : Book N → Type 0 where
    stores :
        (e : Entry N) (n : ℕ)
        → key_of_position e.position ≡ k
        → Stores b k (record { positions = insert k e b.positions; next = n })

  -- The key `k` is deleted, or was not there.
  pub data Deletes (b : Book N) (k : Text) : Book N → Type 0 where
    deletes : Deletes b k (delete k b)
    absent : lookup k b.positions ≡ none → Deletes b k b

  Stores-IsKeyed : {b c : Book N} {k : Text} → Stores b k c → IsKeyed b → IsKeyed c
  Stores-IsKeyed {b} {k = k} (stores e n is_key) h = insert-IsKeyed k e n b is_key h

  Deletes-IsKeyed : {b c : Book N} {k : Text} → Deletes b k c → IsKeyed b → IsKeyed c
  Deletes-IsKeyed {b} {k = k} deletes h = delete-IsKeyed k b h
  Deletes-IsKeyed (absent vacant) h = h

  pub remove-Deletes : (c : Criteria) (b : Book N) → Deletes b (key_of c) (remove c b).1
  unfolding remove
  remove-Deletes c b = elim (Option-cases (lookup (key_of c) b.positions)) [
    | inl vacant ↦ rw (vacant, remove) (absent vacant)
    | inr (e, held) ↦ rw (held, remove) deletes
  ]

  pub replace-Stores :
      (expected : Entry N) (next : Position N) (b : Book N) {r : Replaced N × Book N}
      → IsKeyed b
      → replace expected next b ≡ ok r
      → Stores b (key_of_position expected.position) r.1
  unfolding replace
  replace-Stores expected next b h e =
      let key = key_of_position expected.position in
      let (same, r₁) = throw_if-eq-ok (not (same_text key (key_of_position next))) _ _ e in
      let (current, found, r₂) = >>=-eq-ok (required (lookup key b.positions) _) _ r₁ in
      let (_, r₃) = throw_if-eq-ok (not (current.ref == expected.ref)) _ _ r₂ in
      let is_key = same_text_sound key (key_of_position next) (not-false _ same) in
      let has_key =
        lookup-HasKey key b.positions h.0 (required-eq-some (lookup key b.positions) _ found) in
      let mode = same_key-mode current.position next (has_key ∙ is_key) in
      subst (λ (w : Replaced N × Book N). Stores b (key_of_position expected.position) w.1)
        (ok-inj r₃) (stores _ (b.next + 1) (kept-key next _ refl refl mode ∙ sym is_key))

  remove_cross-IsKeyed :
      (expected : Option (List (Entry N))) (b : Book N) {r : List (Entry N) × Book N}
      → IsKeyed b
      → remove_cross expected b ≡ ok r
      → IsKeyed r.1
  unfolding remove_cross list_book
  remove_cross-IsKeyed expected b h e =
      let current = filter entry_is_cross (values b.positions) in
      let (_, r₁) = throw_if-eq-ok _ _ _ e in
      subst (λ (w : List (Entry N) × Book N). IsKeyed w.1) (ok-inj r₁)
        (delete_entries-IsKeyed current b h)

  restore_cross-IsKeyed :
      (es : List (Entry N)) (b : Book N) {r : List (Entry N) × Book N}
      → IsKeyed b
      → restore_cross es b ≡ ok r
      → IsKeyed r.1
  unfolding restore_cross
  restore_cross-IsKeyed es b h e =
      let (_, r₁) = throw_if-eq-ok (not (every entry_is_cross es)) _ _ e in
      let (_, r₂) = throw_if-eq-ok (not (every (λ x. not (conflicts b x)) es)) _ _ r₁ in
      subst (λ (w : List (Entry N) × Book N). IsKeyed w.1) (ok-inj r₂)
        (insert_entries-IsKeyed es b h)

module _ {N : Type 0} ⦃d : Double N⦄ where
  abbrev IsSameSide : Position N → Position N → Type 0
  IsSameSide p q = (q.symbol ≡ p.symbol) × (q.side ≡ p.side)

  merge-IsSameSide :
      (now : ℕ) (p : Position N) (f : Fill N) {q : Position N}
      → merge_demo_position now p f ≡ ok q
      → IsSameSide p q
  unfolding merge_demo_position
  merge-IsSameSide now p f h =
      let (m, _, r₁) = >>=-eq-ok (required (get_futures_market p.symbol) _) _ h in
      let (side, _, r₂) = >>=-eq-ok (normalized_side (text_or f.side p.side)) _ r₁ in
      let (_, r₃) = throw_if-eq-ok _ _ _ r₂ in
      let (qty, _, r₄) = >>=-eq-ok (positive_number f.quantity _) _ r₃ in
      let (price, _, r₅) = >>=-eq-ok (positive_number f.entry_price _) _ r₄ in
      let (collateral, _, r₆) = >>=-eq-ok (positive_number f.collateral _) _ r₅ in
      let (_, _, r₇) = >>=-eq-ok (validate_market_precision m qty price) _ r₆ in
      let (_, _, r₈) = >>=-eq-ok (positive_number p.quantity _) _ r₇ in
      let (_, r₉) = throw_if-eq-ok _ _ _ r₈ in subst (IsSameSide p) (ok-inj r₉) (refl, refl)

  abbrev IsRest : Position N → Option (Position N) → Type 0
  IsRest p none = Unit
  IsRest p (some q) = IsSameSide p q

  if-IsRest :
      (p : Position N) (b : Bool) (q : Position N)
      → IsSameSide p q
      → IsRest p (if b then none else some q)
  if-IsRest p true q h = tt
  if-IsRest p false q h = h

  reduce-IsRest :
      (now : ℕ) (p : Position N) (quantity : N) {r : Reduction N}
      → reduce_demo_position now p quantity ≡ ok r
      → IsRest p r.position
  unfolding reduce_demo_position
  reduce-IsRest now p quantity h =
      let (m, _, r₁) = >>=-eq-ok (required (get_futures_market p.symbol) _) _ h in
      let (qty, _, r₂) = >>=-eq-ok (positive_number quantity _) _ r₁ in
      let (_, r₃) = throw_if-eq-ok _ _ _ r₂ in
      let (held, _, r₄) = >>=-eq-ok (positive_number p.quantity _) _ r₃ in
      let (_, r₅) = throw_if-eq-ok _ _ _ r₄ in
      subst (λ (w : Reduction N). IsRest p w.position) (ok-inj r₅)
        (if-IsRest p (d.le (d.abs (d.sub qty held)) (d.decimal 1 12)) _ (refl, refl))

  keep_or_delete-Ends :
      (key : Text) (current : Position N) (o : Option (Position N)) (b : Book N)
      → key_of_position current ≡ key
      → IsRest current o
      → Stores b key (keep_or_delete key current o b)
        ⊎ Deletes b key (keep_or_delete key current o b)
  unfolding keep_or_delete
  keep_or_delete-Ends key current none b _ _ = inr deletes
  keep_or_delete-Ends key current (some q) b is_key (same_symbol, same_side) =
      inl (stores _ (b.next + 1) (kept-key current _ same_symbol same_side refl ∙ is_key))

  pub reduce-Ends :
      (now : ℕ) (c : Criteria) (quantity : N) (b : Book N) {r : Reduced N × Book N}
      → IsKeyed b
      → reduce now c quantity b ≡ ok r
      → Stores b (key_of c) r.1 ⊎ Deletes b (key_of c) r.1
  unfolding reduce
  reduce-Ends now c quantity b h e =
      let key = key_of c in
      let (current, found, r₁) = >>=-eq-ok (required (lookup key b.positions) _) _ e in
      let (rest, reduced, r₂) =
        >>=-eq-ok (reduce_demo_position now current.position quantity) _ r₁ in
      let has_key =
        lookup-HasKey key b.positions h.0 (required-eq-some (lookup key b.positions) _ found) in
      subst (λ (w : Reduced N × Book N). Stores b (key_of c) w.1 ⊎ Deletes b (key_of c) w.1)
        (ok-inj r₂)
        (keep_or_delete-Ends key current.position rest.position b has_key
          (reduce-IsRest now current.position quantity reduced))

  pub liquidate-Deletes :
      (c : Criteria) (mark_price : N) (b : Book N) {r : LiquidatedPosition N × Book N}
      → IsKeyed b
      → liquidate_position c mark_price b ≡ ok r
      → Deletes b (key_of c) r.1
  unfolding liquidate_position
  liquidate-Deletes c mark_price b h e =
      let key = key_of c in
      let (current, _, r₁) = >>=-eq-ok (required (lookup key b.positions) _) _ e in
      let (_, r₂) = throw_if-eq-ok _ _ _ r₁ in
      let (decision, _, r₃) = >>=-eq-ok (liquidation_action current.position mark_price) _ r₂ in
      let (_, r₄) = throw_if-eq-ok _ _ _ r₃ in
      subst (λ (w : LiquidatedPosition N × Book N). Deletes b (key_of c) w.1) (ok-inj r₄) deletes

  merged-key :
      (f : Fill N) (p q : Position N) (profit loss : Option N)
      → key_of_position p ≡ key_of (criteria_of_fill f)
      → IsSameSide p q
      → key_of_position
          (record q { margin_mode = f.margin_mode; take_profit = profit; stop_loss = loss })
        ≡ key_of (criteria_of_fill f)
  unfolding key_of_position key_of
  merged-key f p q profit loss is_key (same_symbol, same_side) =
      let mode = key_from-mode _ _ _ _ p.margin_mode f.margin_mode is_key in
      kept-key p (record q { margin_mode = f.margin_mode; take_profit = profit; stop_loss = loss })
        same_symbol same_side (sym mode)
      ∙ is_key

  pub add-Stores :
      (id : Text) (now : ℕ) (f : Fill N) (b : Book N) {r : Added N × Book N}
      → IsKeyed b
      → add id now f b ≡ ok r
      → Stores b (key_of (criteria_of_fill f)) r.1
  unfolding add
  add-Stores id now f b h e =
      let key = key_of (criteria_of_fill f) in
      elim (Option-cases (lookup key b.positions)) [
        | inl vacant ↦
            let opening = rw (vacant, add) at e in
            let (opened, is_opened, r₁) = >>=-eq-ok (open_demo_position id now f) _ opening in
            subst (λ (w : Added N × Book N). Stores b (key_of (criteria_of_fill f)) w.1) (ok-inj r₁)
              (stores _ (b.next + 1)
                (opened-key id now f f.margin_mode f.take_profit f.stop_loss is_opened))
        | inr (existing, held) ↦
            let merging = rw (held, add) at e in
            let (merged, is_merged, r₁) =
              >>=-eq-ok (merge_demo_position now existing.position f) _ merging in
            subst (λ (w : Added N × Book N). Stores b (key_of (criteria_of_fill f)) w.1) (ok-inj r₁)
              (stores _ (b.next + 1) (
                merged-key f existing.position merged _ _ (lookup-HasKey key b.positions h.0 held)
                  (merge-IsSameSide now existing.position f is_merged)))
      ]

  -- One call on the book that succeeds.
  pub data Step (b : Book N) : Book N → Type 0 where
    adds :
        (id : Text) (now : ℕ) (f : Fill N) {r : Added N × Book N}
        → add id now f b ≡ ok r
        → Step b r.1
    replaces :
        (expected : Entry N) (next : Position N) {r : Replaced N × Book N}
        → replace expected next b ≡ ok r
        → Step b r.1
    reduces :
        (now : ℕ) (c : Criteria) (quantity : N) {r : Reduced N × Book N}
        → reduce now c quantity b ≡ ok r
        → Step b r.1
    removes : (c : Criteria) → Step b (remove c b).1
    liquidates :
        (c : Criteria) (mark_price : N) {r : LiquidatedPosition N × Book N}
        → liquidate_position c mark_price b ≡ ok r
        → Step b r.1
    removes_cross :
        (expected : Option (List (Entry N))) {r : List (Entry N) × Book N}
        → remove_cross expected b ≡ ok r
        → Step b r.1
    restores_cross :
        (snapshot : List (Entry N)) {r : List (Entry N) × Book N}
        → restore_cross snapshot b ≡ ok r
        → Step b r.1
    clears : Step b (clear b)

  pub data Reach : Book N → Type 0 where
    created : Reach create_demo_position_book
    after : {b c : Book N} → Reach b → Step b c → Reach c

  Step-IsKeyed : {b c : Book N} → Step b c → IsKeyed b → IsKeyed c
  unfolding clear
  Step-IsKeyed {b} (adds id now f e) h = Stores-IsKeyed (add-Stores id now f b h e) h
  Step-IsKeyed {b} (replaces expected next e) h =
      Stores-IsKeyed (replace-Stores expected next b h e) h
  Step-IsKeyed {b} (reduces now c quantity e) h = elim (reduce-Ends now c quantity b h e) [
    | inl stored ↦ Stores-IsKeyed stored h
    | inr deleted ↦ Deletes-IsKeyed deleted h
  ]
  Step-IsKeyed {b} (removes c) h = Deletes-IsKeyed (remove-Deletes c b) h
  Step-IsKeyed {b} (liquidates c mark_price e) h =
      Deletes-IsKeyed (liquidate-Deletes c mark_price b h e) h
  Step-IsKeyed {b} (removes_cross expected e) h = remove_cross-IsKeyed expected b h e
  Step-IsKeyed {b} (restores_cross snapshot e) h = restore_cross-IsKeyed snapshot b h e
  Step-IsKeyed clears h = (tt, tt)

  -- However the calls on a new position book follow one another, every position stands under the key
  -- of its own symbol, side and margin mode, and no key stands in the book twice.
  pub Reach-IsKeyed : {b : Book N} → Reach b → IsKeyed b
  unfolding create_demo_position_book
  Reach-IsKeyed created = (tt, tt)
  Reach-IsKeyed (after before step) = Step-IsKeyed step (Reach-IsKeyed before)
