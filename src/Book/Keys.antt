-- ===== src/Book/Keys.antt =====
-- One position for each symbol, side and margin mode (position-book.js).
use lqc_liquidity_chain.Common.{
  ℕ, ◌≡◌, refl, sym, ap, ◌∙◌, inl, inr, Bool, true, false, not, Option, some, List, [], ◌∷◌, ◌++◌,
  arith, if◌then◌else◌, Bool-cases, same_text, same_text_refl, same_text_sound, find, All,
  find_sound, ok, required, >>=-eq-ok, ok-inj, required-eq-some, throw_if-eq-ok,
}
use lqc_liquidity_chain.Common.Double.{Double}
use lqc_liquidity_chain.Common.Dict.{Dict, lookup, contains, insert, erase}
use lqc_liquidity_chain.Common.Text.{Text, codes, to_upper, trim}
use lqc_liquidity_chain.Common.Validation.{positive_number}
use mathlib.Core.Path.{subst}
use lqc_liquidity_chain.Markets.{
  Market, normalize_futures_symbol, define_market, futures_markets, get_futures_market,
  is_suspended,
}
use lqc_liquidity_chain.Risk.{
  Side, long, short, MarginMode, isolated, cross, normalized_side, Position,
}
use lqc_liquidity_chain.Positions.{
  Fill, side_text, validate_market_precision, open_demo_position, leverage_cap, effective_leverage,
}
use lqc_liquidity_chain.Book.{
  Entry, Book, mode_text, key_of, key_of_position, delete, delete_entries, insert_entries,
}

abbrev last_of : Text → ℕ
last_of [] = 0
last_of (x ∷ []) = x
last_of (x ∷ y ∷ ys) = last_of (y ∷ ys)

last_of-cons :
    (x : ℕ) (ys : Text) (y : ℕ) (zs : Text)
    → last_of (x ∷ (ys ++ (y ∷ zs))) ≡ last_of (ys ++ (y ∷ zs))
last_of-cons x [] y zs = refl
last_of-cons x (w ∷ ys) y zs = refl

last_of-append : (xs : Text) (y : ℕ) (ys : Text) → last_of (xs ++ (y ∷ ys)) ≡ last_of (y ∷ ys)
last_of-append [] y ys = refl
last_of-append (x ∷ xs) y ys = last_of-cons x xs y ys ∙ last_of-append xs y ys

abbrev pub key_from : Text → Text → MarginMode → Text
key_from symbol side mode = symbol ++ (codes ":" ++ (side ++ (codes ":" ++ mode_text mode)))

last_of-key :
    (symbol side : Text) (mode : MarginMode)
    → last_of (key_from symbol side mode) ≡ last_of (mode_text mode)
unfolding mode_text
last_of-key symbol side cross =
    last_of-append symbol 58 (side ++ (codes ":" ++ codes "CROSS"))
    ∙ (last_of-cons 58 side 58 (codes "CROSS") ∙ last_of-append side 58 (codes "CROSS"))
last_of-key symbol side isolated =
    last_of-append symbol 58 (side ++ (codes ":" ++ codes "ISOLATED"))
    ∙ (last_of-cons 58 side 58 (codes "ISOLATED") ∙ last_of-append side 58 (codes "ISOLATED"))

last_of-mode : (m n : MarginMode) → last_of (mode_text m) ≡ last_of (mode_text n) → m ≡ n
unfolding mode_text
last_of-mode cross cross h = refl
last_of-mode isolated isolated h = refl
last_of-mode cross isolated h = absurd (omega arith)
last_of-mode isolated cross h = absurd (omega arith)

-- Equal keys have the same margin mode.
pub key_from-mode : (s t a b : Text) (m n : MarginMode) → key_from s a m ≡ key_from t b n → m ≡ n
key_from-mode s t a b m n h =
    last_of-mode m n (sym (last_of-key s a m) ∙ (ap last_of h ∙ last_of-key t b n))

same_text_apart : (j k : Text) → same_text j k ≡ false → same_text k j ≡ false
same_text_apart j k h = elim (Bool-cases (same_text k j)) [
  | inl t ↦ absurd (
      ground (
        arith,
        same_text_refl k,
        subst (λ x. same_text x k ≡ false) (sym (same_text_sound k j t)) h,
      ))
  | inr f ↦ f
]

module _ {N : Type 0} where
  -- Entries stand under the key of their position, each key once.
  abbrev pub HasKey : Text × Entry N → Type 0
  HasKey x = key_of_position x.1.position ≡ x.0

  abbrev pub IsDistinct : Dict (Entry N) → Type 0
  IsDistinct [] = Unit
  IsDistinct (x ∷ d) = (contains x.0 d ≡ false) × IsDistinct d

  abbrev pub IsKeyed : Book N → Type 0
  IsKeyed b = All HasKey b.positions × IsDistinct b.positions

  insert-HasKey :
      (k : Text) (e : Entry N) (d : Dict (Entry N))
      → key_of_position e.position ≡ k
      → All HasKey d
      → All HasKey (insert k e d)
  insert-HasKey k e [] h hs = (h, tt)
  insert-HasKey k e (x ∷ d) h (hx, hs) =
      elim (same_text k x.0) as (λ b. All HasKey (if b then (k, e) ∷ d else x ∷ insert k e d)) [
        | true ↦ (h, hs)
        | false ↦ (hx, insert-HasKey k e d h hs)
      ]

  erase-HasKey : (k : Text) (d : Dict (Entry N)) → All HasKey d → All HasKey (erase k d)
  erase-HasKey k [] h = h
  erase-HasKey k (x ∷ d) (hx, hs) =
      elim (same_text k x.0) as (λ b. All HasKey (if b then erase k d else x ∷ erase k d)) [
        | true ↦ erase-HasKey k d hs
        | false ↦ (hx, erase-HasKey k d hs)
      ]

  contains-insert :
      (j k : Text) (e : Entry N) (d : Dict (Entry N))
      → same_text j k ≡ false
      → contains j d ≡ false
      → contains j (insert k e d) ≡ false
  contains-insert j k e [] h c = ground arith
  contains-insert j k e (x ∷ d) h c =
      ground (arith, contains-insert j k e d h, same_text_sound k x.0)

  contains-erase :
      (j k : Text) (d : Dict (Entry N)) → contains j d ≡ false → contains j (erase k d) ≡ false
  contains-erase j k [] c = c
  contains-erase j k (x ∷ d) c = ground (arith, contains-erase j k d)

  insert-IsDistinct :
      (k : Text) (e : Entry N) (d : Dict (Entry N)) → IsDistinct d → IsDistinct (insert k e d)
  insert-IsDistinct k e [] h = (refl, tt)
  insert-IsDistinct k e (x ∷ d) (hx, hs) = elim (Bool-cases (same_text k x.0)) [
    | inl t ↦
        let same = same_text_sound k x.0 t in
        rw t (subst (λ j. contains j d ≡ false) (sym same) hx, hs)
    | inr f ↦
        rw f (contains-insert x.0 k e d (same_text_apart k x.0 f) hx, insert-IsDistinct k e d hs)
  ]

  erase-IsDistinct : (k : Text) (d : Dict (Entry N)) → IsDistinct d → IsDistinct (erase k d)
  erase-IsDistinct k [] h = h
  erase-IsDistinct k (x ∷ d) (hx, hs) =
      elim (same_text k x.0) as (λ b. IsDistinct (if b then erase k d else x ∷ erase k d)) [
        | true ↦ erase-IsDistinct k d hs
        | false ↦ (contains-erase x.0 k d hx, erase-IsDistinct k d hs)
      ]

  pub lookup-HasKey :
      (k : Text) (d : Dict (Entry N)) {e : Entry N}
      → All HasKey d
      → lookup k d ≡ some e
      → key_of_position e.position ≡ k
  lookup-HasKey k [] h l = absurd (ground arith)
  lookup-HasKey k (x ∷ d) {e} (hx, hs) l = elim (Bool-cases (same_text k x.0)) [
    | inl t ↦
        let here : x.1 ≡ e = ground arith in
        subst (λ (w : Entry N). key_of_position w.position ≡ k) here
          (hx ∙ sym (same_text_sound k x.0 t))
    | inr f ↦ let later : lookup k d ≡ some e = ground arith in lookup-HasKey k d hs later
  ]

  pub insert-IsKeyed :
      (k : Text) (e : Entry N) (n : ℕ) (b : Book N)
      → key_of_position e.position ≡ k
      → IsKeyed b
      → IsKeyed (record { positions = insert k e b.positions; next = n })
  insert-IsKeyed k e n b h (keys, apart) =
      (insert-HasKey k e b.positions h keys, insert-IsDistinct k e b.positions apart)

  pub delete-IsKeyed : (k : Text) (b : Book N) → IsKeyed b → IsKeyed (delete k b)
  delete-IsKeyed k b (keys, apart) =
      (erase-HasKey k b.positions keys, erase-IsDistinct k b.positions apart)

  pub delete_entries-IsKeyed :
      (es : List (Entry N)) (b : Book N) → IsKeyed b → IsKeyed (delete_entries es b)
  unfolding delete_entries
  delete_entries-IsKeyed [] b h = h
  delete_entries-IsKeyed (e ∷ es) b h =
      let k = key_of_position e.position in
      delete_entries-IsKeyed es (delete k b) (delete-IsKeyed k b h)

  pub insert_entries-IsKeyed :
      (es : List (Entry N)) (b : Book N) → IsKeyed b → IsKeyed (insert_entries es b)
  unfolding insert_entries
  insert_entries-IsKeyed [] b h = h
  insert_entries-IsKeyed (e ∷ es) b h =
      let k = key_of_position e.position in
      insert_entries-IsKeyed es (record b { positions = insert k e b.positions })
        (insert-IsKeyed k e b.next b refl h)

  -- Positions of one key have one margin mode.
  pub same_key-mode :
      (p q : Position N) → key_of_position p ≡ key_of_position q → p.margin_mode ≡ q.margin_mode
  unfolding key_of_position key_of
  same_key-mode p q h = key_from-mode _ _ _ _ p.margin_mode q.margin_mode h

side_text-upper :
    (s : Text) {side : Side} → normalized_side s ≡ ok side → to_upper (side_text side) ≡ to_upper s
unfolding normalized_side to_upper
side_text-upper s {side} h = elim (Bool-cases (same_text (to_upper s) (codes "LONG"))) [
  | inl t ↦
      let here : side ≡ long = ground arith in
      ap (λ x. to_upper (side_text x)) here ∙ sym (same_text_sound (to_upper s) (codes "LONG") t)
  | inr f ↦ elim (Bool-cases (same_text (to_upper s) (codes "SHORT"))) [
    | inl t ↦
        let here : side ≡ short = ground arith in
        ap (λ x. to_upper (side_text x)) here ∙ sym (same_text_sound (to_upper s) (codes "SHORT") t)
    | inr g ↦ absurd (ground arith)
  ]
]

find-All :
    {A : Type 0} (P : A → Type 0) (p : A → Bool) (xs : List A) {x : A}
    → All P xs
    → find p xs ≡ some x
    → P x
find-All P p [] h e = absurd (ground arith)
find-All P p (y ∷ ys) {x} (hy, hs) e = elim (Bool-cases (p y)) [
  | inl t ↦ let here : y ≡ x = ground arith in subst P here hy
  | inr f ↦ let later : find p ys ≡ some x = ground arith in find-All P p ys hs later
]

markets-normal :
    (N : Type 0) ⦃d : Double N⦄
    → All (λ (m : Market N). normalize_futures_symbol m.symbol ≡ m.symbol) futures_markets
unfolding futures_markets define_market normalize_futures_symbol to_upper trim
markets-normal N = (refl, (refl, (refl, (refl, (refl, (refl, tt))))))

module _ {N : Type 0} ⦃d : Double N⦄ where
  listed-symbol :
      (s : Text) {m : Market N}
      → get_futures_market s ≡ some m
      → (m.symbol ≡ normalize_futures_symbol s) × (normalize_futures_symbol m.symbol ≡ m.symbol)
  unfolding get_futures_market
  listed-symbol s {m} h = (
    same_text_sound m.symbol (normalize_futures_symbol s) (
        find_sound (λ (x : Market N). same_text x.symbol (normalize_futures_symbol s))
          futures_markets m h),
    find-All (λ (x : Market N). normalize_futures_symbol x.symbol ≡ x.symbol)
        (λ (x : Market N). same_text x.symbol (normalize_futures_symbol s)) futures_markets
        (markets-normal N) h,
  )

  -- What an opened position has of its fill.
  pub opened-key :
      (id : Text) (now : ℕ) (f : Fill N) {p : Position N} (mode : MarginMode)
      (profit loss : Option N)
      → open_demo_position id now f ≡ ok p
      → key_of_position (record p { margin_mode = mode; take_profit = profit; stop_loss = loss })
        ≡ key_of (record { symbol = f.symbol; side = f.side; margin_mode = mode })
  unfolding open_demo_position key_of_position key_of
  opened-key id now f {p} mode profit loss h =
      let (m, em, r₁) = >>=-eq-ok (required (get_futures_market f.symbol) "UNKNOWN_MARKET") _ h in
      let (_, r₂) = throw_if-eq-ok (is_suspended m.status) _ _ r₁ in
      let (side, es, r₃) = >>=-eq-ok (normalized_side f.side) _ r₂ in
      let (qty, _, r₄) = >>=-eq-ok (positive_number f.quantity "INVALID_QUANTITY") _ r₃ in
      let (entry, _, r₅) = >>=-eq-ok (positive_number f.entry_price "INVALID_ENTRY_PRICE") _ r₄ in
      let (lev, _, r₆) = >>=-eq-ok (positive_number f.leverage "INVALID_LEVERAGE") _ r₅ in
      let (margin, _, r₇) = >>=-eq-ok (positive_number f.collateral "INVALID_COLLATERAL") _ r₆ in
      let (_, _, r₈) = >>=-eq-ok (validate_market_precision m qty entry) _ r₇ in
      let (_, r₉) = throw_if-eq-ok (not (d.is_integer lev)) "LEVERAGE_MUST_BE_INTEGER" _ r₈ in
      let (_, r₁₀) = throw_if-eq-ok (d.lt m.max_leverage lev) "LEVERAGE_EXCEEDS_MARKET_MAX" _ r₉ in
      let (_, r₁₁) =
        throw_if-eq-ok (d.lt (leverage_cap m) (effective_leverage qty entry margin))
          "COLLATERAL_BELOW_MARKET_MINIMUM" _ r₁₀ in
      let (is_symbol, normal) =
        listed-symbol f.symbol
          (required-eq-some (get_futures_market f.symbol) "UNKNOWN_MARKET" em) in
      let same_symbol = normal ∙ is_symbol in
      let same_side = side_text-upper f.side es in
      subst
        (λ (q : Position N).
          key_from (normalize_futures_symbol q.symbol) (to_upper q.side) mode
          ≡ key_from (normalize_futures_symbol f.symbol) (to_upper f.side) mode)
        (ok-inj r₁₁) (rw (same_symbol, same_side) refl)
