-- ===== src/Book/Refined.antt =====
-- The position book as a map from keys to positions (position-book.js).
use lqc_liquidity_chain.Common.{
  ◌≡◌, ◌≢◌, ap, ◌⊎◌, refl, sym, ◌∙◌, inl, inr, Bool, true, false, not, ◌||◌, Option, none, some,
  List, [], ◌∷◌, if◌then◌else◌, Option-cases, Bool-cases, arith, same_text, same_text_refl,
  same_text_sound, filter, every, ok, ok-inj, not-false, throw_if-eq-ok, All,
}
use lqc_liquidity_chain.Common.Double.{Double}
use lqc_liquidity_chain.Common.Dict.{
  Dict, lookup, insert, erase, values, lookup-insert_self, lookup-insert_ne, lookup-erase_self,
  lookup-erase_ne,
}
use lqc_liquidity_chain.Common.Text.{Text}
use mathlib.Core.Path.{subst}
use lqc_liquidity_chain.Risk.{Position, MarginMode, cross, isolated, is_cross}
use lqc_liquidity_chain.Book.{
  Entry, Book, key_of, key_of_position, list_book, delete, entry_is_cross, remove_cross,
  delete_entries, insert_entries, conflicts, restore_cross, clear, criteria_of_fill,
}
use lqc_liquidity_chain.Book.Keys.{IsKeyed, HasKey, lookup-HasKey, same_key-mode}
use lqc_liquidity_chain.Book.Reached.{
  Stores, stores, Deletes, deletes, absent, remove-Deletes, replace-Stores, reduce-Ends,
  liquidate-Deletes, add-Stores, Step, adds, replaces, reduces, removes, liquidates, removes_cross,
  restores_cross, clears, Reach, Reach-IsKeyed,
}

pub apart : (j k : Text) → same_text j k ≡ false → j ≢ k
apart j k f e = absurd (ground (arith, same_text_refl k, subst (λ x. same_text x k ≡ false) e f))

abbrev View : Type 0 → Type 0
View N = Text → Option (Position N)

is_cross_sound : (m : MarginMode) → is_cross m ≡ true → m ≡ cross
is_cross_sound cross h = refl
is_cross_sound isolated h = absurd (ground arith)

module _ {N : Type 0} where
  abbrev pub position_in : Option (Entry N) → Option (Position N)
  position_in none = none
  position_in (some e) = some e.position

  -- Which position stands under a key, whatever the order and the identity of the objects.
  abbrev pub view : Book N → View N
  view b k = position_in (lookup k b.positions)

  abbrev isolated_only : Option (Position N) → Option (Position N)
  isolated_only none = none
  isolated_only (some p) = if is_cross p.margin_mode then none else some p

  -- What a call does to the map: it puts a position under its own key `k`, drops `k`, drops the cross
  -- positions, or brings cross positions under their own keys that were free.
  abbrev Puts : Text → View N → View N → Type 0
  Puts k v w =
      (p : Position N) × (key_of_position p ≡ k)
      × ((j : Text) → w j ≡ (if same_text j k then some p else v j))

  abbrev Drops : Text → View N → View N → Type 0
  Drops k v w = (j : Text) → w j ≡ (if same_text j k then none else v j)

  abbrev pub KeepsIsolated : View N → View N → Type 0
  KeepsIsolated v w = (j : Text) → w j ≡ isolated_only (v j)

  abbrev Brings : View N → View N → Type 0
  Brings v w =
      (j : Text)
      → (w j ≡ v j)
        ⊎ ((v j ≡ none)
            × ((p : Position N) × (w j ≡ some p)
                × (p.margin_mode ≡ cross)
                × (key_of_position p ≡ j)))

  view-insert :
      (k : Text) (e : Entry N) (d : Dict (Entry N)) (j : Text)
      → position_in (lookup j (insert k e d))
        ≡ (if same_text j k then some e.position else position_in (lookup j d))
  view-insert k e d j = elim (Bool-cases (same_text j k)) [
    | inl t ↦
        let here =
          subst (λ x. lookup x (insert k e d) ≡ some e) (sym (same_text_sound j k t))
            (lookup-insert_self k e d) in
        rw t (ap position_in here)
    | inr f ↦ rw f (ap position_in (lookup-insert_ne j k e d (apart j k f)))
  ]

  view-erase :
      (k : Text) (d : Dict (Entry N)) (j : Text)
      → position_in (lookup j (erase k d))
        ≡ (if same_text j k then none else position_in (lookup j d))
  view-erase k d j = elim (Bool-cases (same_text j k)) [
    | inl t ↦
        let gone =
          subst (λ x. lookup x (erase k d) ≡ none) (sym (same_text_sound j k t))
            (lookup-erase_self k d) in
        rw t (ap position_in gone)
    | inr f ↦ rw f (ap position_in (lookup-erase_ne j k d (apart j k f)))
  ]

  Stores-Puts : {b c : Book N} {k : Text} → Stores b k c → Puts k (view b) (view c)
  Stores-Puts {b} {k = k} (stores e n is_key) = (e.position, is_key, view-insert k e b.positions)

  vacant-Drops : (k : Text) (b : Book N) → lookup k b.positions ≡ none → Drops k (view b) (view b)
  vacant-Drops k b vacant j = elim (Bool-cases (same_text j k)) [
    | inl t ↦ rw t (
        ap position_in
          (subst (λ x. lookup x b.positions ≡ none) (sym (same_text_sound j k t)) vacant))
    | inr f ↦ rw f refl
  ]

  Deletes-Drops : {b c : Book N} {k : Text} → Deletes b k c → Drops k (view b) (view c)
  Deletes-Drops {b} {k = k} deletes = view-erase k b.positions
  Deletes-Drops {b} {k = k} (absent vacant) = vacant-Drops k b vacant

  abbrev pub is_among : Text → List (Entry N) → Bool
  is_among j [] = false
  is_among j (e ∷ es) = same_text j (key_of_position e.position) || is_among j es

  pub lookup-delete_entries :
      (j : Text) (es : List (Entry N)) (b : Book N)
      → lookup j (delete_entries es b).positions
        ≡ (if is_among j es then none else lookup j b.positions)
  unfolding delete_entries
  lookup-delete_entries j [] b = refl
  lookup-delete_entries j (e ∷ es) b =
      let k = key_of_position e.position in
      let rest = lookup-delete_entries j es (delete k b) in
      elim (Bool-cases (same_text j k)) [
        | inl t ↦
            let gone : lookup j (erase k b.positions) ≡ none =
              subst (λ x. lookup x (erase k b.positions) ≡ none) (sym (same_text_sound j k t))
                (lookup-erase_self k b.positions) in
            ground (arith, rest, gone)
        | inr f ↦
            let kept = lookup-erase_ne j k b.positions (apart j k f) in ground (arith, rest, kept)
      ]

  is_among-filter_found :
      (j : Text) (d : Dict (Entry N)) {e : Entry N}
      → All HasKey d
      → lookup j d ≡ some e
      → entry_is_cross e ≡ true
      → is_among j (filter entry_is_cross (values d)) ≡ true
  is_among-filter_found j [] h l c = absurd (ground arith)
  is_among-filter_found j (x ∷ d) {e} (hx, hs) l c = elim (Bool-cases (same_text j x.0)) [
    | inl t ↦
        let here : x.1 ≡ e = ground arith in
        let is_cross_here : entry_is_cross x.1 ≡ true =
          subst (λ w. entry_is_cross w ≡ true) (sym here) c in
        let same_key : same_text j (key_of_position x.1.position) ≡ true =
          subst (λ k. same_text j k ≡ true) (sym hx) t in
        ground (arith, is_cross_here, same_key)
    | inr f ↦
        let later : lookup j d ≡ some e = ground arith in
        let rest = is_among-filter_found j d hs later c in ground (arith, rest)
  ]

  is_among-filter_cross :
      (j : Text) (d : Dict (Entry N)) (p : Position N)
      → key_of_position p ≡ j
      → is_among j (filter entry_is_cross (values d)) ≡ true
      → is_cross p.margin_mode ≡ true
  is_among-filter_cross j [] p is_key h = absurd (ground arith)
  is_among-filter_cross j (x ∷ d) p is_key h = elim (Bool-cases (entry_is_cross x.1)) [
    | inl c ↦ elim (Bool-cases (same_text j (key_of_position x.1.position))) [
      | inl t ↦
          let mode = same_key-mode p x.1.position (is_key ∙ same_text_sound j _ t) in
          ap is_cross mode ∙ c
      | inr f ↦ is_among-filter_cross j d p is_key (ground (arith, c, f))
    ]
    | inr i ↦ is_among-filter_cross j d p is_key (ground (arith, i))
  ]

  pub isolated_stay :
      (j : Text) (d : Dict (Entry N)) (o : Option (Entry N))
      → All HasKey d
      → lookup j d ≡ o
      → position_in (if is_among j (filter entry_is_cross (values d)) then none else o)
        ≡ isolated_only (position_in o)
  isolated_stay j d none h l =
      elim (is_among j (filter entry_is_cross (values d)))
        as (λ c. position_in (if c then none else none) ≡ none) [ true ↦ refl | false ↦ refl ]
  isolated_stay j d (some e) h l = elim (Bool-cases (entry_is_cross e)) [
    | inl c ↦ let among = is_among-filter_found j d h l c in rw (among, c) refl
    | inr i ↦ elim (Bool-cases (is_among j (filter entry_is_cross (values d)))) [
      | inl among ↦
          let c = is_among-filter_cross j d e.position (lookup-HasKey j d h l) among in
          absurd (ground (arith, c, i))
      | inr free ↦ rw (free, i) refl
    ]
  ]

  remove_cross-KeepsIsolated :
      (expected : Option (List (Entry N))) (b : Book N) {r : List (Entry N) × Book N}
      → IsKeyed b
      → remove_cross expected b ≡ ok r
      → KeepsIsolated (view b) (view r.1)
  unfolding remove_cross list_book
  remove_cross-KeepsIsolated expected b h e =
      let current = filter entry_is_cross (values b.positions) in
      let (_, r₁) = throw_if-eq-ok _ _ _ e in
      subst (λ (w : List (Entry N) × Book N). KeepsIsolated (view b) (view w.1)) (ok-inj r₁)
        (λ j.
          ap position_in (lookup-delete_entries j current b)
          ∙ isolated_stay j b.positions (lookup j b.positions) h.0 refl)

  insert-Brings :
      (v : View N) (e : Entry N) (b : Book N)
      → v (key_of_position e.position) ≡ none
      → e.position.margin_mode ≡ cross
      → Brings v (view b)
      → Brings v (view (record b { positions = insert (key_of_position e.position) e b.positions }))
  insert-Brings v e b free is_cross_e h j =
      let k = key_of_position e.position in
      elim (Bool-cases (same_text j k)) [
        | inl t ↦
            let is_key = sym (same_text_sound j k t) in
            let here : view (record b { positions = insert k e b.positions }) j ≡ some e.position =
              view-insert k e b.positions j ∙ rw t refl in
            inr (subst (λ x. v x ≡ none) is_key free, (e.position, here, is_cross_e, is_key))
        | inr f ↦
            let there = ap position_in (lookup-insert_ne j k e b.positions (apart j k f)) in
            elim (h j) [
              | inl kept ↦ inl (there ∙ kept)
              | inr (vacant, (p, held, is_c, is_k)) ↦ inr (vacant, (p, there ∙ held, is_c, is_k))
            ]
      ]

  free-view :
      (e : Entry N) (b : Book N)
      → not (conflicts b e) ≡ true
      → view b (key_of_position e.position) ≡ none
  free-view e b h = elim (Option-cases (lookup (key_of_position e.position) b.positions)) [
    | inl vacant ↦ ap position_in vacant
    | inr (x, held) ↦ absurd (ground (arith, held, h))
  ]

  cross_mode : (e : Entry N) → entry_is_cross e ≡ true → e.position.margin_mode ≡ cross
  cross_mode e h = is_cross_sound e.position.margin_mode h

  every-cons :
      (p : Entry N → Bool) (e : Entry N) (es : List (Entry N))
      → every p (e ∷ es) ≡ true
      → (p e ≡ true) × (every p es ≡ true)
  every-cons p e es h = elim (Bool-cases (p e)) [
    | inl t ↦ (t, ground (arith, t))
    | inr f ↦ absurd (ground (arith, f))
  ]

  insert_entries-Brings :
      (es : List (Entry N)) (start b : Book N)
      → every entry_is_cross es ≡ true
      → every (λ x. not (conflicts start x)) es ≡ true
      → Brings (view start) (view b)
      → Brings (view start) (view (insert_entries es b))
  unfolding insert_entries
  insert_entries-Brings [] start b all_cross all_free h = h
  insert_entries-Brings (e ∷ es) start b all_cross all_free h =
      let (is_cross_e, rest_cross) = every-cons entry_is_cross e es all_cross in
      let (is_free, rest_free) = every-cons (λ x. not (conflicts start x)) e es all_free in
      insert_entries-Brings es start
        (record b { positions = insert (key_of_position e.position) e b.positions }) rest_cross
        rest_free
        (insert-Brings (view start) e b (free-view e start is_free) (cross_mode e is_cross_e) h)

  restore_cross-Brings :
      (es : List (Entry N)) (b : Book N) {r : List (Entry N) × Book N}
      → restore_cross es b ≡ ok r
      → Brings (view b) (view r.1)
  unfolding restore_cross
  restore_cross-Brings es b e =
      let (all_cross, r₁) = throw_if-eq-ok (not (every entry_is_cross es)) _ _ e in
      let (all_free, r₂) = throw_if-eq-ok (not (every (λ x. not (conflicts b x)) es)) _ _ r₁ in
      let brought =
        insert_entries-Brings es b b (not-false _ all_cross) (not-false _ all_free)
          (λ j. inl refl) in
      subst (λ (w : List (Entry N) × Book N). Brings (view b) (view w.1)) (ok-inj r₂) brought

module _ {N : Type 0} ⦃d : Double N⦄ where
  -- What each call promises of the map from keys to positions.
  abbrev pub Effect : {b c : Book N} → Step b c → View N → View N → Type 0
  Effect (adds id now f e) v w = Puts (key_of (criteria_of_fill f)) v w
  Effect (replaces expected next e) v w = Puts (key_of_position expected.position) v w
  Effect (reduces now c quantity e) v w = Puts (key_of c) v w ⊎ Drops (key_of c) v w
  Effect (removes c) v w = Drops (key_of c) v w
  Effect (liquidates c mark_price e) v w = Drops (key_of c) v w
  Effect (removes_cross expected e) v w = KeepsIsolated v w
  Effect (restores_cross snapshot e) v w = Brings v w
  Effect clears v w = (j : Text) → w j ≡ none

  -- In a book that its calls have made, a call that succeeds does to the map from keys to positions
  -- what it promises: an addition or a replacement puts a position under its own key, that of the
  -- fill or of the replaced position, a reduction does so or drops the key, a removal and a
  -- liquidation drop it, and these leave every other key; the removal of cross positions leaves
  -- exactly the isolated ones, their restoration leaves each key as it was or puts a cross position
  -- of that key where there was none, and clearing leaves none.
  pub Step-Effect : {b c : Book N} → Reach b → (s : Step b c) → Effect s (view b) (view c)
  unfolding clear
  Step-Effect {b} reach (adds id now f e) =
      Stores-Puts (add-Stores id now f b (Reach-IsKeyed reach) e)
  Step-Effect {b} reach (replaces expected next e) =
      Stores-Puts (replace-Stores expected next b (Reach-IsKeyed reach) e)
  Step-Effect {b} reach (reduces now c quantity e) =
      elim (reduce-Ends now c quantity b (Reach-IsKeyed reach) e) [
        | inl stored ↦ inl (Stores-Puts stored)
        | inr deleted ↦ inr (Deletes-Drops deleted)
      ]
  Step-Effect {b} reach (removes c) = Deletes-Drops (remove-Deletes c b)
  Step-Effect {b} reach (liquidates c mark_price e) =
      Deletes-Drops (liquidate-Deletes c mark_price b (Reach-IsKeyed reach) e)
  Step-Effect {b} reach (removes_cross expected e) =
      remove_cross-KeepsIsolated expected b (Reach-IsKeyed reach) e
  Step-Effect {b} reach (restores_cross snapshot e) = restore_cross-Brings snapshot b e
  Step-Effect {b} reach clears = λ j. refl
