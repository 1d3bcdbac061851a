-- ===== src/Liquidation/Content.antt =====
-- The book after cross positions were removed, and after they were put back, key by key
-- (removeCross and restoreCross of position-book.js).
use lqc_liquidity_chain.Common.{
  ◌≡◌, refl, sym, ap, ◌∙◌, inl, inr, false, some, List, [], ◌∷◌, arith, if◌then◌else◌, same_text,
  same_text_refl, same_text_sound, Bool-cases, filter, All, filter-All_of,
}
use lqc_liquidity_chain.Common.Dict.{
  Dict, lookup, contains, insert, values, lookup-insert_self, lookup-insert_ne,
}
use lqc_liquidity_chain.Common.Text.{Text}
use mathlib.Core.Path.{subst}
use lqc_liquidity_chain.Book.{
  Entry, Book, key_of_position, entry_is_cross, delete_entries, insert_entries, list_book,
}
use lqc_liquidity_chain.Book.Keys.{HasKey, IsDistinct, IsKeyed}
use lqc_liquidity_chain.Book.Refined.{
  apart, is_among, lookup-delete_entries, view, position_in, KeepsIsolated, isolated_stay,
}
use lqc_liquidity_chain.Liquidation.{cross_entries}

module _ {N : Type 0} where
  -- The dictionary holds the entry under the key of its position.
  abbrev Held : Dict (Entry N) → Entry N → Type 0
  Held d e = lookup (key_of_position e.position) d ≡ some e

  Held-cons :
      (x : Text × Entry N) (d : Dict (Entry N)) (e : Entry N)
      → contains x.0 d ≡ false
      → Held d e
      → Held (x ∷ d) e
  Held-cons x d e new held = elim (Bool-cases (same_text (key_of_position e.position) x.0)) [
    | inl t ↦
        let clash = subst (λ k. lookup k d ≡ some e) (same_text_sound _ x.0 t) held in
        absurd (ground (arith, clash, new))
    | inr f ↦ rw f held
  ]

  All-Held-cons :
      (x : Text × Entry N) (d : Dict (Entry N)) (es : List (Entry N))
      → contains x.0 d ≡ false
      → All (Held d) es
      → All (Held (x ∷ d)) es
  All-Held-cons x d [] new h = tt
  All-Held-cons x d (e ∷ es) new (h, hs) = (Held-cons x d e new h, All-Held-cons x d es new hs)

  values-Held : (d : Dict (Entry N)) → All HasKey d → IsDistinct d → All (Held d) (values d)
  values-Held [] keys distinct = tt
  values-Held (x ∷ d) (key, keys) (new, distinct) = (
    rw (key, same_text_refl x.0) refl,
    All-Held-cons x d (values d) new (values-Held d keys distinct),
  )

  -- Entries that a dictionary held give back what it had under their keys.
  lookup-insert_entries :
      (d : Dict (Entry N)) (es : List (Entry N)) (b : Book N) (k : Text)
      → All (Held d) es
      → lookup k (insert_entries es b).positions
        ≡ (if is_among k es then lookup k d else lookup k b.positions)
  unfolding insert_entries
  lookup-insert_entries d [] b k h = refl
  lookup-insert_entries d (e ∷ es) b k (h, hs) =
      let j = key_of_position e.position in
      let rest =
        lookup-insert_entries d es (record b { positions = insert j e b.positions }) k hs in
      elim (Bool-cases (same_text k j)) [
        | inl t ↦
            let same = same_text_sound k j t in
            let here =
              subst (λ x. lookup x (insert j e b.positions) ≡ some e) (sym same)
                (lookup-insert_self j e b.positions) in
            let before = subst (λ x. lookup x d ≡ some e) (sym same) h in
            ground (arith, rest, here, before)
        | inr f ↦
            let kept = lookup-insert_ne k j e b.positions (apart k j f) in
            ground (arith, rest, kept)
      ]

  -- The cross positions of a book that are removed and put back leave every key as it was.
  pub lookup-refilled :
      (b : Book N) (k : Text)
      → IsKeyed b
      → lookup k (insert_entries (cross_entries b) (delete_entries (cross_entries b) b)).positions
        ≡ lookup k b.positions
  unfolding cross_entries list_book
  lookup-refilled b k (keys, distinct) =
      let closed = filter entry_is_cross (values b.positions) in
      let held =
        filter-All_of (Held b.positions) entry_is_cross (values b.positions)
          (values-Held b.positions keys distinct) in
      let deleted = lookup-delete_entries k closed b in
      let inserted = lookup-insert_entries b.positions closed (delete_entries closed b) k held in
      elim (Bool-cases (is_among k closed)) [
        | inl t ↦ rw t at inserted
        | inr f ↦ let there = rw f at inserted in let gone = rw f at deleted in there ∙ gone
      ]

  -- The removal of the cross positions leaves exactly the isolated ones.
  pub emptied-KeepsIsolated :
      (b : Book N) → IsKeyed b → KeepsIsolated (view b) (view (delete_entries (cross_entries b) b))
  unfolding cross_entries list_book
  emptied-KeepsIsolated b (keys, _) j =
      let closed = filter entry_is_cross (values b.positions) in
      ap position_in (lookup-delete_entries j closed b)
      ∙ isolated_stay j b.positions (lookup j b.positions) keys refl
