-- ===== src/Oracle/Accepted.antt =====
-- What the sources of an accepted price satisfy (oracle-guard.js).
use lqc_liquidity_chain.Common.{
  ℕ, ◌≤◌, ◌≡◌, inl, inr, Bool, true, false, List, [], ◌∷◌, arith, if◌then◌else◌, same_text, length,
  filter, All, filter-All, filter-All_of, ok, Result-cases,
}
use lqc_liquidity_chain.Common.Double.{Double, nought, IsFinite}
use lqc_liquidity_chain.Common.Text.{Text}
use lqc_liquidity_chain.Common.Validation.{positive_number, non_negative_number}
use lqc_liquidity_chain.Oracle.{
  Source, Reading, GuardOptions, Validated, has_id, median, prices, spread_ratio, read_source,
  read_sources, is_fresh, is_near, aggregate, validate_oracle_sources,
}

module _ {N : Type 0} ⦃d : Double N⦄ where
  open d use {sub, lt, le}

  -- A reading of a source: a finite price above zero, and a time that is not in the future.
  abbrev pub IsRead : N → Reading N → Type 0
  IsRead now r =
      (IsFinite r.price × (le r.price nought ≡ false))
      × ((lt now r.timestamp ≡ false) × (r.age_ms ≡ sub now r.timestamp))

  -- No identifier occurs twice.
  abbrev pub AreDistinct : List (Reading N) → Type 0
  AreDistinct [] = Unit
  AreDistinct (r ∷ rs) = All (λ q. same_text q.id r.id ≡ false) rs × AreDistinct rs

  abbrev AreNew : List Text → List (Reading N) → Type 0
  AreNew seen = All (λ q. has_id q.id seen ≡ false)

  AreNew-split :
      (i : Text) (seen : List Text) (rs : List (Reading N))
      → AreNew (i ∷ seen) rs
      → All (λ q. same_text q.id i ≡ false) rs × AreNew seen rs
  AreNew-split i seen [] h = (tt, tt)
  AreNew-split i seen (r ∷ rs) (h, hs) =
      let (others, new) = AreNew-split i seen rs hs in ((ground arith, others), (ground arith, new))

  filter-AreDistinct :
      (p : Reading N → Bool) (rs : List (Reading N)) → AreDistinct rs → AreDistinct (filter p rs)
  filter-AreDistinct p [] h = tt
  filter-AreDistinct p (r ∷ rs) (h, hs) =
      elim (p r) as (λ b. AreDistinct (if b then r ∷ filter p rs else filter p rs)) [
        | true ↦
            (filter-All_of (λ q. same_text q.id r.id ≡ false) p rs h, filter-AreDistinct p rs hs)
        | false ↦ filter-AreDistinct p rs hs
      ]

  read_source-IsRead :
      (now : N) (seen : List Text) (s : Source N) {r : Reading N}
      → read_source now seen s ≡ ok r
      → IsRead now r × (has_id r.id seen ≡ false) × (r.id ≡ s.id)
  unfolding read_source positive_number non_negative_number
  read_source-IsRead now seen s h = ground arith

  read_sources-cons :
      (now : N) (seen : List Text) (s : Source N) (ss : List (Source N)) {rs : List (Reading N)}
      → read_sources now seen (s ∷ ss) ≡ ok rs
      → (r : Reading N) × (rest : List (Reading N)) × (rs ≡ r ∷ rest)
        × (read_source now seen s ≡ ok r)
        × (read_sources now (s.id ∷ seen) ss ≡ ok rest)
  unfolding read_sources
  read_sources-cons now seen s ss h = elim (Result-cases (read_source now seen s)) [
    | inr (code, e) ↦ absurd (ground arith)
    | inl (r, e) ↦ elim (Result-cases (read_sources now (s.id ∷ seen) ss)) [
      | inr (code, e') ↦ absurd (ground arith)
      | inl (rest, e') ↦ (r, rest, ground arith, e, e')
    ]
  ]

  read_sources-IsRead :
      (now : N) (seen : List Text) (ss : List (Source N)) {rs : List (Reading N)}
      → read_sources now seen ss ≡ ok rs
      → All (IsRead now) rs × AreNew seen rs × AreDistinct rs
  unfolding read_sources
  read_sources-IsRead now seen [] {rs} h = let e : rs ≡ [] = ground arith in rw e (tt, tt, tt)
  read_sources-IsRead now seen (s ∷ ss) h =
      let (r, rest, e, one_read, rest_read) = read_sources-cons now seen s ss h in
      let (good, unseen, same) = read_source-IsRead now seen s one_read in
      let (goods, new, distinct) = read_sources-IsRead now (s.id ∷ seen) ss rest_read in
      let (others, rest_new) = AreNew-split s.id seen rest new in
      rw e ((good, goods), (unseen, rest_new), (rw same others, distinct))

  aggregate-eq-ok :
      (o : GuardOptions N) (total : ℕ) (valid : List (Reading N)) {v : Validated N}
      → aggregate o total valid ≡ ok v
      → (v.accepted ≡ filter (is_near v.reference_price o.max_deviation_ratio) valid)
        × (o.min_sources ≤ length v.accepted)
        × (lt o.max_source_spread_ratio (spread_ratio v.accepted) ≡ false)
        × (v.price ≡ median (prices v.accepted))
        × (v.reference_price ≡ median (prices valid))
  unfolding aggregate
  aggregate-eq-ok o total valid h = ground arith

  -- What `validateOracleSources` reads before it aggregates.
  validate-eq-ok :
      (o : GuardOptions N) (sources : List (Source N)) {v : Validated N}
      → validate_oracle_sources o sources ≡ ok v
      → (readings : List (Reading N)) × (read_sources o.now [] sources ≡ ok readings)
        × (aggregate o (length sources) (filter (is_fresh o.max_age_ms) readings) ≡ ok v)
        × (2 ≤ o.min_sources)
        × (o.production_mode ≡ true → 3 ≤ o.min_sources)
  unfolding validate_oracle_sources non_negative_number positive_number
  validate-eq-ok o sources h = elim (Result-cases (read_sources o.now [] sources)) [
    | inl (rs, e) ↦ (rs, e, ground arith, ground arith, λ prod. ground arith)
    | inr (code, e) ↦ absurd (ground arith)
  ]

  -- A price that the guard lets through is the median of at least `minSources` accepted sources, of
  -- two at least and of three in production. No two of them have the same identifier; each has a
  -- finite price above zero and a time that is neither in the future nor too old, and is near the
  -- reference price; and the spread of their prices is not above its limit.
  pub validate_oracle_sources-accepted :
      (o : GuardOptions N) (sources : List (Source N)) {v : Validated N}
      → validate_oracle_sources o sources ≡ ok v
      → (v.price ≡ median (prices v.accepted))
        × (o.min_sources ≤ length v.accepted)
        × (2 ≤ length v.accepted)
        × (o.production_mode ≡ true → 3 ≤ length v.accepted)
        × AreDistinct v.accepted
        × All (IsRead o.now) v.accepted
        × All (λ r. is_fresh o.max_age_ms r ≡ true) v.accepted
        × All (λ r. is_near v.reference_price o.max_deviation_ratio r ≡ true) v.accepted
        × (lt o.max_source_spread_ratio (spread_ratio v.accepted) ≡ false)
  validate_oracle_sources-accepted o sources {v} h =
      let (rs, read, aggregated, two, three) = validate-eq-ok o sources h in
      let (good, _, distinct) = read_sources-IsRead o.now [] sources read in
      let fresh = filter (is_fresh o.max_age_ms) rs in
      let near = is_near v.reference_price o.max_deviation_ratio in
      let (e, enough, narrow, price, _) = aggregate-eq-ok o (length sources) fresh aggregated in
      (
        price,
        enough,
        omega arith,
        λ prod. omega (arith, three prod),
        rw e (filter-AreDistinct near fresh (filter-AreDistinct _ rs distinct)),
        rw e (filter-All_of (IsRead o.now) near fresh (filter-All_of (IsRead o.now) _ rs good)),
        rw e (filter-All_of (λ r. is_fresh o.max_age_ms r ≡ true) near fresh (filter-All _ rs)),
        rw e (filter-All near fresh),
        narrow,
      )
