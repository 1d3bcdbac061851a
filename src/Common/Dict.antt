-- ===== src/Common/Dict.antt =====
-- A JavaScript `Map` with string keys, in insertion order.
use lqc_liquidity_chain.Common.Tests.{same_text, same_text_refl, same_text_sound, if◌then◌else◌}
use Prim.Native.Nat.{ℕ}
use mathlib.Core.Path.{◌≡◌, refl}
use mathlib.Core.Logic.{◌≢◌}
use mathlib.Core.Bool.{Bool, true, false}
use mathlib.Core.Option.{Option, none, some}
use mathlib.Core.List.{List, [], ◌∷◌}
use native.Mathlib.Omega.{arith}

abbrev pub Key : Type 0
Key = List ℕ

abbrev pub Dict {ℓ} : Type ℓ → Type ℓ
Dict V = List (Key × V)

module _ {ℓ} {V : Type ℓ} where
  -- `map.get(k)`
  abbrev pub lookup : Key → Dict V → Option V
  lookup k [] = none
  lookup k ((j, v) ∷ d) = if same_text k j then some v else lookup k d

  -- `map.has(k)`
  abbrev pub contains : Key → Dict V → Bool
  contains k d = elim (lookup k d) [ none ↦ false | some _ ↦ true ]

  -- `map.set(k, v)`: a known key keeps its place.
  abbrev pub insert : Key → V → Dict V → Dict V
  insert k v [] = (k, v) ∷ []
  insert k v (e ∷ d) = if same_text k e.0 then (k, v) ∷ d else e ∷ insert k v d

  -- `map.delete(k)`
  abbrev pub erase : Key → Dict V → Dict V
  erase k [] = []
  erase k (e ∷ d) = if same_text k e.0 then erase k d else e ∷ erase k d

  -- `[...map.values()]`
  abbrev pub values : Dict V → List V
  values [] = []
  values ((_, v) ∷ d) = v ∷ values d

  pub lookup-insert_self : (k : Key) (v : V) (d : Dict V) → lookup k (insert k v d) ≡ some v
  lookup-insert_self k v [] = ground (arith, same_text_refl k)
  lookup-insert_self k v (e ∷ d) = ground (arith, same_text_refl k, lookup-insert_self k v d)

  pub lookup-insert_ne :
      (j k : Key) (v : V) (d : Dict V) → j ≢ k → lookup j (insert k v d) ≡ lookup j d
  lookup-insert_ne j k v [] h = ground (arith, same_text_sound j k)
  lookup-insert_ne j k v (e ∷ d) h =
      ground (arith, same_text_sound j k, same_text_sound k e.0, lookup-insert_ne j k v d h)

  pub lookup-erase_self : (k : Key) (d : Dict V) → lookup k (erase k d) ≡ none
  lookup-erase_self k [] = refl
  lookup-erase_self k (e ∷ d) = ground (arith, lookup-erase_self k d)

  pub lookup-erase_ne : (j k : Key) (d : Dict V) → j ≢ k → lookup j (erase k d) ≡ lookup j d
  lookup-erase_ne j k [] h = refl
  lookup-erase_ne j k (e ∷ d) h = ground (
    arith,
    same_text_sound j k,
    same_text_sound k e.0,
    same_text_sound j e.0,
    lookup-erase_ne j k d h,
  )
