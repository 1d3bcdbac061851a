-- ===== src/Gateway/Branches.antt =====
-- What the branches of `handleQuote` show holds of the whole (dex/scripts/quote-api-gateway.mjs); and
-- lemmas on the sizes of its maps.
use lqc_liquidity_chain.Common.{
  ℕ, suc, ◌≤◌, ◌<◌, ◌≡◌, refl, inl, inr, Bool, true, false, Option, none, some, [], ◌∷◌, arith,
  String, if◌then◌else◌, Bool-cases, same_text, length, All, Result, ok, err,
}
use lqc_liquidity_chain.Common.Dict.{Dict, lookup, contains, insert, erase}
use lqc_liquidity_chain.Common.Text.{Text}
use mathlib.Core.Path.{subst}
use lqc_liquidity_chain.Gateway.State.{Gateway, Arrival, CompletedEntry, drop_expired_entries}
use lqc_liquidity_chain.Gateway.Handler.{settle}

pub option-holds {ℓ} :
    {A : Type 0} {B : Type ℓ} (P : B → Type 0) (o : Option A) (f : A → B) (x : B)
    → P x
    → ((a : A) → P (f a))
    → P (elim o [ none ↦ x | some a ↦ f a ])
option-holds P none f x hx hf = hx
option-holds P (some a) f x hx hf = hf a

module _ (P : Arrival × Gateway → Type 0) (trace : Text) where
  pub if-settles :
      (b : Bool) (x y : Result Arrival × Gateway)
      → (b ≡ true → P (settle trace x))
      → (b ≡ false → P (settle trace y))
      → P (settle trace (if b then x else y))
  if-settles true x y hx hy = hx refl
  if-settles false x y hx hy = hy refl

  pub option-settles :
      {A : Type 0} (o : Option A) (f : A → Result Arrival × Gateway) (x : Result Arrival × Gateway)
      → ((a : A) → P (settle trace (f a)))
      → P (settle trace x)
      → P (settle trace (elim o [ none ↦ x | some a ↦ f a ]))
  option-settles none f x hf hx = hx
  option-settles (some a) f x hf hx = hf a

  pub result-settles :
      {A : Type 0} (r : Result A) (f : A → Result Arrival × Gateway)
      (x : String → Result Arrival × Gateway)
      → ((a : A) → P (settle trace (f a)))
      → ((code : String) → P (settle trace (x code)))
      → P (settle trace (elim r [ err code ↦ x code | ok a ↦ f a ]))
  result-settles (err code) f x hf hx = hx code
  result-settles (ok a) f x hf hx = hf a

module _ {V : Type 0} where
  pub length-insert : (k : Text) (v : V) (d : Dict V) → length (insert k v d) ≤ suc (length d)
  length-insert k v [] = omega arith
  length-insert k v (e ∷ d) = ground (arith, length-insert k v d)

  pub length-erase_le : (k : Text) (d : Dict V) → length (erase k d) ≤ length d
  length-erase_le k [] = omega arith
  length-erase_le k (e ∷ d) = ground (arith, length-erase_le k d)

  pub length-erase : (k : Text) (d : Dict V) → contains k d ≡ true → length (erase k d) < length d
  length-erase k [] h = absurd (ground arith)
  length-erase k (e ∷ d) h = ground (arith, length-erase k d, length-erase_le k d)

  pub All-insert :
      (P : V → Type 0) (k : Text) (v : V) (d : Dict V)
      → P v
      → All (λ x. P x.1) d
      → All (λ x. P x.1) (insert k v d)
  All-insert P k v [] p h = (p, tt)
  All-insert P k v (e ∷ d) p h =
      elim (same_text k e.0)
        as (λ b. All (λ x. P x.1) (if b then (k, v) ∷ d else e ∷ insert k v d)) [
          | true ↦ (p, h.1)
          | false ↦ (h.0, All-insert P k v d p h.1)
        ]

  pub All-lookup :
      (P : V → Type 0) (k : Text) (d : Dict V) {v : V}
      → All (λ x. P x.1) d
      → lookup k d ≡ some v
      → P v
  All-lookup P k [] h e = absurd (ground arith)
  All-lookup P k (x ∷ d) {v} h e = elim (Bool-cases (same_text k x.0)) [
    | inl t ↦ subst P (ground arith) h.0
    | inr t ↦ All-lookup P k d h.1 (ground arith)
  ]

pub length-drop_expired_entries :
    (now : ℕ) (d : Dict CompletedEntry) → length (drop_expired_entries now d) ≤ length d
unfolding drop_expired_entries
length-drop_expired_entries now [] = omega arith
length-drop_expired_entries now (e ∷ d) = ground (arith, length-drop_expired_entries now d)
