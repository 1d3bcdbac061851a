-- ===== src/Common/Results.antt =====
-- What a call gives: a value, or the message of the `Error` that it throws.
use Prim.Native.String.{String}
use mathlib.Core.Path.{◌≡◌, refl}
use mathlib.Core.Logic.{◌⊎◌, inl, inr}
use mathlib.Core.Bool.{Bool, true, false, not}
use mathlib.Core.Option.{Option, none, some}
use mathlib.Core.List.{List, [], ◌∷◌}
use native.Mathlib.Omega.{arith}

pub data Result {ℓ} (A : Type ℓ) : Type ℓ where
  ok : A → Result A
  err : String → Result A

infixl 5 ◌>>=◌
abbrev pub ◌>>=◌ {ℓ ℓ'} : {S : Type ℓ} {T : Type ℓ'} → Result S → (S → Result T) → Result T
err code >>= next = err code
ok value >>= next = next value

-- `if (b) throw new Error(code);`
abbrev pub throw_if : Bool → String → Result (Unit {0})
throw_if true code = err code
throw_if false code = ok tt

-- a statement, and what follows it
infixl 5 ◌>>◌
abbrev pub ◌>>◌ {ℓ} : {T : Type ℓ} → Result (Unit {0}) → Result T → Result T
check >> rest = check >>= (λ _. rest)

-- `if (!value) throw new Error(code);` where `value` may be null.
abbrev pub required {ℓ} : {A : Type ℓ} → Option A → String → Result A
required none code = err code
required (some a) code = ok a

module _ {ℓ κ} {A : Type ℓ} {B : Type κ} where
  -- `xs.map(f)` for an `f` that may throw
  abbrev pub map_result : (A → Result B) → List A → Result (List B)
  map_result f [] = ok []
  map_result f (x ∷ xs) = f x >>= λ y. map_result f xs >>= λ ys. ok (y ∷ ys)

  -- What a chain that succeeds has gone through.
  pub >>=-eq-ok :
      (first : Result A) (rest : A → Result B) {r : B}
      → (first >>= rest) ≡ ok r
      → (v : A) × (first ≡ ok v) × (rest v ≡ ok r)
  >>=-eq-ok (err code) rest e = absurd (ground arith)
  >>=-eq-ok (ok v) rest e = (v, refl, e)

pub throw_if-eq-ok {ℓ} :
    (b : Bool) (code : String) {T : Type ℓ} (rest : Result T) {r : T}
    → (throw_if b code >> rest) ≡ ok r
    → (b ≡ false) × (rest ≡ ok r)
throw_if-eq-ok false code rest e = (refl, e)
throw_if-eq-ok true code rest e = absurd (ground arith)

-- How a transaction ends: with a result; by an error before anything was changed; by an error after
-- the changes were taken back; or by an error where taking them back failed.
pub data Outcome {ℓ} (A : Type ℓ) : Type ℓ where
  done : A → Outcome A
  refused : String → Outcome A
  rolled_back : String → Outcome A
  rollback_failed : String → String → Outcome A

pub Result-cases {ℓ} :
    {A : Type ℓ} (r : Result A) → ((a : A) × (r ≡ ok a)) ⊎ ((e : String) × (r ≡ err e))
Result-cases (ok a) = inl (a, refl)
Result-cases (err e) = inr (e, refl)

pub ok-inj {ℓ} : {A : Type ℓ} {a b : A} → ok a ≡ ok b → a ≡ b
ok-inj h = ground arith

pub required-eq-some {ℓ} :
    {A : Type ℓ} (o : Option A) (code : String) {a : A} → required o code ≡ ok a → o ≡ some a
required-eq-some none code h = absurd (ground arith)
required-eq-some (some a) code h = ground arith

pub not-false : (b : Bool) → not b ≡ false → b ≡ true
not-false true h = refl
not-false false h = absurd (ground arith)
