-- ===== src/Base/Outcome.antt =====
-- The outcome of an asynchronous method: a value or a thrown exception, with the state that it
-- leaves behind. What was written before a throw stays written.
use Prim.Native.String.{String}
use mathlib.Core.Path.{◌≡◌, refl, ◌∙◌}
use mathlib.Core.Logic.{◌⊎◌, inl, inr}
use mathlib.Core.Bool.{Bool, true, false}
use mathlib.Core.Option.{Option, none, some}

-- The exceptions of `@nestjs/common` that the services throw, with their messages; `failure` is
-- any other error that a call raises. `domain` is the `DomainException` of a code of
-- src/modules/shared/common/errors/error-codes.ts.
pub data Exception : Type 0 where
  bad_request unauthorized conflict internal_server_error failure domain : String → Exception

pub data Result {ℓ} (A : Type ℓ) : Type ℓ where
  ok : A → Result A
  err : Exception → Result A

-- The value, where there is one.
abbrev pub answer {ℓ} : {A : Type ℓ} → Result A → Option A
answer (ok a) = some a
answer (err e) = none

abbrev pub is_ok {ℓ} : {A : Type ℓ} → Result A → Bool
is_ok (ok a) = true
is_ok (err e) = false

-- To split on an outcome and keep the equation.
pub Result-cases {ℓ} :
    {A : Type ℓ} (r : Result A) → ((a : A) × (r ≡ ok a)) ⊎ ((e : Exception) × (r ≡ err e))
Result-cases (ok a) = inl (a, refl)
Result-cases (err e) = inr (e, refl)

abbrev pub Action : Type 0 → Type 0 → Type 0
Action W A = W → Result A × W

module _ {W A : Type 0} where
  abbrev pub pure : A → Action W A
  pure a w = (ok a, w)

  abbrev pub throw : Exception → Action W A
  throw e w = (err e, w)

  -- A value that the state determines.
  abbrev pub gets : (W → A) → Action W A
  gets f w = (ok (f w), w)

  abbrev pub or_throw : Option A → Exception → Action W A
  or_throw none e = throw e
  or_throw (some a) e = pure a

  -- `if (x === undefined) { m }`, where `m` throws or supplies the value
  abbrev pub or_else : Option A → Action W A → Action W A
  or_else none m = m
  or_else (some a) m = pure a

infixl 5 ◌>>=◌ ◌>>◌
abbrev pub ◌>>=◌ : {W A B : Type 0} → Action W A → (A → Action W B) → Action W B
◌>>=◌ m f w = let (r, w') = m w in elim r [ ok a ↦ f a w' | err e ↦ (err e, w') ]

abbrev pub ◌>>◌ : {W A B : Type 0} → Action W A → Action W B → Action W B
m >> k = m >>= λ _. k

module _ {W : Type 0} where
  abbrev pub modify : (W → W) → Action W (Unit {0})
  modify f w = (ok tt, f w)

  abbrev pub throw_if : Bool → Exception → Action W (Unit {0})
  throw_if c e w = elim c [ true ↦ (err e, w) | false ↦ (ok tt, w) ]

  -- `if (c) await m;`
  abbrev pub when : Bool → Action W (Unit {0}) → Action W (Unit {0})
  when c m w = elim c [ true ↦ m w | false ↦ (ok tt, w) ]

-- `try { m } catch (error) { handler(error) }`
abbrev pub try_catch : {W A : Type 0} → Action W A → (Exception → Action W A) → Action W A
try_catch m handler w = let (r, w') = m w in elim r [ ok a ↦ (ok a, w') | err e ↦ handler e w' ]

-- What a method leaves alone: it is left alone by a chain whose parts do, and by a `catch`.
module _ {W A B : Type 0} {C : Type 0} (see : W → C) where
  pub bind_keeps :
      (m : Action W A) (f : A → Action W B) (w : W)
      → see (m w).1 ≡ see w
      → ((a : A) → (m w).0 ≡ ok a → see (f a (m w).1).1 ≡ see (m w).1)
      → see ((m >>= f) w).1 ≡ see w
  bind_keeps m f w first next = after (m w) first next
    where
      after :
          (x : Result A × W)
          → see x.1 ≡ see w
          → ((a : A) → x.0 ≡ ok a → see (f a x.1).1 ≡ see x.1)
          → see (((λ (_ : W). x) >>= f) w).1 ≡ see w
      after (ok a, w') first next = next a refl ∙ first
      after (err e, w') first next = first

module _ {W A : Type 0} {C : Type 0} (see : W → C) where
  pub catch_keeps :
      (m : Action W A) (handler : Exception → Action W A) (w : W)
      → see (m w).1 ≡ see w
      → ((e : Exception) (w' : W) → see (handler e w').1 ≡ see w')
      → see (try_catch m handler w).1 ≡ see w
  catch_keeps m handler w first caught = after (m w) first
    where
      after :
          (x : Result A × W) → see x.1 ≡ see w → see (try_catch (λ (_ : W). x) handler w).1 ≡ see w
      after (ok a, w') first = first
      after (err e, w') first = caught e w' ∙ first
