-- ===== src/Shared/Audit.antt =====
-- src/modules/shared/common/audit: audit.interceptor.ts and sinks/redact-sensitive.util.ts.
pub mod Unseen
pub mod Redacted
mod Tests
pub mod Interceptor
use nestjs_boilerplate.Base.{
  ℕ, zero, suc, ◌+◌, ◌==◌, ◌&&◌, ◌||◌, Bool, true, false, not, Option, none, some, List, [], ◌∷◌,
  ◌++◌, any, map, head?, drop, length, includes, Text, text_eq, codes, if◌then◌else◌,
}
use nestjs_boilerplate.Auth.Normalize.{lower}

-- A value of the program's language: objects and arrays are references, so that one can be reached
-- twice or from itself.
pub data Value : Type 0 where
  undefined null : Value
  string : Text → Value
  number : ℕ → Value
  boolean : Bool → Value
  ref : ℕ → Value

pub data Node : Type 0 where
  array : List Value → Node
  object : List (Text × Value) → Node

-- A reference is the place of its node.
abbrev pub Heap : Type 0
Heap = List Node

-- The copy that redaction makes, which is a tree.
mutual
  pub data Tree : Type 0 where
    leaf : Value → Tree
    items : Trees → Tree
    fields : Fields → Tree

  pub data Trees : Type 0 where
    nil : Trees
    cons : Tree → Trees → Trees

  pub data Fields : Type 0 where
    end : Fields
    field : Text → Tree → Fields → Fields

-- SENSITIVE_FIELD_PATTERNS: the words that a key must not contain, letters in lower case. A pattern
-- with `[_-]?` is three words; `/^otp$/` is the one key `otp`.
abbrev pub sensitive_words : List Text
sensitive_words =
    codes "password"
    ∷ codes "passwd"
    ∷ codes "token"
    ∷ codes "secret"
    ∷ codes "credential"
    ∷ codes "apikey"
    ∷ codes "api_key"
    ∷ codes "authorization"
    ∷ codes "bearer"
    ∷ codes "otpcode"
    ∷ codes "otp_code"
    ∷ codes "otp-code"
    ∷ codes "verificationcode"
    ∷ codes "verification_code"
    ∷ codes "verification-code"
    ∷ codes "resetcode"
    ∷ codes "reset_code"
    ∷ codes "reset-code"
    ∷ codes "privatekey"
    ∷ codes "private_key"
    ∷ codes "creditcard"
    ∷ codes "credit_card"
    ∷ codes "credit-card"
    ∷ codes "cardnumber"
    ∷ codes "card_number"
    ∷ codes "card-number"
    ∷ codes "cvv"
    ∷ codes "ssn"
    ∷ []

unfoldable pub is_sensitive_key : Text → Bool
unfolding lower text_eq
is_sensitive_key key =
    text_eq (map lower key) (codes "otp")
    || any (λ word. includes word (map lower key)) sensitive_words

abbrev pub node_at : Heap → ℕ → Option Node
node_at heap i = head? (drop i heap)

abbrev pub is_seen : ℕ → List ℕ → Bool
is_seen i seen = any (λ j. i == j) seen

-- The result of a part of the copy, with the references that were seen by then; `none` is out of
-- fuel.
abbrev pub Copy : Type 0 → Type 0
Copy A = Option (A × List ℕ)

abbrev pub then_copy : {A B : Type 0} → Copy A → (A → List ℕ → Copy B) → Copy B
then_copy none f = none
then_copy (some (a, seen)) f = f a seen

abbrev pub circular : Tree
circular = leaf (string (codes "[Circular]"))

-- The loops over the items of an array and over the entries of an object; `copy` is the recursive
-- call.
module _ (copy : List ℕ → Value → Copy Tree) where
  unfoldable pub redact_items : List Value → List ℕ → Copy Trees
  redact_items [] seen = some (nil, seen)
  redact_items (v ∷ vs) seen =
      then_copy (copy seen v)
        (λ t seen'. then_copy (redact_items vs seen') (λ ts seen''. some (cons t ts, seen'')))

  unfoldable pub redact_fields : List (Text × Value) → List ℕ → Copy Fields
  redact_fields [] seen = some (end, seen)
  redact_fields ((k, v) ∷ fs) seen = elim (is_sensitive_key k) [
    | true ↦ redact_fields fs seen
    | false ↦
        then_copy (copy seen v)
          (λ t seen'. then_copy (redact_fields fs seen') (λ ts seen''. some (field k t ts, seen'')))
  ]

  abbrev pub redact_node : Option Node → List ℕ → Copy Tree
  redact_node none seen = some (leaf null, seen)
  redact_node (some (array vs)) seen =
      then_copy (redact_items vs seen) (λ ts seen'. some (items ts, seen'))
  redact_node (some (object fs)) seen =
      then_copy (redact_fields fs seen) (λ ts seen'. some (fields ts, seen'))

-- `redactSensitive(value, seen)`; the fuel bounds the depth of the recursion.
unfoldable pub redact_sensitive : Heap → ℕ → List ℕ → Value → Copy Tree
unfolding redact_items redact_fields
redact_sensitive heap zero seen v = none
redact_sensitive heap (suc fuel) seen (ref i) =
    let copy = redact_sensitive heap fuel in
    elim (is_seen i seen) [
      | true ↦ some (circular, seen)
      | false ↦ redact_node copy (node_at heap i) (i ∷ seen)
    ]
redact_sensitive heap (suc fuel) seen v = some (leaf v, seen)

-- A path of the recursion meets no object twice.
abbrev pub enough_fuel : Heap → ℕ
enough_fuel heap = suc (length heap)

unfoldable pub redact_snapshot : Heap → Value → Copy Tree
unfolding redact_sensitive
redact_snapshot heap undefined = some (leaf undefined, [])
redact_snapshot heap null = some (leaf null, [])
redact_snapshot heap v = redact_sensitive heap (enough_fuel heap) [] v
