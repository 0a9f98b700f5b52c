-- ===== src/Ir/Builder.antt =====
-- The builder that the analyses thread through, and how their calls end.
use spine_triton.Prelude.{ℕ, suc, ℤ, Bool, true, false}
use spine_triton.Ir.Types.{Ty, index_ty}
use spine_triton.Ir.Values.{
  Value, BinaryOp, Predicate, constant, binary, cmpi, select, index_cast, integer_attr,
}

-- `ok` carries the result and the builder, which is the identity of the next operation. `failed` is
-- `failure()`. `fault` is a failed assertion, `llvm_unreachable`, a failed cast, a null value or an
-- access out of bounds.
pub data Outcome {ℓ} (A : Type ℓ) : Type ℓ where
  ok : A → ℕ → Outcome A
  failed : Outcome A
  fault : Outcome A

abbrev pub M {ℓ} : Type ℓ → Type ℓ
M A = ℕ → Outcome A

abbrev pub pure {ℓ} : {A : Type ℓ} → A → M A
pure a n = ok a n

abbrev pub fail {ℓ} : {A : Type ℓ} → M A
fail n = failed

abbrev pub crash {ℓ} : {A : Type ℓ} → M A
crash n = fault

abbrev pub then_do {ℓ κ} : {A : Type ℓ} {B : Type κ} → Outcome A → (A → M B) → Outcome B
then_do (ok a n) f = f a n
then_do failed f = failed
then_do fault f = fault

infixl 5 ◌>>=◌ ◌>>◌
abbrev pub ◌>>=◌ {ℓ κ} : {A : Type ℓ} {B : Type κ} → M A → (A → M B) → M B
◌>>=◌ m f n = then_do (m n) f

abbrev pub ◌>>◌ {ℓ κ} : {A : Type ℓ} {B : Type κ} → M A → M B → M B
m >> k = m >>= λ _. k

-- assert(b)
abbrev pub check : Bool → M (Unit {0})
check true = pure tt
check false = crash

-- The call returns, and its result and the builder after it have the property.
abbrev pub Returns {ℓ} : {A : Type ℓ} → (A → ℕ → Type 0) → Outcome A → Type 0
Returns P (ok a n) = P a n
Returns P failed = ⊥
Returns P fault = ⊥

-- A call that may fail, and whose result has the property where it returns; it does not fault.
abbrev pub ReturnsOrFails {ℓ} : {A : Type ℓ} → (A → ℕ → Type 0) → Outcome A → Type 0
ReturnsOrFails P (ok a n) = P a n
ReturnsOrFails P failed = Unit
ReturnsOrFails P fault = ⊥

-- Wherever the call returns, its result has the property.
abbrev pub Ensures {ℓ} : {A : Type ℓ} → (A → ℕ → Type 0) → Outcome A → Type 0
Ensures P (ok a n) = P a n
Ensures P _ = Unit

-- OpBuilder: every operation that it creates gets the next identity.
abbrev pub create : (ℕ → Value) → M Value
create mk n = ok (mk n) (suc n)

abbrev pub create_constant : ℤ → M Value
create_constant z = create (λ i. constant i index_ty (integer_attr z))

abbrev pub create_binary : BinaryOp → Value → Value → M Value
create_binary op l r = create (λ i. binary i op l r)

abbrev pub create_cmpi : Predicate → Value → Value → M Value
create_cmpi p l r = create (λ i. cmpi i p l r)

abbrev pub create_select : Value → Value → Value → M Value
create_select c t f = create (λ i. select i c t f)

abbrev pub create_index_cast : Ty → Value → M Value
create_index_cast t v = create (λ i. index_cast i t v)

-- A weaker property of what a call returns.
pub Returns-map {ℓ} :
    {A : Type ℓ} {P Q : A → ℕ → Type 0} (m : Outcome A)
    → ((a : A) (n : ℕ) → P a n → Q a n)
    → Returns P m
    → Returns Q m
Returns-map (ok a n) f h = f a n h
Returns-map failed f h = h
Returns-map fault f h = h

-- The property of a sequence, from that of its first call.
pub Returns-bind {ℓ κ} :
    {A : Type ℓ} {B : Type κ} {P : A → ℕ → Type 0} (Q : B → ℕ → Type 0) (m : Outcome A)
    (f : A → M B)
    → Returns P m
    → ((a : A) (n : ℕ) → P a n → Returns Q (f a n))
    → Returns Q (then_do m f)
Returns-bind Q (ok a n) f h k = k a n h
Returns-bind Q failed f h k = absurd h
Returns-bind Q fault f h k = absurd h
