-- ===== src/Scan/Region.antt =====
-- The combine region of a tt.scan, and ReduceScanOpConversionBase::accumulate, which clones it on
-- vectors: lib/Conversion/TritonToLinalgExperimental/ConvertScanOpPass.cpp.
use mathlib.Core.Option
use spine_triton.Prelude.{
  Bool, ℕ, zero, suc, ◌+◌, ◌==◌, if◌then◌else◌, List, [], ◌∷◌, Option, none, some, length,
  get_elem?,
}

-- An operation of the region's block, with the identities of its operands and results. The name
-- stands for the operation with its attributes; `returns` is the tt.scan.return.
pub data BlockOp : Type 0 where
  returns : List ℕ → BlockOp
  operation : ℕ → List ℕ → List ℕ → BlockOp

pub record Block : Type 0 where
  pub arguments : List ℕ
  pub operations : List BlockOp

-- The operations of the vector dialect and the builder that the pass calls.
pub record Dialect (V : Type 0) : Type 0 where
  -- cast<VectorType>(value.getType()).getShape()
  pub shape : V → List ℕ
  -- an operation with its name, operands, number of results and their shape
  pub create : ℕ → List V → ℕ → List ℕ → List V
  pub broadcast : List ℕ → ℕ → V
  pub zeros : List ℕ → V
  pub shuffle : V → V → List ℕ → V
  pub select : List Bool → V → V → V
  pub extract : V → List ℕ → V
  pub insert : V → V → List ℕ → V
  -- getNumElements, computeStrides and delinearize
  pub num_elements : V → ℕ
  pub compute_strides : List ℕ → List ℕ
  pub delinearize : ℕ → List ℕ → List ℕ

infixl 5 ◌>>=◌
abbrev pub ◌>>=◌ {ℓ κ} : {A : Type ℓ} {B : Type κ} → Option A → (A → Option B) → Option B
none >>= f = none
some a >>= f = f a

-- The call does not fault, and its result has the property.
abbrev pub Yields {ℓ} : {A : Type ℓ} → (A → Type 0) → Option A → Type 0
Yields P none = ⊥
Yields P (some a) = P a

pub Yields-bind {ℓ κ} :
    {A : Type ℓ} {B : Type κ} {P : A → Type 0} (Q : B → Type 0) (o : Option A) (f : A → Option B)
    → Yields P o
    → ((a : A) → P a → Yields Q (f a))
    → Yields Q (o >>= f)
Yields-bind Q none f h k = absurd h
Yields-bind Q (some a) f h k = k a h

pub Yields-map {ℓ} :
    {A : Type ℓ} {P Q : A → Type 0} (o : Option A) → ((a : A) → P a → Q a) → Yields P o → Yields Q o
Yields-map none k h = absurd h
Yields-map (some a) k h = k a h

-- IRMapping: the newest entry of a key counts.
abbrev pub Mapping : Type 0 → Type 0
Mapping A = List (ℕ × A)

module _ {A : Type 0} where
  unfoldable pub look_up : Mapping A → ℕ → Option A
  look_up [] id = none
  look_up ((k, a) ∷ m) id = if k == id then some a else look_up m id

  -- map.lookup of each operand of the return
  unfoldable pub look_up_all : Mapping A → List ℕ → Option (List A)
  look_up_all m [] = some []
  look_up_all m (id ∷ ids) = look_up m id >>= λ a. look_up_all m ids >>= λ rest. some (a ∷ rest)

  unfoldable pub map_pair : ℕ → ℕ → Mapping A → A → A → Mapping A
  map_pair p q m a b = (q, b) ∷ (p, a) ∷ m

  -- The loop that maps the block's arguments, from index `i` on; an index past an end is a fault.
  unfoldable pub map_arguments : ℕ → ℕ → List ℕ → List A → List A → Mapping A → Option (Mapping A)
  map_arguments zero i args acc inputs m = some m
  map_arguments (suc n) i args acc inputs m = get_elem? args i >>= λ p.
      get_elem? args (length acc + i) >>= λ q. get_elem? acc i >>= λ a.
      get_elem? inputs i >>= λ b. map_arguments n (suc i) args acc inputs (map_pair p q m a b)

  -- llvm::zip(op.getResults(), newOp->getResults())
  unfoldable pub map_results : List ℕ → List A → Mapping A → Mapping A
  map_results [] news m = m
  map_results (id ∷ ids) [] m = m
  map_results (id ∷ ids) (a ∷ news) m = map_results ids news ((id, a) ∷ m)

module _ {V : Type 0} (d : Dialect V) where
  invariant_value : Option V → List ℕ → ℕ → Mapping V → V × Mapping V
  invariant_value (some v) shape id inv = (v, inv)
  invariant_value none shape id inv = (d.broadcast shape id, (id, d.broadcast shape id) ∷ inv)

  mapped_value : Option V → List ℕ → ℕ → Mapping V → V × Mapping V
  mapped_value (some v) shape id inv = (v, inv)
  mapped_value none shape id inv = invariant_value (look_up inv id) shape id inv

  -- The value of an operand, and `invariantsMap` after the call.
  unfoldable pub lookup_mapped_value : Mapping V → ℕ → List ℕ → Mapping V → V × Mapping V
  unfolding mapped_value invariant_value
  lookup_mapped_value m id shape inv = mapped_value (look_up m id) shape id inv

  unfoldable pub operand_values : Mapping V → List ℕ → List ℕ → Mapping V → List V × Mapping V
  operand_values m [] shape inv = ([], inv)
  operand_values m (id ∷ ids) shape inv =
      let (v, inv') = lookup_mapped_value m id shape inv in
      let (vs, inv'') = operand_values m ids shape inv' in (v ∷ vs, inv'')

  -- The loop over the block's operations; none is the llvm_unreachable after it.
  unfoldable pub clone_operations :
      List BlockOp → Mapping V → List ℕ → Mapping V → Option (List V × Mapping V)
  clone_operations [] m shape inv = none
  clone_operations (returns ids ∷ ops) m shape inv =
      Option.map (λ res. (res, inv)) (look_up_all m ids)
  clone_operations (operation name ids results ∷ ops) m shape inv =
      let (vs, inv') = operand_values m ids shape inv in
      clone_operations ops (map_results results (d.create name vs (length results) shape) m) shape
        inv'

  front_shape : List V → List ℕ
  front_shape [] = []
  front_shape (v ∷ vs) = d.shape v

  unfoldable pub accumulate : Block → List V → List V → Mapping V → Option (List V × Mapping V)
  unfolding front_shape
  accumulate block inputs [] inv = some (inputs, inv)
  accumulate block inputs (a ∷ acc) inv =
      map_arguments (length (a ∷ acc)) 0 block.arguments (a ∷ acc) inputs [] >>= λ m.
      clone_operations block.operations m (front_shape inputs) inv
