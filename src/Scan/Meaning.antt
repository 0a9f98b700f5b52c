-- ===== src/Scan/Meaning.antt =====
-- What the vector operations and the combine region compute on elements. MLIR defines the vector
-- dialect, not this repository: its documented meaning is a record of laws.
use spine_triton.Prelude.{
  ℕ, ◌*◌, ◌/◌, ◌%◌, ◌<◌, Bool, if◌then◌else◌, List, [], ◌∷◌, ◌++◌, Option, none, some, map, length,
  get_elem?, All, ◌≡◌, ◌≢◌,
}
use spine_triton.Scan.Region.{
  BlockOp, returns, operation, Block, Dialect, Mapping, ◌>>=◌, look_up, look_up_all, map_arguments,
  map_results,
}

pub record Meaning {V : Type 0} (d : Dialect V) (E : Type 0) : Type 0 where
  pub lane : V → List ℕ → E
  -- what an operation computes on elements
  pub scalar : ℕ → List E → ℕ → List E
  -- a value from outside the region
  pub outer : ℕ → E
  pub create_shapes :
      (name : ℕ) (vs : List V) (n : ℕ) (s : List ℕ)
      → All (λ v. d.shape v ≡ s) (d.create name vs n s)
  pub create_lanes :
      (name : ℕ) (vs : List V) (n : ℕ) (s : List ℕ)
      → All (λ v. d.shape v ≡ s) vs
      → (idx : List ℕ)
      → map (λ v. lane v idx) (d.create name vs n s) ≡ scalar name (map (λ v. lane v idx) vs) n
  pub broadcast_shape : (s : List ℕ) (id : ℕ) → d.shape (d.broadcast s id) ≡ s
  pub broadcast_lane : (s : List ℕ) (id : ℕ) (idx : List ℕ) → lane (d.broadcast s id) idx ≡ outer id
  pub zeros_shape : (s : List ℕ) → d.shape (d.zeros s) ≡ s
  pub shuffle_shape : (a b : V) (mask : List ℕ) → d.shape (d.shuffle a b mask) ≡ length mask ∷ []
  -- an index below the first operand's size reads the first operand
  pub shuffle_lane :
      (a b : V) (mask : List ℕ) (n k j : ℕ)
      → d.shape a ≡ n ∷ []
      → get_elem? mask k ≡ some j
      → j < n
      → lane (d.shuffle a b mask) (k ∷ []) ≡ lane a (j ∷ [])
  pub select_shape : (mask : List Bool) (a b : V) → d.shape (d.select mask a b) ≡ d.shape b
  pub select_lane :
      (mask : List Bool) (a b : V) (k : ℕ) (c : Bool)
      → get_elem? mask k ≡ some c
      → lane (d.select mask a b) (k ∷ []) ≡ (if c then lane a (k ∷ []) else lane b (k ∷ []))
  -- as many extents as there are indices go
  pub extract_shape :
      (v : V) (at extents rest : List ℕ)
      → length at ≡ length extents
      → d.shape v ≡ extents ++ rest
      → d.shape (d.extract v at) ≡ rest
  pub extract_lane : (v : V) (at idx : List ℕ) → lane (d.extract v at) idx ≡ lane v (at ++ idx)
  pub insert_shape : (x v : V) (at : List ℕ) → d.shape (d.insert x v at) ≡ d.shape v
  pub insert_lane : (x v : V) (at idx : List ℕ) → lane (d.insert x v at) (at ++ idx) ≡ lane x idx
  pub insert_other :
      (x v : V) (at other idx : List ℕ)
      → length at ≡ length other
      → at ≢ other
      → lane (d.insert x v at) (other ++ idx) ≡ lane v (other ++ idx)

-- The indices of a shape.
abbrev pub Within : List ℕ → List ℕ → Type 0
Within [] [] = Unit
Within (k ∷ idx) (n ∷ s) = k < n × Within idx s
Within _ _ = ⊥

abbrev pub product : List ℕ → ℕ
product [] = 1
product (n ∷ s) = n * product s

-- How many elements apart two neighbours of each dimension are.
abbrev pub row_major : List ℕ → List ℕ
row_major [] = []
row_major (n ∷ s) = product s ∷ row_major s

abbrev pub coordinates : ℕ → List ℕ → List ℕ
coordinates j [] = []
coordinates j (n ∷ strides) = j / n ∷ coordinates (j % n) strides

-- The documented results of getNumElements, computeStrides and delinearize.
pub record Indexing {V : Type 0} (d : Dialect V) : Type 0 where
  pub num_elements_lem : (v : V) → d.num_elements v ≡ product (d.shape v)
  pub compute_strides_lem : (s : List ℕ) → d.compute_strides s ≡ row_major s
  pub delinearize_lem : (j : ℕ) (strides : List ℕ) → d.delinearize j strides ≡ coordinates j strides

-- The region on elements: the same mapping of arguments, and the meaning of each operation.
module _ {V E : Type 0} {d : Dialect V} (m : Meaning d E) where
  abbrev pub value_or : E → Option E → E
  value_or other none = other
  value_or other (some e) = e

  unfoldable pub operand_elements : Mapping E → List ℕ → List E
  operand_elements env [] = []
  operand_elements env (id ∷ ids) =
      value_or (m.outer id) (look_up env id) ∷ operand_elements env ids

  unfoldable pub evaluate : List BlockOp → Mapping E → Option (List E)
  evaluate [] env = none
  evaluate (returns ids ∷ ops) env = look_up_all env ids
  evaluate (operation name ids results ∷ ops) env =
      evaluate ops
        (map_results results (m.scalar name (operand_elements env ids) (length results)) env)

  -- What the region makes of an accumulator and an input.
  unfoldable pub combine : Block → List E → List E → Option (List E)
  combine block acc inputs =
      map_arguments (length acc) 0 block.arguments acc inputs [] >>= evaluate block.operations

  -- The tuple of elements at an index.
  abbrev pub lanes : List ℕ → List V → List E
  lanes idx vs = map (λ v. m.lane v idx) vs
