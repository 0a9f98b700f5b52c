-- ===== src/Scan/Line.antt =====
-- ScanOpConversion::lower1DInput: lib/Conversion/TritonToLinalgExperimental/ConvertScanOpPass.cpp.
pub mod Indices
pub mod Rounds
pub mod Sound
use spine_triton.Prelude.{
  ℕ, zero, suc, ◌+◌, ◌-◌, ◌*◌, Bool, true, false, if◌then◌else◌, ltb, List, [], ◌∷◌, Option, none,
  some, map, set, replicate,
}
use spine_triton.Scan.Region.{Block, Dialect, Mapping, ◌>>=◌, accumulate}

-- The loop that fills shuffleIndices, forward: the rounds left and the index.
fill_forward : ℕ → ℕ → ℕ → List ℕ → List ℕ
fill_forward zero i stride indices = indices
fill_forward (suc n) i stride indices = fill_forward n (suc i) stride (set indices i (i - stride))

-- The same in reverse: it goes down to 0, so the index is one below the rounds left.
fill_reverse : ℕ → ℕ → List ℕ → List ℕ
fill_reverse zero stride indices = indices
fill_reverse (suc i) stride indices = fill_reverse i stride (set indices i (i + stride))

-- From `size - 1 - stride` down to 0, or from `stride` up to `size - 1`: `size - stride` rounds.
pub shuffle_indices : Bool → ℕ → ℕ → List ℕ
shuffle_indices reverse size stride =
    if reverse
    then fill_reverse (size - stride) stride (replicate size 0)
    else fill_forward (size - stride) stride stride (replicate size 0)

-- std::fill from an index, for a number of elements
fill_false : ℕ → ℕ → List Bool → List Bool
fill_false zero i mask = mask
fill_false (suc n) i mask = fill_false n (suc i) (set mask i false)

pub mask_values : Bool → ℕ → ℕ → List Bool
mask_values reverse size stride =
    fill_false stride (if reverse then size - stride else 0) (replicate size true)

module _ {V : Type 0} (d : Dialect V) where
  pub create_shuffle_dummies : List V → List V
  create_shuffle_dummies inputs = map (λ v. d.zeros (1 ∷ [])) inputs

  -- llvm::zip(res, dummies)
  shuffle_each : List ℕ → List V → List V → List V
  shuffle_each indices [] dummies = []
  shuffle_each indices (v ∷ vs) [] = []
  shuffle_each indices (v ∷ vs) (u ∷ us) = d.shuffle v u indices ∷ shuffle_each indices vs us

  -- The loop over `res`; a missing new value is a fault.
  select_each : List Bool → List V → List V → Option (List V)
  select_each mask news [] = some []
  select_each mask [] (r ∷ rs) = none
  select_each mask (v ∷ vs) (r ∷ rs) =
      select_each mask vs rs >>= λ rest. some (d.select mask v r ∷ rest)

  -- One round of the loop over strides.
  pub line_round : Block → Bool → ℕ → ℕ → List V → List V → Mapping V → Option (List V × Mapping V)
  line_round block reverse size stride dummies res inv =
      accumulate d block res (shuffle_each (shuffle_indices reverse size stride) res dummies) inv
      >>= λ r. select_each (mask_values reverse size stride) r.0 res >>= λ out. some (out, r.1)

  -- for (stride = 1; stride < vecSize; stride *= 2), on fuel.
  pub line_loop :
      ℕ → ℕ → Block → Bool → ℕ → List V → List V → Mapping V → Option (List V × Mapping V)
  line_loop zero stride block reverse size dummies res inv = none
  line_loop (suc fuel) stride block reverse size dummies res inv =
      let rest = line_round block reverse size stride dummies res inv >>= λ r.
      line_loop fuel (stride * 2) block reverse size dummies r.0 r.1 in
      if ltb stride size then rest else some (res, inv)

  first_extent : List ℕ → Option ℕ
  first_extent [] = none
  first_extent (n ∷ s) = some n

  vector_size : List V → Option ℕ
  vector_size [] = none
  vector_size (v ∷ vs) = first_extent (d.shape v)

  -- The stride doubles, so `size + 1` rounds suffice.
  unfoldable pub lower_1d_input : Block → Bool → List V → Mapping V → Option (List V × Mapping V)
  unfolding vector_size first_extent create_shuffle_dummies line_loop line_round shuffle_each
      select_each shuffle_indices fill_forward fill_reverse mask_values fill_false
  lower_1d_input block reverse inputs inv = vector_size inputs >>= λ size.
      line_loop (suc size) 1 block reverse size (create_shuffle_dummies inputs) inputs inv
