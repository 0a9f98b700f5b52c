-- ===== src/Scan/Dispatch.antt =====
-- ReduceScanOpConversionBase::matchAndRewrite and the two functions that it chooses from:
-- lib/Conversion/TritonToLinalgExperimental/ConvertScanOpPass.cpp.
use spine_triton.Prelude.{
  ℕ, zero, suc, ◌+◌, ◌==◌, ltb, Bool, if◌then◌else◌, List, [], ◌∷◌, Option, none, some, map, length,
}
use spine_triton.Scan.Region.{Block, Dialect, Mapping, ◌>>=◌}
use spine_triton.Scan.Line.{lower_1d_input}
use spine_triton.Scan.Leading.{insert_each, extract_each, lower_leading_dimension, front_of}

-- What the pass reads of a tt.scan: its axis and flag, the rank of its first operand, its region,
-- and the shapes of its results.
pub record ScanOp : Type 0 where
  pub axis : ℕ
  pub reverse : Bool
  pub rank : ℕ
  pub region : Block
  pub results : List (List ℕ)

-- `unmatched` is failure(); `replaced` has the values that replace the operation.
pub data Rewrite (V : Type 0) : Type 0 where
  unmatched : Rewrite V
  replaced : List V → Mapping V → Rewrite V

unfoldable pub take : ℕ → List ℕ → List ℕ
take zero xs = []
take (suc n) [] = []
take (suc n) (x ∷ xs) = x ∷ take n xs

-- xs.back()
unfoldable pub back : List ℕ → Option ℕ
back [] = none
back (x ∷ []) = some x
back (x ∷ y ∷ xs) = back (y ∷ xs)

-- xs.pop_back()
unfoldable pub pop_back : List ℕ → List ℕ
pop_back [] = []
pop_back (x ∷ []) = []
pop_back (x ∷ y ∷ xs) = x ∷ pop_back (y ∷ xs)

module _ {V : Type 0} (d : Dialect V) where
  unfoldable pub make_empty_results : List (List ℕ) → List V
  make_empty_results shapes = map d.zeros shapes

  -- for (idx = 0; idx < numElems; idx += step), on fuel: the sub-vectors at the index are lowered,
  -- and inserted into the results.
  unfoldable pub sub_vectors :
      ℕ
      → ℕ
      → ℕ
      → ℕ
      → List ℕ
      → (List V → Mapping V → Option (List V × Mapping V))
      → List V
      → List V
      → Mapping V
      → Option (List V × Mapping V)
  sub_vectors zero idx step total strides lower inputs res inv = none
  sub_vectors (suc fuel) idx step total strides lower inputs res inv =
      let at = d.delinearize idx strides in
      let rest = lower (extract_each d inputs at) inv >>= λ r. insert_each d r.0 res at >>= λ out.
      sub_vectors fuel (idx + step) step total strides lower inputs out r.1 in
      if ltb idx total then rest else some (res, inv)

  unfoldable pub trailing_of : ScanOp → List V → V → Mapping V → Option (List V × Mapping V)
  trailing_of op inputs v inv =
      if length (d.shape v) == 1
      then lower_1d_input d op.region op.reverse inputs inv
      else back (d.shape v) >>= λ step.
          sub_vectors (suc (d.num_elements v)) 0 step (d.num_elements v)
            (pop_back (d.compute_strides (d.shape v))) (lower_1d_input d op.region op.reverse)
            inputs (make_empty_results op.results) inv

  unfoldable pub non_trailing_of : ScanOp → List V → V → Mapping V → Option (List V × Mapping V)
  non_trailing_of op inputs v inv =
      if op.axis == 0
      then lower_leading_dimension d op.region op.reverse op.results inputs inv
      else back (take op.axis (d.compute_strides (d.shape v))) >>= λ step.
          sub_vectors (suc (d.num_elements v)) 0 step (d.num_elements v)
            (take op.axis (d.compute_strides (d.shape v)))
            (lower_leading_dimension d op.region op.reverse op.results) inputs
            (make_empty_results op.results) inv

  unfoldable pub rewritten : Option (List V × Mapping V) → Option (Rewrite V)
  rewritten none = none
  rewritten (some (vs, inv)) = some (replaced vs inv)

  unfoldable pub lower_trailing_dimension :
      ScanOp → Option (List V) → Mapping V → Option (Rewrite V)
  lower_trailing_dimension op none inv = some unmatched
  lower_trailing_dimension op (some inputs) inv =
      rewritten (front_of inputs >>= λ v. trailing_of op inputs v inv)

  unfoldable pub lower_non_trailing_dimension :
      ScanOp → Option (List V) → Mapping V → Option (Rewrite V)
  lower_non_trailing_dimension op none inv = some unmatched
  lower_non_trailing_dimension op (some inputs) inv =
      rewritten (front_of inputs >>= λ v. non_trailing_of op inputs v inv)

  -- The second argument is what getRemappedValues gives; the outer none is a fault.
  unfoldable pub match_and_rewrite : ScanOp → Option (List V) → Mapping V → Option (Rewrite V)
  unfolding lower_trailing_dimension lower_non_trailing_dimension trailing_of non_trailing_of
      rewritten front_of
  match_and_rewrite op inputs inv =
      if suc op.axis == op.rank
      then lower_trailing_dimension op inputs inv
      else lower_non_trailing_dimension op inputs inv
