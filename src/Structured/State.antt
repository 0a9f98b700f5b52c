-- ===== src/Structured/State.antt =====
-- include/triton-shared/AnalysisStructured/PtrAnalysis.h, PtrState, and its predicates and
-- rebuildAs functions in lib/AnalysisStructured/PtrAnalysis.cpp.
use spine_triton.Prelude.{
  ℕ, zero, suc, length, get_elem?, set, ltb, leb, ◌==◌, Bool, true, false, not, ◌&&◌, Option, none,
  some, List, [], ◌∷◌, ◌++◌, ℤ, pos, eqb_ℤ, if◌then◌else◌, map,
}
use spine_triton.Ir.{
  Value, type_of, element_of, is_shaped, shape_of, pointer, element_eq, M, pure, fail, crash, check,
  ◌>>=◌, ◌>>◌,
}
use spine_triton.Ofr.{Ofr, attr, value, index_attr, get_int_attr}

pub record PtrState : Type 0 where
  pub offsets : List Ofr
  pub origi_offsets : List Ofr
  pub sizes : List Ofr
  pub strides : List Ofr
  pub shape : List Ofr
  pub order : List ℕ
  pub source : Option Value
  pub scalar : Option Value

abbrev pub empty_state : PtrState
empty_state = record {
  offsets = [];
  origi_offsets = [];
  sizes = [];
  strides = [];
  shape = [];
  order = [];
  source = none;
  scalar = none;
}

module _ {ℓ} {A : Type ℓ} where
  abbrev pub has_value : Option A → Bool
  has_value none = false
  has_value (some _) = true

  -- `a ? a : b` on values that may be null.
  abbrev pub or_else : Option A → Option A → Option A
  or_else none b = b
  or_else (some a) b = some a

  abbrev pub required : Option A → M A
  required none = crash
  required (some a) = pure a

-- `a && b`, where the second test is made only if the first one holds.
abbrev pub both : M Bool → M Bool → M Bool
both a b = a >>= λ x. if x then b else pure false

unfoldable pub get_rank : PtrState → M ℕ
get_rank s = do
  check (
      length s.offsets == length s.sizes
      && length s.offsets == length s.strides
      && length s.shape == length s.offsets)
  pure (length s.offsets)

abbrev pub is_block_ptr : PtrState → Bool
is_block_ptr s = not (length s.order == 0)

abbrev pub is_not_structured : Ofr → Bool
is_not_structured (attr a) = false
is_not_structured (value v) = is_shaped (type_of v)

abbrev pub is_structured_list : List Ofr → Bool
is_structured_list [] = true
is_structured_list (o ∷ os) = not (is_not_structured o) && is_structured_list os

abbrev pub is_structured : PtrState → Bool
is_structured s = is_structured_list s.offsets

abbrev pub all_not_structured : List Ofr → Bool
all_not_structured [] = true
all_not_structured (o ∷ os) = is_not_structured o && all_not_structured os

unfoldable pub no_structured_dim_exists : PtrState → M Bool
unfolding get_rank
no_structured_dim_exists s = do
  rank ← get_rank s
  pure (not (rank == 0) && all_not_structured s.offsets)

-- The shape of a dimension that does not wrap is a constant 0.
abbrev pub wraps : Option ℤ → Bool
wraps none = true
wraps (some z) = not (eqb_ℤ z (pos 0))

unfoldable pub dim_has_modulo : PtrState → ℕ → M Bool
unfolding get_rank
dim_has_modulo s dim = do
  check (not (is_block_ptr s))
  rank ← get_rank s
  check (ltb dim rank)
  extent ← required (get_elem? s.shape dim)
  pure (wraps (get_int_attr extent))

-- The loop of hasModulo, with its rounds left.
unfoldable pub any_modulo : ℕ → ℕ → PtrState → M Bool
any_modulo zero i s = pure false
any_modulo (suc n) i s =
    dim_has_modulo s i >>= λ b. let rest = any_modulo n (suc i) s in if b then pure true else rest

unfoldable pub has_modulo : PtrState → M Bool
unfolding get_rank any_modulo dim_has_modulo
has_modulo s = get_rank s >>= λ rank. any_modulo rank 0 s

unfoldable pub dim_is_structured : PtrState → ℕ → M Bool
unfolding get_rank
dim_is_structured s dim = do
  rank ← get_rank s
  check (ltb dim rank)
  o ← required (get_elem? s.offsets dim)
  pure (not (is_not_structured o))

-- The dimensions that getNonStructuredDim collects, from index `i` on.
abbrev pub non_structured_dims : ℕ → List Ofr → List ℕ
non_structured_dims i [] = []
non_structured_dims i (o ∷ os) =
    if is_not_structured o
    then i ∷ non_structured_dims (suc i) os
    else non_structured_dims (suc i) os

abbrev pub only_one : List ℕ → M ℕ
only_one (i ∷ []) = pure i
only_one _ = crash

unfoldable pub get_non_structured_dim : PtrState → M ℕ
unfolding get_rank
get_non_structured_dim s = get_rank s >> only_one (non_structured_dims 0 s.offsets)

unfoldable pub is_empty : PtrState → M Bool
unfolding get_rank
is_empty s = do
  rank ← get_rank s
  pure (rank == 0 && not (has_value s.source) && not (has_value s.scalar))

abbrev count_large : List ℕ → ℕ
count_large [] = 0
count_large (n ∷ ns) = if ltb 1 n then suc (count_large ns) else count_large ns

-- llvm::find_singleton finds the extent above 1 if there is exactly one.
unfoldable pub is_not_single_dim : Value → Bool
is_not_single_dim v = is_shaped (type_of v) && not (count_large (shape_of (type_of v)) == 1)

-- The offset and the stride of each dimension of an operand that is taken as it is.
abbrev pub unsupported_offsets : Value → List ℕ → List Ofr
unsupported_offsets v [] = []
unsupported_offsets v (n ∷ ns) =
    (if n == 1 then index_attr (pos 0) else value v) ∷ unsupported_offsets v ns

abbrev pub unsupported_strides : List ℕ → List Ofr
unsupported_strides [] = []
unsupported_strides (n ∷ ns) = index_attr (if n == 1 then pos 0 else pos 1) ∷ unsupported_strides ns

-- The state that is rebuilt, and the operand.
unfoldable pub rebuild_as_unsupported_op : PtrState → Value → M PtrState
unfolding is_not_single_dim is_empty
rebuild_as_unsupported_op s v =
    if is_not_single_dim v
    then fail
    else is_empty s >>= λ e.
        if not e
        then fail
        else check (is_shaped (type_of v))
          >> (if element_eq (element_of v) pointer
              then fail
              else pure (record s {
                offsets = s.offsets ++ unsupported_offsets v (shape_of (type_of v));
                strides = s.strides ++ unsupported_strides (shape_of (type_of v));
                sizes = s.sizes ++ map (λ n. index_attr (pos n)) (shape_of (type_of v));
                shape = s.shape ++ map (λ n. index_attr (pos 0)) (shape_of (type_of v));
              }))

unfoldable pub rebuild_as_gather_scatter : PtrState → Value → ℕ → M PtrState
unfolding is_not_single_dim get_rank
rebuild_as_gather_scatter s v dim =
    if is_not_single_dim v
    then fail
    else get_rank s >>= λ rank.
        if leb rank dim
        then fail
        else check (is_shaped (type_of v))
          >> required (get_elem? (shape_of (type_of v)) dim)
          >>= λ n.
              if leb n 1
              then fail
              else pure (record s {
                offsets = set s.offsets dim (value v);
                strides = set s.strides dim (index_attr (pos 1));
                shape = set s.shape dim (index_attr (pos 0));
              })
