-- ===== src/Structured/Product.antt =====
-- PtrState::mulState and mergeUnstructuredState: lib/AnalysisStructured/PtrAnalysis.cpp.
use spine_triton.Prelude.{
  get_elem?, set, ◌==◌, Bool, not, ◌&&◌, ◌||◌, Option, none, some, List, [], ◌∷◌, pos,
  if◌then◌else◌,
}
use spine_triton.Ir.{Value, muli, create_binary, M, pure, fail, check, ◌>>=◌, ◌>>◌}
use spine_triton.Ofr.{Ofr, value, index_attr, get_int_attr, mul_ofrs}
use spine_triton.Structured.State.{
  PtrState, has_value, required, get_rank, is_not_structured, is_structured, is_block_ptr, wraps,
  has_modulo, get_non_structured_dim,
}

-- The offset, the stride and the shape of a dimension, times the scalar. `no_modulo` is the assertion
-- on the whole state, `not_wrapping` that on the dimension.
unfoldable pub mul_dim :
    Bool → M (Unit {0}) → M (Unit {0}) → Ofr → Ofr → Ofr → Ofr → M (Ofr × Ofr × Ofr)
mul_dim analysing not_wrapping no_modulo k o s extent =
    if not (is_not_structured o)
    then (do
      offset ← mul_ofrs o k
      stride ← mul_ofrs s k
      shape ← mul_ofrs extent k
      pure (offset, stride, shape))
    else not_wrapping
      >> (if analysing
          then (no_modulo >> mul_ofrs s k >>= λ stride. pure (o, stride, index_attr (pos 0)))
          else pure (o, s, index_attr (pos 0)))

-- assert(!lhs->dimHasModulo(i)), which in turn asserts that the state is no block pointer.
abbrev pub dim_not_wrapping : Bool → Ofr → M (Unit {0})
dim_not_wrapping block extent = check (not block) >> check (not (wraps (get_int_attr extent)))

unfoldable pub mul_dims :
    Bool
    → Bool
    → M (Unit {0})
    → Ofr
    → List Ofr
    → List Ofr
    → List Ofr
    → M (List Ofr × List Ofr × List Ofr)
mul_dims analysing block no_modulo k (o ∷ os) (s ∷ ss) (e ∷ es) = do
  d ← mul_dim analysing (dim_not_wrapping block e) no_modulo k o s e
  rest ← mul_dims analysing block no_modulo k os ss es
  pure (d.0 ∷ rest.0, d.1 ∷ rest.1, d.2 ∷ rest.2)
mul_dims analysing block no_modulo k _ _ _ = pure ([], [], [])

unfoldable pub mul_scalars : Option Value → Option Value → M (Option Value)
mul_scalars (some a) (some b) = do v ← create_binary muli a b; pure (some v)
mul_scalars _ _ = pure none

-- The tensor times the factor, which is the scalar of `r`.
unfoldable pub scale_state : Bool → Option Value → PtrState → PtrState → Value → M PtrState
unfolding mul_dims mul_dim
scale_state analysing scalar l r k = do
  dims ←
      mul_dims analysing (is_block_ptr l) (has_modulo l >>= λ m. check (not m)) (value k) l.offsets
        l.strides l.shape
  m ← has_modulo r
  (if m
      then fail
      else pure (record {
        offsets = dims.0;
        origi_offsets = [];
        sizes = l.sizes;
        strides = dims.1;
        shape = dims.2;
        order = [];
        source = none;
        scalar = scalar;
      }))

unfoldable pub mul_by_scalars :
    Bool → Option Value → Option Value → PtrState → PtrState → M PtrState
unfolding scale_state mul_scalars
mul_by_scalars analysing none none l r = fail
mul_by_scalars analysing (some a) none l r = scale_state analysing none r l a
mul_by_scalars analysing none (some b) l r = scale_state analysing none l r b
mul_by_scalars analysing (some a) (some b) l r =
    mul_scalars (some a) (some b) >>= λ scalar. scale_state analysing scalar l r b

unfoldable pub mul_state : Bool → PtrState → PtrState → M PtrState
unfolding get_rank mul_by_scalars
mul_state analysing l r = do
  rank ← get_rank l
  rank_r ← get_rank r
  check (rank == rank_r)
  (if has_value l.source && has_value r.source
      then fail
      else mul_by_scalars analysing l.scalar r.scalar l r)

unfoldable pub merge_unstructured_state : PtrState → PtrState → M PtrState
unfolding get_rank
merge_unstructured_state s other = if is_structured s || is_structured other then fail else (do
  dim ← get_non_structured_dim other
  mine ← get_non_structured_dim s
  rank ← get_rank s
  rank_o ← get_rank other
  (if not (dim == mine) || not (rank == rank_o) then fail else (do
    o ← required (get_elem? other.offsets dim)
    t ← required (get_elem? other.strides dim)
    e ← required (get_elem? other.shape dim)
    pure (record s {
      offsets = set s.offsets dim o;
      strides = set s.strides dim t;
      shape = set s.shape dim e;
    }))))
