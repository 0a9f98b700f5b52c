-- ===== src/Structured/Visit/Tensors.antt =====
-- lib/AnalysisStructured/PtrAnalysis.cpp: the visitors of remainders and of the operations that make
-- and shape tensors.
use spine_triton.Prelude.{
  ℕ, zero, suc, ◌+◌, ◌-◌, ◌/◌, ◌%◌, ◌^◌, length, get_elem?, set, ltb, ◌==◌, Bool, false, not, ◌&&◌,
  ◌||◌, Option, none, some, List, [], ◌∷◌, ◌++◌, map, pos, if◌then◌else◌,
}
use spine_triton.Ir.{
  Ty, tensor, memref, element_type, shape_of, is_shaped, is_integer, is_integer_ty, is_index_ty,
  is_pointer_ty, pointer, element_eq, ConstAttr, integer_attr, dense_splat, dense_other, Value,
  type_of, ok, M, pure, fail, crash, check, ◌>>=◌, ◌>>◌, create_constant,
}
use spine_triton.Ofr.{Ofr, value, index_attr}
use spine_triton.Ptr.Visit.{insert_axis, broadcast_sizes, zeros, extents}
use spine_triton.Structured.State.{
  PtrState, empty_state, has_value, required, both, get_rank, is_structured, has_modulo,
  get_non_structured_dim, rebuild_as_unsupported_op, rebuild_as_gather_scatter,
}
use spine_triton.Structured.Sum.{add_state}
use spine_triton.Structured.Visit.Arithmetic.{
  Context, or_failing, gather_scatter, with_origins, check_mode, source_state,
}

-- The modulo of a dimension: gathered if that succeeds, else the extent of the shape.
unfoldable pub modulo_dim : Context → PtrState → Value → Value → ℕ → M PtrState
unfolding gather_scatter
modulo_dim cx s v m dim n =
    or_failing ((gather_scatter cx s v (pure dim) >>= λ t. pure (with_origins t)) n)
      (ok (with_origins (record s { shape = set s.shape dim (value m) })) n)

unfoldable pub modulo_two_dims : Context → PtrState → Value → Value → Ty → M PtrState
unfolding modulo_dim
modulo_two_dims cx s v m (tensor (a ∷ b ∷ shape) e) =
    if a == 1 then modulo_dim cx s v m 1 else (if b == 1 then modulo_dim cx s v m 0 else fail)
modulo_two_dims cx s v m _ = crash

unfoldable pub apply_modulo : Context → PtrState → Value → Value → M PtrState
unfolding modulo_dim modulo_two_dims
apply_modulo cx s v m = do
  rank ← get_rank s
  (if rank == 1
      then modulo_dim cx s v m 0
      else (if rank == 2 then modulo_two_dims cx s v m (type_of v) else fail))

-- The left operand's state, once the modulo's scalar is known.
unfoldable pub rem_of : Context → Value → Option Value → M PtrState → M PtrState
unfolding apply_modulo gather_scatter
rem_of cx v none lhs = fail
rem_of cx v (some m) lhs = do
  s ← lhs
  (if not (is_structured s)
      then (get_non_structured_dim s >>= λ dim. rebuild_as_gather_scatter s v dim)
      else (has_modulo s >>= λ again.
          if again
          then (get_rank s >>= λ rank. if rank == 1 then gather_scatter cx s v (pure 0) else fail)
          else apply_modulo cx s v m))

unfoldable pub visit_rem : Context → Value → M PtrState → M PtrState → M PtrState
unfolding rem_of
visit_rem cx v lhs rhs =
    if cx.is_analysing_unstructured
    then check cx.enable_gather_scatter >> rebuild_as_unsupported_op empty_state v
    else (rhs >>= λ r. rem_of cx v r.scalar lhs)

abbrev pub range_state : ℕ → ℕ → PtrState
range_state start n = record empty_state {
  offsets = index_attr (pos start) ∷ [];
  origi_offsets = index_attr (pos start) ∷ [];
  sizes = index_attr (pos n) ∷ [];
  strides = index_attr (pos 1) ∷ [];
  shape = index_attr (pos 0) ∷ [];
}

-- `end - start` is of uint32_t, and the division of int64_t.
unfoldable pub visit_make_range : ℕ → ℕ → ℕ → M PtrState
visit_make_range start end n = do
  check ((((end + 2 ^ 32 - start) % 2 ^ 32 + n - 1) / n) == 1)
  pure (range_state start n)

-- hasModulo() && getRank() > 2 is a failure.
unfoldable pub at_most_two_with_modulo : PtrState → M PtrState
at_most_two_with_modulo s =
    both (has_modulo s) (get_rank s >>= λ rank. pure (ltb 2 rank)) >>= λ bad.
    if bad then fail else pure s

unfoldable pub visit_expand_dims : Ty → ℕ → M PtrState → M PtrState
unfolding at_most_two_with_modulo
visit_expand_dims dst axis src = do
  s ← src
  extent ← required (get_elem? (shape_of dst) axis)
  check (extent == 1)
  offsets ← insert_axis axis (index_attr (pos 0)) s.offsets
  sizes ← insert_axis axis (index_attr (pos 1)) s.sizes
  strides ← insert_axis axis (index_attr (pos 0)) s.strides
  shape ← insert_axis axis (index_attr (pos 0)) s.shape
  at_most_two_with_modulo (record s {
    offsets = offsets;
    origi_offsets = offsets;
    sizes = sizes;
    strides = strides;
    shape = shape;
  })

unfoldable pub visit_broadcast : Ty → Ty → M PtrState → M PtrState
visit_broadcast src dst parsed = if not (is_shaped src) then fail else (do
  check (length (shape_of src) == length (shape_of dst))
  s ← parsed
  sizes ← broadcast_sizes (shape_of src) (shape_of dst) s.sizes
  pure (record s { sizes = sizes; origi_offsets = s.offsets }))

-- offsets[0] = scalar
unfoldable pub first_offset : Option Value → List Ofr → M (List Ofr)
first_offset none os = pure os
first_offset (some v) [] = crash
first_offset (some v) (o ∷ os) = pure (value v ∷ os)

unfoldable pub visit_splat : Ty → Ty → M PtrState → M PtrState
unfolding first_offset at_most_two_with_modulo
visit_splat src dst parsed = do
  s ← parsed
  (if is_integer_ty src || is_index_ty src || is_pointer_ty src
      then (do
        let more = zeros (length (shape_of dst))
        offsets ← first_offset s.scalar (s.offsets ++ more)
        t ← at_most_two_with_modulo (record s {
          offsets = offsets;
          sizes = s.sizes ++ extents (shape_of dst);
          strides = s.strides ++ more;
          shape = s.shape ++ more;
        })
        pure (with_origins t))
      else fail)

unfoldable pub visit_addptr : Context → M PtrState → M PtrState → M PtrState
visit_addptr cx ptr offset = do
  p ← ptr
  o ← offset
  check (has_value p.source)
  rank ← get_rank p
  rank_o ← get_rank o
  check (rank == rank_o)
  check_mode cx
  s ← add_state cx.is_analysing_unstructured p o
  pure (record s { origi_offsets = p.offsets })

-- The offsets of a splat constant: its value in the first dimension.
abbrev pub const_offsets : Value → List ℕ → List Ofr
const_offsets v [] = []
const_offsets v (n ∷ ns) = value v ∷ zeros (length ns)

abbrev pub const_state : Value → List ℕ → PtrState
const_state v shape = record empty_state {
  offsets = const_offsets v shape;
  origi_offsets = const_offsets v shape;
  sizes = extents shape;
  strides = zeros (length shape);
  shape = zeros (length shape);
  scalar = some v;
}

unfoldable pub visit_const_splat : Ty → ConstAttr → M PtrState
visit_const_splat ty (dense_splat z) = do
  check (is_integer (element_type ty))
  v ← create_constant z
  check (is_shaped ty)
  pure (const_state v (shape_of ty))
visit_const_splat ty (integer_attr z) = crash
visit_const_splat ty dense_other = crash

abbrev pub is_pointer_like : Ty → Bool
is_pointer_like (memref shape e) = false
is_pointer_like ty = element_eq (element_type ty) pointer

unfoldable pub visit_bitcast : Value → Ty → Ty → M PtrState → M PtrState
visit_bitcast v src result parsed =
    if is_pointer_like src && is_pointer_like result
    then parsed
    else (if is_shaped result then parsed else pure (source_state v))

abbrev countdown : ℕ → List ℕ
countdown zero = []
countdown (suc n) = n ∷ countdown n

unfoldable pub visit_alloc : Value → List ℕ → PtrState
visit_alloc v dims = record empty_state {
  offsets = zeros (length dims);
  origi_offsets = zeros (length dims);
  sizes = extents dims;
  strides = map (λ n. index_attr (pos 1)) dims;
  shape = zeros (length dims);
  order = countdown (length dims);
  source = some v;
}
