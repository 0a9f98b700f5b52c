-- ===== src/Ptr/Operand.antt =====
-- lib/Analysis/PtrAnalysis.cpp: the visitors that read the context of a conversion (pointers and
-- casts), the dispatch on the defining operation, and the rewriting of a tt.addptr.
use spine_triton.Prelude.{
  ℕ, zero, suc, ◌-◌, ◌++◌, length, replicate, ◌==◌, ◌&&◌, Option, none, some, List, [], ◌∷◌, pos,
  eqb_ℤ, if◌then◌else◌,
}
use spine_triton.Ir.{
  Ty, index_ty, shape_of, is_shaped, is_integer_ty, is_pointer_ty, is_integer, element_type, Value,
  type_of, ConstAttr, dense_splat, binary, addi, subi, muli, remsi, addptr, make_range, broadcast,
  splat, expand_dims, constant, block_arg, loop_arg, make_tensor_ptr, M, pure, crash, check, ◌>>=◌,
  ◌>>◌, create_constant, create_index_cast,
}
use spine_triton.Ofr.{Ofr, value, index_attr, get_int_attr}
use spine_triton.Ptr.State.{PtrState, has_value, required, get_rank, add_state}
use spine_triton.Ptr.Casts.{ReintCast}
use spine_triton.Ptr.Visit.{
  Context, scalar_state, source_state, zeros, extents, visit_add, visit_sub, visit_mul, visit_rem,
  visit_make_range, visit_expand_dims, visit_broadcast, visit_splat,
}

-- A state of rank 0 beside a pointer of rank 1 gets one axis of one element.
unfoldable pub align_offset : ℕ → ℕ → PtrState → M PtrState
align_offset (suc zero) zero s = do
  v ← required s.scalar
  pure (record s {
    offsets = value v ∷ [];
    sizes = index_attr (pos 1) ∷ [];
    strides = zeros 1;
    modulos = none ∷ [];
  })
align_offset _ _ s = pure s

unfoldable pub visit_addptr : M PtrState → M PtrState → M PtrState
unfolding align_offset
visit_addptr ptr offset = do
  p ← ptr
  o ← offset
  check (has_value p.source)
  rank_p ← get_rank p
  rank_o ← get_rank o
  aligned ← align_offset rank_p rank_o o
  add_state p aligned

-- The stride of an axis of one element is set back to 0, where it is an integer.
unfoldable pub reset_strides : List Ofr → List Ofr → M (List Ofr)
reset_strides (stride ∷ ss) (size ∷ ns) = do
  n ← required (get_int_attr size)
  rest ← reset_strides ss ns
  pure (
      (if eqb_ℤ n (pos 1) && has_value (get_int_attr stride) then index_attr (pos 0) else stride)
      ∷ rest)
reset_strides (stride ∷ ss) [] = crash
reset_strides [] ns = pure []

unfoldable pub visit_reint_cast : ReintCast → M PtrState
unfolding reset_strides
visit_reint_cast c = do
  check (length c.offsets == 1)
  strides ← reset_strides c.strides c.sizes
  pure (record {
    offsets = c.offsets ++ zeros (length c.sizes - 1);
    sizes = c.sizes;
    strides = strides;
    modulos = replicate (length c.sizes) none;
    source = some c.base;
    scalar = none;
  })

unfoldable pub visit_make_tensor_ptr : Option ReintCast → M PtrState
unfolding visit_reint_cast
visit_make_tensor_ptr none = crash
visit_make_tensor_ptr (some c) = visit_reint_cast c

-- The first axis takes the constant.
unfoldable pub first_offset : List ℕ → Value → List Ofr
first_offset [] v = []
first_offset (n ∷ ns) v = value v ∷ zeros (length ns)

unfoldable pub visit_const_splat : Ty → ConstAttr → M PtrState
unfolding first_offset
visit_const_splat ty (dense_splat z) = do
  check (is_integer (element_type ty))
  v ← create_constant z
  check (is_shaped ty)
  pure (record {
    offsets = first_offset (shape_of ty) v;
    sizes = extents (shape_of ty);
    strides = zeros (length (shape_of ty));
    modulos = replicate (length (shape_of ty)) none;
    source = none;
    scalar = some v;
  })
visit_const_splat ty _ = crash

unfoldable pub visit_integer : Value → M PtrState
visit_integer v = do cast ← create_index_cast index_ty v; pure (scalar_state cast)

unfoldable pub unless_known : Option PtrState → M PtrState → M PtrState
unless_known none other = other
unless_known (some s) other = pure s

-- An operand whose state is known, an integer, a pointer, or a tensor: its visit as a pointer and its
-- visit by the operation that defines it.
unfoldable pub dispatch : Context → Value → M PtrState → M PtrState → M PtrState
unfolding visit_integer unless_known
dispatch c v as_pointer by_operation = unless_known (c.known_ptrs v) (
    if is_integer_ty (type_of v)
    then visit_integer v
    else (if is_pointer_ty (type_of v)
        then check (has_value (c.remapped v)) >> as_pointer
        else by_operation))

-- A block argument.
unfoldable pub visit_base : Option Value → M PtrState
visit_base r = do base ← required r; pure (source_state base)

unfoldable pub visit_operand : Context → Value → M PtrState
unfolding dispatch visit_base
visit_operand c (binary i addi l r) =
    dispatch c (binary i addi l r) crash (visit_add (visit_operand c l) (visit_operand c r))
visit_operand c (binary i subi l r) =
    dispatch c (binary i subi l r) crash (visit_sub (visit_operand c l) (visit_operand c r))
visit_operand c (binary i muli l r) =
    dispatch c (binary i muli l r) crash (visit_mul (visit_operand c l) (visit_operand c r))
visit_operand c (binary i remsi l r) =
    dispatch c (binary i remsi l r) crash
      (visit_rem (type_of l) (visit_operand c l) (visit_operand c r))
visit_operand c (binary i addptr l r) =
    let sum = visit_addptr (visit_operand c l) (visit_operand c r) in
    dispatch c (binary i addptr l r) sum sum
visit_operand c (make_range i start end n) =
    dispatch c (make_range i start end n) crash (visit_make_range start end n)
visit_operand c (broadcast i t v) =
    dispatch c (broadcast i t v) crash (visit_broadcast (type_of v) t (visit_operand c v))
visit_operand c (splat i t v) =
    dispatch c (splat i t v) crash (visit_splat (type_of v) t (visit_operand c v))
visit_operand c (expand_dims i t axis v) =
    dispatch c (expand_dims i t axis v) crash (visit_expand_dims t axis (visit_operand c v))
visit_operand c (constant i t a) = dispatch c (constant i t a) crash (visit_const_splat t a)
visit_operand c (make_tensor_ptr i t) =
    dispatch c (make_tensor_ptr i t) (visit_make_tensor_ptr (c.remapped_cast (make_tensor_ptr i t)))
      crash
visit_operand c (block_arg i t) =
    dispatch c (block_arg i t) (visit_base (c.remapped (block_arg i t))) crash
visit_operand c (loop_arg i t nested init next) =
    dispatch c (loop_arg i t nested init next)
      (visit_base (c.remapped (loop_arg i t nested init next))) crash
visit_operand c v = dispatch c v crash crash
