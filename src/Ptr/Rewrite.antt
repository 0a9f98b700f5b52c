-- ===== src/Ptr/Rewrite.antt =====
-- lib/Analysis/PtrAnalysis.cpp, rewriteAddptrOp: the state of a tt.addptr, which later arithmetic
-- reads, and the casts that replace the operation.
use spine_triton.Prelude.{
  ℕ, ◌^◌, wrap, length, ◌==◌, ◌&&◌, Option, none, some, List, [], ◌∷◌, ℤ, pos, ◌*ℤ◌, eqb_ℤ,
  if◌then◌else◌,
}
use spine_triton.Ir.{Ty, shape_of, is_shaped, Value, M, pure, crash, check, ◌>>=◌, ◌>>◌}
use spine_triton.Ofr.{Ofr, value, index_attr, get_int_attr}
use spine_triton.Ptr.State.{PtrState, required, has_modulo, get_rank}
use spine_triton.Ptr.Casts.{
  ReintCast, create_cast_op, create_stacked_cast_ops, create_side_by_side_cast_ops,
}
use spine_triton.Ptr.Visit.{Context}
use spine_triton.Ptr.Operand.{visit_addptr, visit_operand}

-- The value of the ptr.wraparound_type attribute, where two casts are combined.
pub data Rewritten : Type 0 where
  single : ReintCast → Rewritten
  side_by_side stacked : List ReintCast → Rewritten

-- A scalar pointer gets one axis of one element.
unfoldable pub complete_scalar : PtrState → M PtrState
complete_scalar s =
    if length s.sizes == 0
    then (do
      v ← required s.scalar
      pure (record s {
        offsets = value v ∷ s.offsets;
        sizes = index_attr (pos 1) ∷ [];
        strides = index_attr (pos 0) ∷ s.strides;
        modulos = none ∷ s.modulos;
      }))
    else pure s

unit_stride : Ofr → ℤ → ℤ → Ofr
unit_stride stride n lower = elim (get_int_attr stride) [
  | none ↦ stride
  | some z ↦ if eqb_ℤ n (pos 1) && eqb_ℤ z (pos 0) then index_attr lower else stride
]

-- The product of the sizes is an int of 32 bits. From the last axis on: the strides, with the product of the sizes in place of the stride 0 of an
-- axis of one element, and the product of the sizes.
unfoldable pub fill_strides : List Ofr → List Ofr → M (List Ofr × ℤ)
unfolding unit_stride
fill_strides (stride ∷ ss) (size ∷ ns) = do
  rest ← fill_strides ss ns
  n ← required (get_int_attr size)
  pure (unit_stride stride n rest.1 ∷ rest.0, wrap (2 ^ 31) (rest.1 *ℤ n))
fill_strides [] (size ∷ ns) = crash
fill_strides ss [] = pure (ss, pos 1)

unfoldable pub create_casts : PtrState → List ℕ → List (Option Value) → M Rewritten
create_casts s shape (none ∷ some _ ∷ []) = do
  casts ← create_side_by_side_cast_ops s shape
  pure (side_by_side casts)
create_casts s shape (some _ ∷ none ∷ []) = do
  casts ← create_stacked_cast_ops s shape
  pure (stacked casts)
create_casts s shape ms =
    if has_modulo s then crash else (create_cast_op s shape >>= λ cast. pure (single cast))

-- A scalar pointer becomes a memref of one axis.
result_shape : Ty → PtrState → M (List ℕ)
result_shape ty s =
    if is_shaped ty
    then pure (shape_of ty)
    else (do rank ← get_rank s; check (rank == 1); pure (1 ∷ []))

-- The state that is stored in knownPtrs for the result, and what replaces the operation.
unfoldable pub rewrite_addptr_op : Context → Ty → Value → Value → M (PtrState × Rewritten)
unfolding result_shape
rewrite_addptr_op c ty ptr offset = do
  visited ← visit_addptr (visit_operand c ptr) (visit_operand c offset)
  s ← complete_scalar visited
  shape ← result_shape ty s
  filled ← fill_strides s.strides s.sizes
  made ← create_casts (record s { strides = filled.0 }) shape s.modulos
  pure (s, made)
