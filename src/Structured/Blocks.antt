-- ===== src/Structured/Blocks.antt =====
-- lib/AnalysisStructured/PtrAnalysis.cpp: block pointers, made by tt.make_tensor_ptr and moved by
-- tt.advance.
pub mod Positions
pub mod Sound
pub mod Makes
use spine_triton.Prelude.{ℕ, length, ◌==◌, none, some, List, [], ◌∷◌, pos, map, if◌then◌else◌}
use spine_triton.Ir.{
  index_ty, Value, addi, muli, M, pure, fail, crash, check, ◌>>=◌, ◌>>◌, create_constant,
  create_binary, create_index_cast, same_value,
}
use spine_triton.Ofr.{Ofr, attr, value, int_attr, other_attr, index_attr}
use spine_triton.Structured.State.{PtrState, is_block_ptr}
use spine_triton.Structured.Rewrite.{MakeTensorPtr, create_tts_make_tensor_ptr_op, value_of}

-- tt.make_tensor_ptr, by its operands; `pointee` is the shape of the pointee type.
pub record TensorPtrOp : Type 0 where
  pub base : Value
  pub pointee : List ℕ
  pub shape : List Value
  pub strides : List Value
  pub offsets : List Value
  pub order : List ℕ

-- What the loop over the dimensions pushes.
pub record Dims : Type 0 where
  pub sizes : List Ofr
  pub strides : List Ofr
  pub origi_offsets : List Ofr
  pub offsets : List Ofr
  pub shape : List Ofr

unfoldable pub block_dims : List ℕ → List Value → List Value → List Value → M Dims
block_dims [] strides offsets shape =
    pure (record { sizes = []; strides = []; origi_offsets = []; offsets = []; shape = [] })
block_dims (n ∷ ns) (s ∷ ss) (o ∷ os) (e ∷ es) = do
  stride ← create_index_cast index_ty s
  offset ← create_index_cast index_ty o
  scaled ← create_binary muli offset stride
  extent ← create_index_cast index_ty e
  rest ← block_dims ns ss os es
  pure (record {
    sizes = index_attr (pos n) ∷ rest.sizes;
    strides = value stride ∷ rest.strides;
    origi_offsets = value offset ∷ rest.origi_offsets;
    offsets = value scaled ∷ rest.offsets;
    shape = value extent ∷ rest.shape;
  })
block_dims (n ∷ ns) _ _ _ = crash

unfoldable pub visit_make_tensor_ptr : TensorPtrOp → M PtrState
unfolding block_dims
visit_make_tensor_ptr op = if length op.order == 0 then fail else (do
  d ← block_dims op.pointee op.strides op.offsets op.shape
  pure (record {
    offsets = d.offsets;
    origi_offsets = d.origi_offsets;
    sizes = d.sizes;
    strides = d.strides;
    shape = d.shape;
    order = op.order;
    source = some op.base;
    scalar = none;
  }))

-- The state for knownPtrs and the operation for ptrMap; `offset_map` is the caller's offsetMap.
unfoldable pub rewrite_make_tensor_ptr_op :
    (Value → List Ofr) → TensorPtrOp → M (PtrState × MakeTensorPtr)
unfolding visit_make_tensor_ptr
rewrite_make_tensor_ptr_op offset_map op = do
  s ← visit_make_tensor_ptr op
  made ← create_tts_make_tensor_ptr_op s (offset_map op.base)
  pure (s, made)

-- The first walk of rewriteOp, which fills offsetMap, on the tt.make_tensor_ptr operations in its order.
abbrev pub collect_offsets : (Value → List Ofr) → List TensorPtrOp → Value → List Ofr
collect_offsets found [] = found
collect_offsets found (op ∷ ops) =
    collect_offsets (λ v. if same_value v op.base then map (λ o. value o) op.offsets else found v)
      ops

-- The value of an offset: a constant for an integer attribute.
unfoldable pub constant_or_value : Ofr → M Value
constant_or_value (value v) = pure v
constant_or_value (attr (int_attr z)) = create_constant z
constant_or_value (attr other_attr) = crash

-- One dimension: the offset moves by the increment times the stride, the original offset by the
-- increment.
unfoldable pub advance_dim : Value → Ofr → Ofr → Ofr → M (Ofr × Ofr)
unfolding constant_or_value
advance_dim increment offset origi stride = do
  o ← constant_or_value offset
  cast ← create_index_cast index_ty increment
  s ← value_of stride
  step ← create_binary muli cast s
  moved ← create_binary addi step o
  g ← constant_or_value origi
  origi_moved ← create_binary addi cast g
  pure (value moved, value origi_moved)

-- llvm::zip stops at the shortest list.
unfoldable pub advance_dims : List Value → List Ofr → List Ofr → List Ofr → M (List Ofr × List Ofr)
advance_dims (i ∷ is) (o ∷ os) (g ∷ gs) (s ∷ ss) = do
  d ← advance_dim i o g s
  rest ← advance_dims is os gs ss
  pure (d.0 ∷ rest.0, d.1 ∷ rest.1)
advance_dims _ _ _ _ = pure ([], [])

-- The state of the advanced pointer. `visited` is the visit of the pointer operand.
unfoldable pub advance_state : M PtrState → List Value → M PtrState
unfolding advance_dims advance_dim
advance_state visited increments = do
  s ← visited
  check (is_block_ptr s)
  d ← advance_dims increments s.offsets s.origi_offsets s.strides
  pure (record s { offsets = d.0; origi_offsets = d.1 })

-- The state for knownPtrs and the operation for ptrMap.
unfoldable pub rewrite_advance_op : M PtrState → List Value → M (PtrState × MakeTensorPtr)
unfolding advance_state
rewrite_advance_op visited increments = do
  t ← advance_state visited increments
  made ← create_tts_make_tensor_ptr_op t t.origi_offsets
  pure (t, made)
