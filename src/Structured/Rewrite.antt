-- ===== src/Structured/Rewrite.antt =====
-- lib/AnalysisStructured/PtrAnalysis.cpp: the tts operations that are made of a state, and the
-- rewriting of tt.addptr.
use spine_triton.Prelude.{
  ℕ, ◌*◌, length, set, get_elem?, ltb, ◌==◌, Bool, true, false, not, Option, none, some, List, [],
  ◌∷◌, ℤ, if◌then◌else◌,
}
use spine_triton.Ir.{
  Ty, tensor, index_ty, element_of, shape_of, is_shaped, is_index_ty, Value, type_of, reshape,
  Outcome, ok, failed, fault, M, pure, crash, check, ◌>>=◌, ◌>>◌, create, create_constant,
  create_index_cast,
}
use spine_triton.Ofr.{Ofr, attr, value, int_attr, other_attr, get_int_attr}
use spine_triton.Structured.State.{
  PtrState, required, get_rank, is_structured, get_non_structured_dim,
}
use spine_triton.Structured.Product.{merge_unstructured_state}
use spine_triton.Structured.Visit.{Context, visit_addptr}
use spine_triton.Structured.Operand.{visit_operand}

-- tts.make_tptr, by its operands.
pub record MakeTensorPtr : Type 0 where
  pub base : Option Value
  pub static_sizes : List ℤ
  pub strides : List Ofr
  pub offsets : List Ofr
  pub original_offsets : List Value
  pub shape : List Ofr
  pub order : List ℕ

pub record MakeGatherScatter : Type 0 where
  pub base : Option Value
  pub gather_offset : Value
  pub gather_dim : ℕ
  pub static_sizes : List ℤ
  pub strides : List Ofr
  pub offsets : List Ofr

unfoldable pub static_sizes_of : List Ofr → M (List ℤ)
static_sizes_of [] = pure []
static_sizes_of (s ∷ ss) = do
  z ← required (get_int_attr s)
  rest ← static_sizes_of ss
  pure (z ∷ rest)

-- The original offset as an index value; an attribute that is no integer is left out.
unfoldable pub index_offset : Ofr → M (Option Value)
index_offset (value v) =
    if is_index_ty (type_of v)
    then pure (some v)
    else (create_index_cast index_ty v >>= λ c. pure (some c))
index_offset (attr (int_attr z)) = create_constant z >>= λ c. pure (some c)
index_offset (attr other_attr) = pure none

abbrev pub push : Option Value → List Value → List Value
push none vs = vs
push (some v) vs = v ∷ vs

unfoldable pub index_offsets : List Ofr → M (List Value)
unfolding index_offset
index_offsets [] = pure []
index_offsets (o ∷ os) = do v ← index_offset o; rest ← index_offsets os; pure (push v rest)

unfoldable pub create_tts_make_tensor_ptr_op : PtrState → List Ofr → M MakeTensorPtr
unfolding static_sizes_of index_offsets get_rank
create_tts_make_tensor_ptr_op s origi_offsets = do
  get_rank s
  sizes ← static_sizes_of s.sizes
  originals ← index_offsets origi_offsets
  pure (record {
    base = s.source;
    static_sizes = sizes;
    strides = s.strides;
    offsets = s.offsets;
    original_offsets = originals;
    shape = s.shape;
    order = s.order;
  })

abbrev pub value_of : Ofr → M Value
value_of (value v) = pure v
value_of (attr a) = crash

-- The number of elements, an int.
abbrev elements : List ℕ → ℕ
elements [] = 1
elements (n ∷ ns) = n * elements ns

-- tensor.collapse_shape to one dimension
unfoldable pub collapse_offset : Value → M Value
collapse_offset v =
    check (is_shaped (type_of v))
    >> (if ltb 1 (length (shape_of (type_of v)))
        then create
            (λ i. reshape i (tensor (elements (shape_of (type_of v)) ∷ []) (element_of v)) v)
        else pure v)

-- The operation, and the state with the collapsed offset.
unfoldable pub create_tts_make_gather_scatter_op : PtrState → M (MakeGatherScatter × PtrState)
unfolding static_sizes_of collapse_offset get_rank
create_tts_make_gather_scatter_op s = do
  get_rank s
  sizes ← static_sizes_of s.sizes
  dim ← get_non_structured_dim s
  offset ← required (get_elem? s.offsets dim)
  v ← value_of offset
  w ← collapse_offset v
  let offsets = set s.offsets dim (value w)
  pure (
    record {
      base = s.source;
      gather_offset = w;
      gather_dim = dim;
      static_sizes = sizes;
      strides = s.strides;
      offsets = offsets;
    },
    record s { offsets = offsets },
  )

-- What rewriteAddptrOp leaves in knownPtrs and ptrMap for the result: a tts operation, the result
-- itself for a scalar pointer, or, where it fails after it has recorded the state, no entry in ptrMap.
pub data AddptrResult : Type 0 where
  tensor_ptr : PtrState → MakeTensorPtr → AddptrResult
  gather_scatter_ptr : PtrState → MakeGatherScatter → AddptrResult
  scalar_ptr : PtrState → AddptrResult
  unmapped : PtrState → AddptrResult

-- A call that may fail, and what is done then.
abbrev pub or_unmapped : PtrState → Outcome AddptrResult → ℕ → Outcome AddptrResult
or_unmapped s (ok a k) n = ok a k
or_unmapped s failed n = ok (unmapped s) n
or_unmapped s fault n = fault

-- The second analysis, unstructured, and the merge of its gather dimension.
unfoldable pub gather_state : Context → Value → Value → PtrState → M AddptrResult
unfolding create_tts_make_gather_scatter_op
gather_state cx ptr offset s = do
  let again = record cx { is_analysing_unstructured = true }
  u ← visit_addptr again (visit_operand again ptr) (visit_operand again offset)
  t ← merge_unstructured_state s u
  made ← create_tts_make_gather_scatter_op t
  pure (gather_scatter_ptr made.1 made.0)

abbrev pub is_ranked_tensor : Ty → Bool
is_ranked_tensor (tensor shape e) = true
is_ranked_tensor _ = false

unfoldable pub rewrite_tensor_addptr : Context → Value → Value → PtrState → M AddptrResult
unfolding gather_state create_tts_make_tensor_ptr_op
rewrite_tensor_addptr cx ptr offset s =
    if is_structured s
    then (create_tts_make_tensor_ptr_op s s.origi_offsets >>= λ op. pure (tensor_ptr s op))
    else (if not cx.enable_gather_scatter
        then pure (unmapped s)
        else (get_rank s >>= λ rank.
            if rank == 1
            then pure (unmapped s)
            else (λ n. or_unmapped s (gather_state cx ptr offset s n) n)))

unfoldable pub rewrite_addptr_op : Context → Value → Value → M AddptrResult
unfolding rewrite_tensor_addptr
rewrite_addptr_op cx ptr offset = do
  s ← visit_addptr cx (visit_operand cx ptr) (visit_operand cx offset)
  (if is_ranked_tensor (type_of ptr)
      then rewrite_tensor_addptr cx ptr offset s
      else pure (scalar_ptr s))
