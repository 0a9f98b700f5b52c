-- ===== src/Structured/Ranks/Whole.antt =====
-- The lengths in visitOperand, and what the analysis is given.
use spine_triton.Prelude.{
  ℕ, ◌+◌, ◌-◌, ◌/◌, ◌%◌, ◌^◌, ◌==◌, Bool, true, false, not, Option, none, some, refl, arith,
  if◌then◌else◌,
}
use spine_triton.Ir.{
  Ty, scalar, tensor, memref, integer, index, pointer, floating, type_of, Value, binary, addi, subi,
  muli, minsi, maxsi, andi, remsi, divsi, addptr, make_range, broadcast, splat, expand_dims,
  constant, select, block_arg, loop_arg, make_tensor_ptr, ext_si, ext_ui, bitcast, cmpi, opaque,
  index_cast, trunc_i, reshape, dim, M, check, pure, fail, crash,
}
use spine_triton.Structured.State.{PtrState, empty_state}
use spine_triton.Structured.Visit.{
  Origin, int_to_ptr, if_result, alloc, view, loop_result, other_op, Context, source_state,
  check_mode, visit_bitcast, range_state, visit_make_range,
}
use spine_triton.Structured.Operand.{
  state_or, known, rewritten_or, by_type, dispatch, visit_unsupported, visit_argument,
  visit_pointer_origin, visit_origin, visit_operand,
}
use spine_triton.Structured.Ranks.{IsEven, Makes, Makes-after, Makes-if, unsupported-IsEven}
use spine_triton.Structured.Ranks.Visits.{
  empty-IsEven, visit_add-IsEven, visit_mul-IsEven, visit_sub-IsEven, visit_rem-IsEven,
  visit_addptr-IsEven,
}
use spine_triton.Structured.Ranks.Operand.{
  expand_dims-IsEven, broadcast-IsEven, splat-IsEven, const_splat-IsEven, alloc-IsEven,
}

-- A state that the analysis is given, if it is given one.
abbrev pub EvenIfAny : Option PtrState → Type 0
EvenIfAny none = Unit
EvenIfAny (some s) = IsEven s

abbrev pub EvenOrigin : Origin → Type 0
EvenOrigin (loop_result s) = EvenIfAny s
EvenOrigin _ = Unit

-- The states that the analysis has recorded, and those of loop results.
pub record KnowsEven (cx : Context) : Type 0 where
  pub known_even : (v : Value) → EvenIfAny (cx.known_ptrs v)
  pub loops_even : (v : Value) → EvenOrigin (cx.origin v)

source-IsEven : (v : Value) → IsEven (source_state v)
source-IsEven v = record { sizes_even = refl; strides_even = refl; shape_even = refl }

state_or-IsEven :
    (m : M PtrState) (o : Option PtrState) (n : ℕ)
    → EvenIfAny o
    → Makes IsEven (m n)
    → Makes IsEven (state_or m o n)
state_or-IsEven m none n e h = h
state_or-IsEven m (some s) n e h = e

by_type-IsEven :
    (t : Ty) (v : Value) (p o : M PtrState) (n : ℕ)
    → Makes IsEven (p n)
    → Makes IsEven (o n)
    → Makes IsEven (by_type t v p o n)
unfolding by_type
by_type-IsEven (scalar (integer w)) v p o n h k = record {
  sizes_even = refl;
  strides_even = refl;
  shape_even = refl;
}
by_type-IsEven (scalar index) v p o n h k = record {
  sizes_even = refl;
  strides_even = refl;
  shape_even = refl;
}
by_type-IsEven (scalar pointer) v p o n h k = h
by_type-IsEven (scalar floating) v p o n h k = k
by_type-IsEven (tensor shape e) v p o n h k = k
by_type-IsEven (memref shape e) v p o n h k = k

module _ (cx : Context) (knows : KnowsEven cx) where
  known-IsEven : (v : Value) → EvenIfAny (known cx v)
  known-IsEven v = by_mode cx.is_analysing_unstructured
    where
      by_mode : (b : Bool) → EvenIfAny (if b then none else cx.known_ptrs v)
      by_mode true = tt
      by_mode false = knows.known_even v

  dispatch-IsEven :
      (v : Value) (p o : M PtrState) (n : ℕ)
      → ((i : ℕ) → Makes IsEven (p i))
      → ((i : ℕ) → Makes IsEven (o i))
      → Makes IsEven (dispatch cx v p o n)
  unfolding dispatch
  dispatch-IsEven v p o n h k = Makes-after IsEven (check_mode cx n) _ λ _ i.
      state_or-IsEven _ (known cx v) i (known-IsEven v)
        (by_type-IsEven (type_of v) v p o i (h i) (k i))

  unsupported_visit-IsEven : (v : Value) (n : ℕ) → Makes IsEven (visit_unsupported cx v n)
  unfolding visit_unsupported
  unsupported_visit-IsEven v n =
      Makes-if IsEven (not cx.enable_gather_scatter) fail _ n tt
        (unsupported-IsEven empty_state v n empty-IsEven)

  rewritten-IsEven :
      (m : M PtrState) (o : Option Value) (n : ℕ)
      → Makes IsEven (m n)
      → Makes IsEven (rewritten_or m o n)
  rewritten-IsEven m none n h = h
  rewritten-IsEven m (some w) n h = source-IsEven w

  argument-IsEven : (t : Ty) (v : Value) (n : ℕ) → Makes IsEven (visit_argument cx t v n)
  unfolding visit_argument
  argument-IsEven (tensor s pointer) v n =
      rewritten-IsEven _ (cx.ptr_map v) n
        (state_or-IsEven fail (cx.known_ptrs v) n (knows.known_even v) tt)
  argument-IsEven (tensor s (integer w)) v n = state_or-IsEven fail _ n (knows.known_even v) tt
  argument-IsEven (tensor s index) v n = state_or-IsEven fail _ n (knows.known_even v) tt
  argument-IsEven (tensor s floating) v n = state_or-IsEven fail _ n (knows.known_even v) tt
  argument-IsEven (scalar e) v n = state_or-IsEven fail _ n (knows.known_even v) tt
  argument-IsEven (memref s e) v n = state_or-IsEven fail _ n (knows.known_even v) tt

  pointer_origin-IsEven :
      (o : Origin) (v : Value) (n : ℕ) → Makes IsEven (visit_pointer_origin o v n)
  unfolding visit_pointer_origin
  pointer_origin-IsEven int_to_ptr v n = source-IsEven v
  pointer_origin-IsEven if_result v n = source-IsEven v
  pointer_origin-IsEven (alloc dims) v n = alloc-IsEven v dims
  pointer_origin-IsEven (view true) v n = empty-IsEven
  pointer_origin-IsEven (view false) v n = tt
  pointer_origin-IsEven (loop_result s) v n = tt
  pointer_origin-IsEven other_op v n = tt

  origin-IsEven :
      (o : Origin) (v : Value) (n : ℕ) → EvenOrigin o → Makes IsEven (visit_origin o cx v n)
  unfolding visit_origin
  origin-IsEven (loop_result s) v n e = state_or-IsEven fail s n e tt
  origin-IsEven int_to_ptr v n e = unsupported_visit-IsEven v n
  origin-IsEven if_result v n e = unsupported_visit-IsEven v n
  origin-IsEven (alloc dims) v n e = unsupported_visit-IsEven v n
  origin-IsEven (view b) v n e = unsupported_visit-IsEven v n
  origin-IsEven other_op v n e = unsupported_visit-IsEven v n

  bitcast-IsEven :
      (v : Value) (src result : Ty) (parsed : M PtrState) (n : ℕ)
      → Makes IsEven (parsed n)
      → Makes IsEven (visit_bitcast v src result parsed n)
  unfolding visit_bitcast
  bitcast-IsEven v src result parsed n h = ground (arith, source-IsEven v)

  make_range-IsEven : (start end k n : ℕ) → Makes IsEven (visit_make_range start end k n)
  unfolding visit_make_range
  make_range-IsEven start end k n =
      Makes-after IsEven (check ((((end + 2 ^ 32 - start) % 2 ^ 32 + k - 1) / k) == 1) n)
        (λ _. pure (range_state start k))
        λ _ i. record { sizes_even = refl; strides_even = refl; shape_even = refl }

  -- Where the states that are known and those of loop results have one entry for each dimension, so
  -- has every state that visitOperand returns, in its offsets, sizes, strides and shape.
  pub visit_operand-IsEven : (v : Value) (n : ℕ) → Makes IsEven (visit_operand cx v n)
  unfolding visit_operand
  visit_operand-IsEven (binary i addi l r) n =
      dispatch-IsEven _ fail _ n (λ k. tt) (λ k. visit_add-IsEven cx l r _ _ k)
  visit_operand-IsEven (binary i subi l r) n =
      dispatch-IsEven _ fail _ n (λ k. tt) (λ k. visit_sub-IsEven cx _ _ k)
  visit_operand-IsEven (binary i muli l r) n =
      dispatch-IsEven _ fail _ n (λ k. tt) (λ k. visit_mul-IsEven cx l r _ _ k)
  visit_operand-IsEven (binary i remsi l r) n =
      dispatch-IsEven _ fail _ n (λ k. tt)
        (λ k. visit_rem-IsEven cx _ _ _ k (λ j. visit_operand-IsEven l j))
  visit_operand-IsEven (binary i addptr l r) n =
      dispatch-IsEven _ _ _ n (λ k. visit_addptr-IsEven cx _ _ k)
        (λ k. visit_addptr-IsEven cx _ _ k)
  visit_operand-IsEven (binary i minsi l r) n =
      dispatch-IsEven _ fail _ n (λ k. tt) (λ k. unsupported_visit-IsEven _ k)
  visit_operand-IsEven (binary i maxsi l r) n =
      dispatch-IsEven _ fail _ n (λ k. tt) (λ k. unsupported_visit-IsEven _ k)
  visit_operand-IsEven (binary i andi l r) n =
      dispatch-IsEven _ fail _ n (λ k. tt) (λ k. unsupported_visit-IsEven _ k)
  visit_operand-IsEven (binary i divsi l r) n =
      dispatch-IsEven _ fail _ n (λ k. tt) (λ k. unsupported_visit-IsEven _ k)
  visit_operand-IsEven (make_range i start end e) n =
      dispatch-IsEven _ fail _ n (λ k. tt) (λ k. make_range-IsEven start end e k)
  visit_operand-IsEven (broadcast i t v) n =
      dispatch-IsEven _ fail _ n (λ k. tt)
        (λ k. broadcast-IsEven (type_of v) t _ k (λ j. visit_operand-IsEven v j))
  visit_operand-IsEven (splat i t v) n =
      dispatch-IsEven _ fail _ n (λ k. tt)
        (λ k. splat-IsEven (type_of v) t _ k (λ j. visit_operand-IsEven v j))
  visit_operand-IsEven (expand_dims i t axis v) n =
      dispatch-IsEven _ fail _ n (λ k. tt)
        (λ k. expand_dims-IsEven t axis _ k (visit_operand-IsEven v k))
  visit_operand-IsEven (constant i t a) n =
      dispatch-IsEven _ fail _ n (λ k. tt) (λ k. const_splat-IsEven t a k)
  visit_operand-IsEven (ext_si i t v) n =
      dispatch-IsEven _ fail _ n (λ k. tt) (λ k. visit_operand-IsEven v k)
  visit_operand-IsEven (ext_ui i t v) n =
      dispatch-IsEven _ fail _ n (λ k. tt) (λ k. visit_operand-IsEven v k)
  visit_operand-IsEven (cmpi i p l r) n =
      dispatch-IsEven _ fail _ n (λ k. tt) (λ k. visit_operand-IsEven l k)
  visit_operand-IsEven (bitcast i t v) n =
      dispatch-IsEven _ _ _ n (λ k. bitcast-IsEven _ (type_of v) t _ k (visit_operand-IsEven v k))
        (λ k. unsupported_visit-IsEven _ k)
  visit_operand-IsEven (select i c t f) n =
      dispatch-IsEven _ _ _ n (λ k. source-IsEven _) (λ k. unsupported_visit-IsEven _ k)
  visit_operand-IsEven (make_tensor_ptr i t) n =
      dispatch-IsEven _ crash _ n (λ k. tt) (λ k. unsupported_visit-IsEven _ k)
  visit_operand-IsEven (block_arg i t) n =
      dispatch-IsEven _ _ _ n (λ k. source-IsEven _) (λ k. argument-IsEven t _ k)
  visit_operand-IsEven (loop_arg i t nested init next) n =
      dispatch-IsEven _ _ _ n (λ k. source-IsEven _) (λ k. argument-IsEven t _ k)
  visit_operand-IsEven (opaque i t) n =
      dispatch-IsEven _ _ _ n (λ k. pointer_origin-IsEven _ _ k)
        (λ k. origin-IsEven _ _ k (knows.loops_even _))
  visit_operand-IsEven (index_cast i t v) n =
      dispatch-IsEven _ fail _ n (λ k. tt) (λ k. unsupported_visit-IsEven _ k)
  visit_operand-IsEven (trunc_i i t v) n =
      dispatch-IsEven _ fail _ n (λ k. tt) (λ k. unsupported_visit-IsEven _ k)
  visit_operand-IsEven (reshape i t v) n =
      dispatch-IsEven _ fail _ n (λ k. tt) (λ k. unsupported_visit-IsEven _ k)
  visit_operand-IsEven (dim i v axis) n =
      dispatch-IsEven (dim i v axis) fail _ n (λ k. tt)
        (λ k. unsupported_visit-IsEven (dim i v axis) k)
