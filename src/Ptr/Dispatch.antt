-- ===== src/Ptr/Dispatch.antt =====
-- The dispatch of visitOperand: known states, integers, pointers and tensors.
use mathlib.Core.Path.{subst}
use spine_triton.Prelude.{
  ℕ, Bool, true, false, none, Option-cases, List, [], ◌∷◌, pos, ◌+ℤ◌, ◌≡◌, refl, sym, ◌∙◌, inl, inr,
  Congruent, Congruent-of_eq, Congruent-trans, Congruent-sym, wrap64, wrap64-Congruent, zero-+ℤ,
  +ℤ-zero,
}
use spine_triton.Ir.{
  Value, Ty, ElementType, integer, pointer, scalar, tensor, type_of, shape_of, crash, Interp,
  Returns, M, block_arg, loop_arg, constant, index_cast, binary, addi, subi, muli, remsi, addptr,
  make_range, splat, broadcast, expand_dims, make_tensor_ptr, index_ty, constant_attr,
}
use spine_triton.Mask.Coordinates.{InBounds}
use spine_triton.Ptr.State.{PtrState, has_value}
use spine_triton.Ptr.Visit.{Context, scalar_state, source_state}
use spine_triton.Ptr.Operand.{visit_operand, dispatch, visit_integer}
use spine_triton.Ptr.Supported.{Describes, Affine, KnownDescribes}
use spine_triton.Ptr.Operands.{no_some}

-- A base pointer.
pub base-Describes :
    (I : Interp) (v b : Value)
    → I.value v [] ≡ I.value b []
    → Describes I [] true false v (source_state b)
base-Describes I v b h = record {
  well = record {
    offsets_index = tt;
    strides_index = tt;
    offsets_rank = refl;
    sizes_rank = refl;
    strides_rank = refl;
    modulos_rank = refl;
  };
  sizes_lem = refl;
  plain = refl;
  source_lem = refl;
  scalar_lem = refl;
  index = tt;
  address = at;
  same = λ q ex idx b. absurd (no_some q ex);
  flat = λ idx. Congruent-of_eq refl;
}
  where
    at : (idx : List ℕ) → InBounds [] idx → Congruent (I.value v idx) (I.value b [] +ℤ pos 0)
    at [] k = Congruent-of_eq (h ∙ sym (+ℤ-zero _))
    at (i ∷ idx) k = absurd k

module _ (I : Interp) (c : Context) (known : KnownDescribes I c) where
  abbrev pub Visited : Bool → Bool → Value → PtrState → ℕ → Type 0
  Visited p u v s m = Describes I (shape_of (type_of v)) p u v s

  pub integer-Describes :
      (v k : Value)
      → type_of k ≡ index_ty
      → constant_attr k ≡ none
      → Congruent (I.value v []) (I.value k [])
      → Describes I [] false true v (scalar_state k)
  integer-Describes v k t e h = record {
    well = record {
      offsets_index = tt;
      strides_index = tt;
      offsets_rank = refl;
      sizes_rank = refl;
      strides_rank = refl;
      modulos_rank = refl;
    };
    sizes_lem = refl;
    plain = refl;
    source_lem = refl;
    scalar_lem = refl;
    index = (t, rw e tt);
    address = at;
    same = λ q ex idx b.
        let found : k ≡ q = cc in
        subst (λ x. Congruent (I.value v idx) (pos 0 +ℤ I.value x [])) found (at idx b);
    flat = λ idx. Congruent-of_eq refl;
  }
    where
      at : (idx : List ℕ) → InBounds [] idx → Congruent (I.value v idx) (pos 0 +ℤ I.value k [])
      at [] b = Congruent-trans h (Congruent-of_eq (sym (zero-+ℤ _)))
      at (i ∷ idx) b = absurd b

  -- The state of an integer.
  integer_lem :
      (v : Value) (w n : ℕ)
      → type_of v ≡ scalar (integer w)
      → Returns (Visited false true v) (visit_integer v n)
  unfolding visit_integer wrap64
  integer_lem v w n t =
      subst (λ ty. Describes I (shape_of ty) false true v (scalar_state (index_cast n index_ty v)))
        (sym t)
        (integer-Describes v (index_cast n index_ty v) refl refl (
          Congruent-sym (
            Congruent-trans (Congruent-of_eq (I.index_cast_lem n index_ty v []))
              (wrap64-Congruent (I.value v [])))))

  -- A known state, or the state that the other branches return.
  module _ (v : Value) (p u : Bool) (as_pointer by_operation : M PtrState) (n : ℕ)
      (a : Affine I c p u v) where
    shaped :
        (ty : Ty)
        → type_of v ≡ ty
        → (result : M PtrState) → Returns (λ s m. Describes I (shape_of ty) p u v s) (result n)
        → Returns (Visited p u v) (result n)
    shaped ty t result h =
        subst (λ y. Returns (λ s m. Describes I (shape_of y) p u v s) (result n)) (sym t) h

    dispatch_integer :
        (w : ℕ)
        → type_of v ≡ scalar (integer w)
        → Returns (Visited p u v) (visit_integer v n)
        → Returns (Visited p u v) (dispatch c v as_pointer by_operation n)
    unfolding dispatch
    dispatch_integer w t h = elim (Option-cases (c.known_ptrs v)) [
      | inl e ↦ rw (e, t) h
      | inr (s, e) ↦ rw e (known v p u s e a)
    ]

    pub dispatch_tensor :
        (shape : List ℕ) (e : ElementType)
        → type_of v ≡ tensor shape e
        → Returns (λ s m. Describes I shape p u v s) (by_operation n)
        → Returns (Visited p u v) (dispatch c v as_pointer by_operation n)
    unfolding dispatch
    dispatch_tensor shape e t h = elim (Option-cases (c.known_ptrs v)) [
      | inl k ↦ rw (k, t) (shaped (tensor shape e) t by_operation h)
      | inr (s, k) ↦ rw k (known v p u s k a)
    ]

    pub dispatch_pointer :
        type_of v ≡ scalar pointer
        → has_value (c.remapped v) ≡ true
        → Returns (λ s m. Describes I [] p u v s) (as_pointer n)
        → Returns (Visited p u v) (dispatch c v as_pointer by_operation n)
    unfolding dispatch
    dispatch_pointer t r h = elim (Option-cases (c.known_ptrs v)) [
      | inl k ↦ rw (k, t, r) (shaped (scalar pointer) t as_pointer h)
      | inr (s, k) ↦ rw k (known v p u s k a)
    ]

  pub visit_integer_lem :
      (v : Value) (w n : ℕ)
      → type_of v ≡ scalar (integer w)
      → Affine I c false true v
      → Returns (Visited false true v) (visit_operand c v n)
  unfolding visit_operand
  visit_integer_lem (constant i t a) w n h d =
      dispatch_integer _ _ _ _ _ n d w h (integer_lem _ w n h)
  visit_integer_lem (make_range i s e k) w n h d = cc
  visit_integer_lem (binary i addi l r) w n h d =
      dispatch_integer _ _ _ _ _ n d w h (integer_lem _ w n h)
  visit_integer_lem (binary i subi l r) w n h d =
      dispatch_integer _ _ _ _ _ n d w h (integer_lem _ w n h)
  visit_integer_lem (binary i muli l r) w n h d =
      dispatch_integer _ _ _ _ _ n d w h (integer_lem _ w n h)
  visit_integer_lem (binary i remsi l r) w n h d =
      dispatch_integer _ _ _ _ _ n d w h (integer_lem _ w n h)
  visit_integer_lem (binary i addptr l r) w n h d =
      dispatch_integer _ _ _ _ _ n d w h (integer_lem _ w n h)
  visit_integer_lem (binary i op l r) w n h d =
      dispatch_integer _ _ _ _ _ n d w h (integer_lem _ w n h)
  visit_integer_lem (broadcast i t x) w n h d =
      dispatch_integer _ _ _ _ _ n d w h (integer_lem _ w n h)
  visit_integer_lem (splat i t x) w n h d = dispatch_integer _ _ _ _ _ n d w h (integer_lem _ w n h)
  visit_integer_lem (expand_dims i t a x) w n h d =
      dispatch_integer _ _ _ _ _ n d w h (integer_lem _ w n h)
  visit_integer_lem (make_tensor_ptr i t) w n h d =
      dispatch_integer _ _ _ _ _ n d w h (integer_lem _ w n h)
  visit_integer_lem (block_arg i t) w n h d =
      dispatch_integer _ _ _ _ _ n d w h (integer_lem _ w n h)
  visit_integer_lem (loop_arg i t b x y) w n h d =
      dispatch_integer _ _ _ _ _ n d w h (integer_lem _ w n h)
  visit_integer_lem v w n h d =
      dispatch_integer v false true crash crash n d w h (integer_lem v w n h)
