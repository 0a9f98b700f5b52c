-- ===== src/Structured/Sum.antt =====
-- PtrState::addState: lib/AnalysisStructured/PtrAnalysis.cpp. The state that the function fills in is
-- what it returns; every caller gives it an empty one.
use spine_triton.Prelude.{
  ℕ, zero, suc, length, get_elem?, leb, ◌==◌, Bool, true, false, not, ◌&&◌, ◌||◌, Option, none,
  some, List, [], ◌∷◌, pos, eqb_ℤ, if◌then◌else◌,
}
use spine_triton.Ir.{Value, addi, same_value, create_binary, M, pure, fail, check, ◌>>=◌, ◌>>◌}
use spine_triton.Ofr.{
  Ofr, attr, value, int_attr, other_attr, index_attr, has_const_zero, add_ofrs, mul_ofrs,
  expand_ofr_index,
}
use spine_triton.Structured.State.{
  PtrState, has_value, or_else, required, both, get_rank, is_not_structured, is_structured,
  dim_has_modulo, has_modulo, get_non_structured_dim,
}

-- `==` of OpFoldResults: attributes are uniqued, values are pointers.
abbrev pub ofr_eq : Ofr → Ofr → Bool
ofr_eq (attr (int_attr a)) (attr (int_attr b)) = eqb_ℤ a b
ofr_eq (attr other_attr) (attr other_attr) = true
ofr_eq (value v) (value w) = same_value v w
ofr_eq _ _ = false

unfoldable pub add_scalars : ℕ → Option Value → Option Value → M (Option Value)
add_scalars rank (some a) (some b) = do v ← create_binary addi a b; pure (some v)
add_scalars rank a b = pure (if rank == 0 then or_else a b else none)

-- Both unstructured: in one dimension.
unfoldable pub same_unstructured_dim : PtrState → PtrState → M (Unit {0})
same_unstructured_dim l r =
    if not (is_structured l) && not (is_structured r)
    then (get_non_structured_dim l >>= λ i.
        get_non_structured_dim r >>= λ j. if i == j then pure tt else fail)
    else pure tt

unfoldable pub one : Ofr
one = index_attr (pos 1)

-- A constant stride 0 becomes 1; then this side is structured and the other one is not.
unfoldable pub stride_or_one : Bool → Bool → Ofr → M Ofr
unfolding one
stride_or_one mine other s =
    has_const_zero s >>= λ z. if z then check (mine && not other) >> pure one else pure s

-- offset and stride of both sides
pub record Pair : Type 0 where
  pub left : Ofr
  pub right : Ofr
  pub left_stride : Ofr
  pub right_stride : Ofr

-- Offsets and strides that both differ: each offset is multiplied by its stride, which becomes 1.
unfoldable pub scale_both : Pair → M Pair
unfolding one
scale_both q =
    if not (ofr_eq q.left q.right) && not (ofr_eq q.left_stride q.right_stride)
    then (do
      s ← expand_ofr_index q.left_stride q.left
      l ← mul_ofrs q.left s
      t ← expand_ofr_index q.right_stride q.right
      r ← mul_ofrs q.right t
      pure (record { left = l; right = r; left_stride = one; right_stride = one }))
    else pure q

-- Equal strides: the offsets are added, the structured one expanded to the other's type.
unfoldable pub add_offsets : Bool → Pair → M (Ofr × Ofr)
add_offsets true q = do
  l ← expand_ofr_index q.left q.right
  o ← add_ofrs l q.right
  pure (o, q.left_stride)
add_offsets false q = do
  r ← expand_ofr_index q.right q.left
  o ← add_ofrs q.left r
  pure (o, q.left_stride)

unfoldable pub join_pair : Bool → Pair → M (Ofr × Ofr)
unfolding add_offsets
join_pair structured q =
    if ofr_eq q.left_stride q.right_stride then add_offsets structured q else (do
      check (ofr_eq q.left q.right)
      s ← add_ofrs q.left_stride q.right_stride
      pure (q.left, s))

unfoldable pub is_absent : Ofr → Ofr → M Bool
is_absent offset stride = both (has_const_zero stride) (has_const_zero offset)

-- A dimension in which a side is not structured, in the unstructured analysis.
unfoldable pub merge_dim : Ofr → Ofr → Ofr → Ofr → M (Ofr × Ofr)
unfolding is_absent
merge_dim o p s t = is_absent o s >>= λ no_left.
    if no_left
    then pure (p, t)
    else is_absent p t >>= λ no_right. if no_right then pure (o, s) else (do
      let left_ok = not (is_not_structured o)
      let right_ok = not (is_not_structured p)
      s' ← stride_or_one left_ok right_ok s
      t' ← stride_or_one right_ok left_ok t
      q ← scale_both (record { left = o; right = p; left_stride = s'; right_stride = t' })
      join_pair left_ok q)

-- The offset and the stride of a dimension. `no_modulo` is the assertion on both states.
unfoldable pub add_dim : Bool → M (Unit {0}) → Ofr → Ofr → Ofr → Ofr → M (Ofr × Ofr)
unfolding one
add_dim analysing no_modulo o p s t =
    if not (is_not_structured o) && not (is_not_structured p)
    then (do offset ← add_ofrs o p; stride ← add_ofrs s t; pure (offset, stride))
    else (if analysing
        then no_modulo >> merge_dim o p s t
        else pure (if is_not_structured o then o else p, one))

unfoldable pub add_dims :
    Bool → M (Unit {0}) → List Ofr → List Ofr → List Ofr → List Ofr → M (List Ofr × List Ofr)
add_dims analysing no_modulo (o ∷ os) (p ∷ ps) (s ∷ ss) (t ∷ ts) = do
  d ← add_dim analysing no_modulo o p s t
  rest ← add_dims analysing no_modulo os ps ss ts
  pure (d.0 ∷ rest.0, d.1 ∷ rest.1)
add_dims analysing no_modulo _ _ _ _ = pure ([], [])

-- assert(!lhsState.hasModulo() && !rhsState.hasModulo())
unfoldable pub assert_no_modulo : PtrState → PtrState → M (Unit {0})
assert_no_modulo l r = has_modulo l >>= λ m. check (not m) >> has_modulo r >>= λ k. check (not k)

-- lhsState.hasModulo() || rhsState.hasModulo()
unfoldable pub either_modulo : PtrState → PtrState → M Bool
either_modulo l r = has_modulo l >>= λ m. if m then pure true else has_modulo r

-- The loop over the shape, in which `l` is the side with a modulo if one has it, with the rounds left
-- and the dimension. The swap of the two extents ends it.
unfoldable pub add_shape : ℕ → ℕ → PtrState → PtrState → M (List Ofr)
add_shape zero i l r = pure []
add_shape (suc n) i l r = do
  o ← required (get_elem? l.offsets i)
  p ← required (get_elem? r.offsets i)
  extent ← required (get_elem? l.shape i)
  let later = add_shape n (suc i) l r
  (if is_not_structured o || is_not_structured p
      then (later >>= λ rest. pure (index_attr (pos 0) ∷ rest))
      else (dim_has_modulo l i >>= λ m.
          if not m
          then (later >>= λ rest. pure (extent ∷ rest))
          else (has_const_zero p >>= λ z.
              if z
              then (later >>= λ rest. pure (extent ∷ rest))
              else (if i == 0 && length l.offsets == 2 && has_value r.scalar
                  then (required (get_elem? l.shape 1) >>= λ second. pure (second ∷ extent ∷ []))
                  else fail))))

unfoldable pub add_shapes : PtrState → PtrState → ℕ → M (List Ofr)
unfolding either_modulo add_shape
add_shapes l r rank = do
  two ← both (has_modulo l) (has_modulo r)
  (if two
      then fail
      else either_modulo l r >>= λ some_modulo.
          check (not some_modulo || leb rank 2) >> has_modulo r >>= λ swap.
          if swap then add_shape rank 0 r l else add_shape rank 0 l r)

unfoldable pub add_state : Bool → PtrState → PtrState → M PtrState
unfolding get_rank add_scalars same_unstructured_dim add_dims add_dim add_shapes assert_no_modulo
add_state analysing l r = do
  rank ← get_rank l
  rank_r ← get_rank r
  check (rank == rank_r)
  (if has_value l.source && has_value r.source then fail else (do
    scalar ← add_scalars rank l.scalar r.scalar
    same_unstructured_dim l r
    dims ← add_dims analysing (assert_no_modulo l r) l.offsets r.offsets l.strides r.strides
    shape ← add_shapes l r rank
    pure (record {
      offsets = dims.0;
      origi_offsets = [];
      sizes = l.sizes;
      strides = dims.1;
      shape = shape;
      order = [];
      source = or_else l.source r.source;
      scalar = scalar;
    })))
