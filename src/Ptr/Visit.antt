-- ===== src/Ptr/Visit.antt =====
-- lib/Analysis/PtrAnalysis.cpp: the visitors of operands, one function for each, and the rewriting of
-- a tt.addptr.
use spine_triton.Prelude.{
  ℕ, zero, suc, ◌+◌, ◌-◌, ◌/◌, ◌%◌, ◌^◌, length, get_elem?, set, replicate, leb, ◌==◌, Bool, true,
  false, not, ◌&&◌, ◌||◌, Option, none, some, List, [], ◌∷◌, ◌++◌, map, pos, eqb_ℤ, if◌then◌else◌,
}
use spine_triton.Ir.{
  Ty, tensor, memref, shape_of, is_shaped, is_integer_ty, is_pointer_ty, Value, M, pure, crash,
  check, ◌>>=◌, ◌>>◌,
}
use spine_triton.Ofr.{Ofr, value, index_attr, get_int_attr}
use spine_triton.Ptr.State.{
  PtrState, required, get_rank, has_modulo, add_state, sub_state, mul_state,
}
use spine_triton.Ptr.Casts.{ReintCast}

-- What the conversion framework and the caller give: the values that replace pointers
-- (getRemappedValue), those that a memref.reinterpret_cast defines, and knownPtrs.
pub record Context : Type 0 where
  pub remapped : Value → Option Value
  pub remapped_cast : Value → Option ReintCast
  pub known_ptrs : Value → Option PtrState

abbrev pub scalar_state : Value → PtrState
scalar_state v = record {
  offsets = [];
  sizes = [];
  strides = [];
  modulos = [];
  source = none;
  scalar = some v;
}

abbrev pub source_state : Value → PtrState
source_state v = record {
  offsets = [];
  sizes = [];
  strides = [];
  modulos = [];
  source = some v;
  scalar = none;
}

abbrev pub zeros : ℕ → List Ofr
zeros n = replicate n (index_attr (pos 0))

abbrev pub extents : List ℕ → List Ofr
extents shape = map (λ n. index_attr (pos n)) shape

unfoldable pub visit_add : M PtrState → M PtrState → M PtrState
visit_add lhs rhs = do
  l ← lhs
  r ← rhs
  rank_l ← get_rank l
  rank_r ← get_rank r
  check (not ((rank_l == 1) && has_modulo l || (rank_r == 1) && has_modulo r))
  add_state l r

unfoldable pub visit_sub : M PtrState → M PtrState → M PtrState
visit_sub lhs rhs = do l ← lhs; r ← rhs; sub_state l r

unfoldable pub visit_mul : M PtrState → M PtrState → M PtrState
visit_mul lhs rhs = do l ← lhs; r ← rhs; mul_state l r

-- The modulos after a modulo of a tensor of that shape, for a state of that rank.
unfoldable pub apply_modulo : ℕ → List ℕ → Value → List (Option Value) → M (List (Option Value))
apply_modulo (suc zero) shape m ms = pure (some m ∷ [])
apply_modulo (suc (suc zero)) (a ∷ b ∷ shape) m (m0 ∷ m1 ∷ ms) =
    if a == 1 then pure (m0 ∷ some m ∷ ms) else (if b == 1 then pure (some m ∷ m1 ∷ ms) else crash)
apply_modulo _ _ _ _ = crash

abbrev pub is_tensor : Ty → Bool
is_tensor (tensor _ _) = true
is_tensor _ = false

unfoldable pub visit_rem : Ty → M PtrState → M PtrState → M PtrState
unfolding apply_modulo
visit_rem result lhs rhs = do
  r ← rhs
  m ← required r.scalar
  s ← lhs
  check (not (has_modulo s))
  rank ← get_rank s
  check ((rank == 1) || is_tensor result)
  ms ← apply_modulo rank (shape_of result) m s.modulos
  pure (record s { modulos = ms })

-- `end - start` is of uint32_t, and the division of int64_t.
unfoldable pub visit_make_range : ℕ → ℕ → ℕ → M PtrState
visit_make_range start end n = do
  check ((((end + 2 ^ 32 - start) % 2 ^ 32 + n - 1) / n) == 1)
  pure (record {
    offsets = index_attr (pos start) ∷ [];
    sizes = index_attr (pos n) ∷ [];
    strides = index_attr (pos 1) ∷ [];
    modulos = none ∷ [];
    source = none;
    scalar = none;
  })

module _ {ℓ} {A : Type ℓ} where
  -- An insertion behind the end is out of bounds.
  unfoldable pub insert_axis : ℕ → A → List A → M (List A)
  insert_axis zero d ds = pure (d ∷ ds)
  insert_axis (suc k) d [] = crash
  insert_axis (suc k) d (e ∷ ds) = do rest ← insert_axis k d ds; pure (e ∷ rest)

unfoldable pub visit_expand_dims : Ty → ℕ → M PtrState → M PtrState
visit_expand_dims dst axis src = do
  s ← src
  extent ← required (get_elem? (shape_of dst) axis)
  check (extent == 1)
  offsets ← insert_axis axis (index_attr (pos 0)) s.offsets
  sizes ← insert_axis axis (index_attr (pos 1)) s.sizes
  strides ← insert_axis axis (index_attr (pos 0)) s.strides
  modulos ← insert_axis axis none s.modulos
  pure (record {
    offsets = offsets;
    sizes = sizes;
    strides = strides;
    modulos = modulos;
    source = s.source;
    scalar = s.scalar;
  })

unfoldable pub broadcast_sizes : List ℕ → List ℕ → List Ofr → M (List Ofr)
broadcast_sizes (m ∷ ms) (n ∷ ns) (d ∷ ds) = do
  check (leb m n)
  rest ← broadcast_sizes ms ns ds
  pure ((if m == n then d else index_attr (pos n)) ∷ rest)
broadcast_sizes (m ∷ ms) (n ∷ ns) [] = do check (m == n); broadcast_sizes ms ns []
broadcast_sizes (m ∷ ms) [] ds = crash
broadcast_sizes [] ns ds = pure ds

unfoldable pub visit_broadcast : Ty → Ty → M PtrState → M PtrState
unfolding broadcast_sizes
visit_broadcast src dst parsed = do
  check (is_shaped src)
  check (length (shape_of src) == length (shape_of dst))
  s ← parsed
  sizes ← broadcast_sizes (shape_of src) (shape_of dst) s.sizes
  pure (record s { sizes = sizes })

unfoldable pub is_unit : Ofr → Bool
is_unit o = elim (get_int_attr o) [ none ↦ false | some z ↦ eqb_ℤ z (pos 1) ]

-- The axes of a splat: appended for a scalar source; for a memref of one element, whose state has one
-- axis, that axis takes the first extent.
unfoldable pub splat_axes : Ty → List ℕ → PtrState → M PtrState
unfolding is_unit
splat_axes (memref (suc zero ∷ []) e) shape s = do
  rank ← get_rank s
  check (rank == 1)
  size ← required (get_elem? s.sizes 0)
  check (is_unit size)
  pure (record {
    offsets = s.offsets ++ zeros (length shape - 1);
    sizes = if length shape == 0 then s.sizes else extents shape;
    strides = zeros 1 ++ zeros (length shape - 1);
    modulos = s.modulos ++ replicate (length shape - 1) none;
    source = s.source;
    scalar = s.scalar;
  })
splat_axes ty shape s = do
  check (is_integer_ty ty || is_pointer_ty ty)
  pure (record {
    offsets = s.offsets ++ zeros (length shape);
    sizes = s.sizes ++ extents shape;
    strides = s.strides ++ zeros (length shape);
    modulos = s.modulos ++ replicate (length shape) none;
    source = s.source;
    scalar = s.scalar;
  })

-- offsets[0] = scalar
unfoldable pub offset_by_scalar : Option Value → PtrState → M PtrState
offset_by_scalar none s = pure s
offset_by_scalar (some v) s = do
  check (not (length s.offsets == 0))
  pure (record s { offsets = set s.offsets 0 (value v) })

unfoldable pub visit_splat : Ty → Ty → M PtrState → M PtrState
unfolding splat_axes offset_by_scalar
visit_splat src dst parsed = do
  s ← parsed
  t ← splat_axes src (shape_of dst) s
  offset_by_scalar t.scalar t
