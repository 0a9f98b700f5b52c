-- ===== src/Ptr/Casts.antt =====
-- lib/Analysis/PtrAnalysis.cpp: the memref.reinterpret_cast operations that a pointer state becomes.
-- A cast is the record of its operands and its type; none of the functions reads it back.
use spine_triton.Prelude.{ℕ, length, ◌==◌, Option, none, some, List, [], ◌∷◌, map, replicate, ℤ}
use spine_triton.Ir.{
  Value, index_ty, remsi, muli, addi, subi, divsi, minsi, M, pure, crash, check, ◌>>=◌, ◌>>◌,
  create_binary, create_index_cast,
}
use spine_triton.Ofr.{Ofr, value, get_int_attr, ofr_to_index_value, ofrs_to_index_values}
use spine_triton.Ptr.State.{PtrState, required, get_rank, accumulate_target_offset}

-- A strided memref type: `none` is ShapedType::kDynamic.
pub record CastType : Type 0 where
  pub shape : List (Option ℕ)
  pub offset : Option ℤ
  pub strides : List (Option ℤ)

pub record ReintCast : Type 0 where
  pub result_type : CastType
  pub base : Value
  pub offsets : List Ofr
  pub sizes : List Ofr
  pub strides : List Ofr

abbrev pub dynamic_type : PtrState → List (Option ℕ) → CastType
dynamic_type s shape = record {
  shape = shape;
  offset = none;
  strides = replicate (length s.strides) none;
}

abbrev pub static_type : PtrState → Option ℤ → List ℕ → CastType
static_type s offset shape = record {
  shape = map some shape;
  offset = offset;
  strides = map get_int_attr s.strides;
}

abbrev pub cast_of : CastType → Value → Value → List Value → List Value → ReintCast
cast_of ty base offset sizes strides = record {
  result_type = ty;
  base = base;
  offsets = value offset ∷ [];
  sizes = map value sizes;
  strides = map value strides;
}

module _ {ℓ} {A : Type ℓ} where
  -- The two elements of an array of rank 2.
  abbrev pub two : List A → M (A × A)
  two (a ∷ b ∷ []) = pure (a, b)
  two _ = crash

-- assert(modulos[0].has_value() && !modulos[1].has_value()), and the value.
abbrev pub row_modulo : List (Option Value) → M Value
row_modulo (some m ∷ none ∷ []) = pure m
row_modulo _ = crash

abbrev pub column_modulo : List (Option Value) → M Value
column_modulo (none ∷ some m ∷ []) = pure m
column_modulo _ = crash

unfoldable pub target_of : PtrState → M Value
target_of s = do total ← accumulate_target_offset s; ofr_to_index_value total

-- Where the rows wrap around: the rows left below the target, and the offset that the others start at.
unfoldable pub stacked_split : Value → Value → Value → Value → M ((Value × Value) × Value)
stacked_split target row_size stride_row modulo = do
  mod_row ← create_index_cast index_ty modulo
  wrapped ← create_binary remsi target stride_row
  bottom ← create_binary muli mod_row stride_row
  clamped ← create_binary addi bottom wrapped
  diff ← create_binary subi clamped target
  d1 ← create_binary divsi diff stride_row
  d2 ← create_binary subi row_size d1
  pure ((d1, d2), wrapped)

unfoldable pub create_stacked_cast_ops : PtrState → List ℕ → M (List ReintCast)
unfolding stacked_split target_of
create_stacked_cast_ops s shape = do
  extents ← two shape
  rank ← get_rank s
  check (rank == 2)
  modulo ← row_modulo s.modulos
  target ← target_of s
  sizes ← two s.sizes
  row_size ← ofr_to_index_value sizes.0
  col_size ← ofr_to_index_value sizes.1
  strides ← two s.strides
  stride_row ← ofr_to_index_value strides.0
  stride_col ← ofr_to_index_value strides.1
  split ← stacked_split target row_size stride_row modulo
  base ← required s.source
  (let ty = dynamic_type s (none ∷ some extents.1 ∷ []) in
      let steps = stride_row ∷ stride_col ∷ [] in
      pure (
        cast_of ty base target (split.0.0 ∷ col_size ∷ []) steps
        ∷ cast_of ty base split.1 (split.0.1 ∷ col_size ∷ []) steps
        ∷ []))

-- Where the columns wrap around: the columns left beside the target, and the start of its row.
-- The values of the strides are created in between.
unfoldable pub side_by_side_split :
    Value → Value → Value → M (List Value) → M (((Value × Value) × Value) × List Value)
side_by_side_split target col_size modulo strides = do
  mod_n ← create_index_cast index_ty modulo
  x ← create_binary remsi target mod_n
  y ← create_binary subi target x
  steps ← strides
  next_offset ← create_binary addi x col_size
  clamped_offset ← create_binary minsi next_offset mod_n
  d1 ← create_binary subi clamped_offset x
  d2 ← create_binary subi col_size d1
  pure (((d1, d2), y), steps)

unfoldable pub create_side_by_side_cast_ops : PtrState → List ℕ → M (List ReintCast)
unfolding side_by_side_split target_of
create_side_by_side_cast_ops s shape = do
  extents ← two shape
  rank ← get_rank s
  check (rank == 2)
  modulo ← column_modulo s.modulos
  target ← target_of s
  sizes ← two s.sizes
  row_size ← ofr_to_index_value sizes.0
  col_size ← ofr_to_index_value sizes.1
  made ← side_by_side_split target col_size modulo (ofrs_to_index_values s.strides)
  base ← required s.source
  (let ty = dynamic_type s (some extents.0 ∷ none ∷ []) in
      pure (
        cast_of ty base target (row_size ∷ made.0.0.0 ∷ []) made.1
        ∷ cast_of ty base made.0.1 (row_size ∷ made.0.0.1 ∷ []) made.1
        ∷ []))

unfoldable pub create_cast_op : PtrState → List ℕ → M ReintCast
create_cast_op s shape = do
  target ← accumulate_target_offset s
  base ← required s.source
  pure (record {
    result_type = static_type s (get_int_attr target) shape;
    base = base;
    offsets = target ∷ [];
    sizes = s.sizes;
    strides = s.strides;
  })
