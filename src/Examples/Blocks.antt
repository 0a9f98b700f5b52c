-- ===== src/Examples/Blocks.antt =====
-- lib/AnalysisStructured/PtrAnalysis.cpp at a block pointer of 16 by 32 elements and at one of 8
-- elements whose stride is an argument, in a run where every argument is 13.
use spine_triton.Prelude.{
  ℕ, suc, none, some, [], ◌∷◌, pos, ◌≡◌, refl, arith, Congruent-of_eq, ◌*ℤ◌, wrap,
}
use spine_triton.Ir.{
  Value, scalar, integer, pointer, index_ty, block_arg, Interp, Env, interp_of, run, Returns, pure,
  ◌>>=◌,
}
use spine_triton.Ofr.{value, index_attr}
use spine_triton.Structured.State.{PtrState}
use spine_triton.Structured.Rewrite.{create_tts_make_tensor_ptr_op}
use spine_triton.Structured.Blocks.{
  TensorPtrOp, visit_make_tensor_ptr, rewrite_advance_op, rewrite_make_tensor_ptr_op,
  collect_offsets,
}
use spine_triton.Structured.Blocks.Positions.{moved}
use spine_triton.Structured.Blocks.Sound.{IsBlock, IsMade, Keeps, rewrite_advance_op-Block}
use spine_triton.Structured.Blocks.Makes.{
  IsMadeFrom, visit_make_tensor_ptr-IsBlock, shared_base_offsets,
}

abbrev thirteens : Env
thirteens i idx = pos 13

abbrev run13 : Interp
run13 = interp_of thirteens

abbrev argument : ℕ → Value
argument i = block_arg i (scalar (integer 64))

abbrev matrix : ℕ → TensorPtrOp
matrix i = record {
  base = block_arg 0 (scalar pointer);
  pointee = 16 ∷ 32 ∷ [];
  shape = argument 1 ∷ argument 2 ∷ [];
  strides = argument 3 ∷ argument 4 ∷ [];
  offsets = argument i ∷ argument (suc i) ∷ [];
  order = 1 ∷ 0 ∷ [];
}

visit_make_tensor_ptr-IsBlock_example :
    Returns (λ s m. IsMadeFrom run13 (matrix 5) s) (visit_make_tensor_ptr (matrix 5) 7)
visit_make_tensor_ptr-IsBlock_example =
    visit_make_tensor_ptr-IsBlock run13 (matrix 5) 7 refl refl refl refl

shared_base_offsets_example :
    rewrite_make_tensor_ptr_op (collect_offsets (λ v. []) (matrix 5 ∷ matrix 7 ∷ [])) (matrix 5) 9
    ≡ (visit_make_tensor_ptr (matrix 5) >>= λ s.
          create_tts_make_tensor_ptr_op s (value (argument 7) ∷ value (argument 8) ∷ []) >>= λ op.
          pure (s, op))
        9
shared_base_offsets_example = shared_base_offsets (λ v. []) (matrix 5) (matrix 7) 9 refl

-- At position 3, the offset is 3 times the stride, 13.
abbrev row : PtrState
row = record {
  offsets = index_attr (pos 39) ∷ [];
  origi_offsets = index_attr (pos 3) ∷ [];
  sizes = index_attr (pos 8) ∷ [];
  strides = value (block_arg 4 index_ty) ∷ [];
  shape = value (block_arg 1 index_ty) ∷ [];
  order = 0 ∷ [];
  source = some (block_arg 0 (scalar pointer));
  scalar = none;
}

row-IsBlock : IsBlock run13 (pos 3 ∷ []) (8 ∷ []) row
unfolding interp_of run wrap ◌*ℤ◌
row-IsBlock = record {
  is_block = refl;
  sizes = refl;
  sizes_rank = refl;
  shape_rank = refl;
  dims = (
    record {
      offset_index = omega arith;
      origi_index = omega arith;
      stride_index = refl;
      at_position = Congruent-of_eq refl;
      at_offset = Congruent-of_eq refl;
    },
    tt,
  );
}

rewrite_advance_op-Block_example :
    Returns
      (λ r j.
        IsBlock run13 (moved run13 (pos 3 ∷ []) (argument 5 ∷ [])) (8 ∷ []) r.0
        × Keeps row r.0
        × IsMade run13 (moved run13 (pos 3 ∷ []) (argument 5 ∷ [])) (8 ∷ []) r.0 r.1)
      (rewrite_advance_op (pure row) (argument 5 ∷ []) 6)
rewrite_advance_op-Block_example =
    rewrite_advance_op-Block run13 (pos 3 ∷ []) (8 ∷ []) row (pure row) (argument 5 ∷ []) 6 6 refl
      row-IsBlock refl
