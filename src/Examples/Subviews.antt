-- ===== src/Examples/Subviews.antt =====
-- lib/Analysis/MaskAnalysis.cpp: the subviews of two blocks, for a mask of 4 by 6 elements.
use spine_triton.Prelude.{[], ◌∷◌, pos, wrap, ◌≡◌, refl, arith}
use spine_triton.Ir.{Value, memref, floating, block_arg, dim, Interp, Env, interp_of, Returns}
use spine_triton.Ofr.{Ofr, index_attr}
use spine_triton.Mask.State.{MaskState, dims_only}
use spine_triton.Mask.Subviews.{
  get_side_by_side_subviews, get_stacked_subviews, corner, IsSplit, side_by_side_subviews_lem,
  stacked_subviews_lem,
}

abbrev threes : Env
threes i idx = pos 3

abbrev run3 : Interp
run3 = interp_of threes

abbrev first_block : Value
first_block = block_arg 0 (memref (4 ∷ 8 ∷ []) floating)

abbrev second_block : Value
second_block = block_arg 1 (memref (4 ∷ 8 ∷ []) floating)

abbrev four_by_six : MaskState
four_by_six = dims_only (index_attr (pos 4) ∷ index_attr (pos 6) ∷ [])

side_by_side_subviews_lem_example :
    Returns
      (λ r m.
        (a : Ofr) × (b : Ofr) × (r.0 ≡ corner first_block (index_attr (pos 4)) a)
        × (r.1 ≡ corner second_block (index_attr (pos 4)) b)
        × IsSplit run3 (run3.value (dim 2 first_block 1) []) (index_attr (pos 6)) a b)
      (get_side_by_side_subviews four_by_six first_block second_block 2)
unfolding interp_of wrap
side_by_side_subviews_lem_example =
    side_by_side_subviews_lem run3 four_by_six first_block second_block (index_attr (pos 4))
      (index_attr (pos 6)) 2 refl (omega arith) (omega arith) (omega arith)

stacked_subviews_lem_example :
    Returns
      (λ r m.
        (a : Ofr) × (b : Ofr) × (r.0 ≡ corner first_block a (index_attr (pos 6)))
        × (r.1 ≡ corner second_block b (index_attr (pos 6)))
        × IsSplit run3 (run3.value (dim 2 first_block 0) []) (index_attr (pos 4)) a b)
      (get_stacked_subviews four_by_six first_block second_block 2)
unfolding interp_of wrap
stacked_subviews_lem_example =
    stacked_subviews_lem run3 four_by_six first_block second_block (index_attr (pos 4))
      (index_attr (pos 6)) 2 refl (omega arith) (omega arith) (omega arith)
