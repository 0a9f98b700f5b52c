-- ===== src/Examples/Masks.antt =====
-- lib/Analysis/MaskAnalysis.cpp at a concrete mask: arange(0, 8) < splat(n), with n = 7.
use spine_triton.Prelude.{List, ℕ, suc, zero, [], ◌∷◌, pos, wrap, ◌≡◌, refl, arith}
use spine_triton.Ir.{
  Value, scalar, tensor, integer, i1, block_arg, constant, splat, make_range, cmpi, slt, binary,
  andi, dense_splat, Interp, Env, interp_of, Returns,
}
use spine_triton.Ofr.{Ofr, index_attr}
use spine_triton.Mask.State.{dims_only}
use spine_triton.Mask.Parse.{parse}
use spine_triton.Mask.Meaning.{IsMasked}
use spine_triton.Mask.Supported.{Uniform, splatted, Ranged, arange, Masked, bounded, both, OneWide}
use spine_triton.Mask.Sound.{parse-Masked_sound}
use spine_triton.Mask.Limits.{unit_range_unmasked, Keeps, and_false_unmasked}

abbrev sevens : Env
sevens i idx = pos 7

abbrev run7 : Interp
run7 = interp_of sevens

abbrev bound : Value
bound = splat 1 (tensor (8 ∷ []) (integer 32)) (block_arg 0 (scalar (integer 32)))

abbrev columns : Value
columns = make_range 2 0 8 8

abbrev mask : Value
mask = cmpi 3 slt columns bound

bound-Uniform : Uniform run7 bound
unfolding interp_of wrap
bound-Uniform =
    splatted 1 (8 ∷ []) 32 (block_arg 0 (scalar (integer 32))) refl (omega arith) refl (omega arith)

columns-Ranged : Ranged run7 columns
columns-Ranged = arange 2 0 8 8 (omega arith) refl (omega arith)

one_axis : OneWide (8 ∷ []) 0
one_axis zero m e ne = absurd (omega arith)
one_axis (suc i) m e ne = cc

mask-Masked : Masked run7 mask
mask-Masked =
    bounded 3 0 (8 ∷ []) (integer 32) columns bound columns-Ranged bound-Uniform refl (omega arith)
      one_axis

twice-Masked : Masked run7 (binary 4 andi mask mask)
twice-Masked = both 4 (8 ∷ []) mask mask mask-Masked mask-Masked refl refl

parse-Masked_sound_example :
    Returns (λ s m. IsMasked run7 (binary 4 andi mask mask) s) (parse (binary 4 andi mask mask) 5)
parse-Masked_sound_example = parse-Masked_sound run7 5 twice-Masked

-- arange(9, 10) < splat(7): false, and its size stays 1.
abbrev one_bound : Value
one_bound = splat 1 (tensor (1 ∷ []) (integer 32)) (block_arg 0 (scalar (integer 32)))

one_bound-Uniform : Uniform run7 one_bound
unfolding interp_of wrap
one_bound-Uniform =
    splatted 1 (1 ∷ []) 32 (block_arg 0 (scalar (integer 32))) refl (omega arith) refl (omega arith)

unit_range_unmasked_example :
    Returns
      (λ st m. st ≡ dims_only (index_attr (pos 1) ∷ []))
      (parse (cmpi 3 slt (make_range 2 9 10 1) one_bound) 4)
    × (run7.value (cmpi 3 slt (make_range 2 9 10 1) one_bound) (0 ∷ []) ≡ pos 0)
unfolding interp_of wrap
unit_range_unmasked_example =
    unit_range_unmasked run7 3 2 9 4 one_bound one_bound-Uniform (omega arith) (omega arith)

and_false_unmasked_example :
    Returns
      (λ t m. (e : Ofr) × (t ≡ dims_only (e ∷ [])) × Keeps run7 mask 8 e)
      (parse (binary 6 andi mask (constant 5 (tensor (8 ∷ []) i1) (dense_splat (pos 0)))) 7)
    × ((idx : List ℕ)
        → run7.value
            (binary 6 andi mask (constant 5 (tensor (8 ∷ []) i1) (dense_splat (pos 0))))
            idx
          ≡ pos 0)
and_false_unmasked_example = and_false_unmasked run7 6 5 7 8 mask mask-Masked refl (omega arith)
