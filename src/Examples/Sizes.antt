-- ===== src/Examples/Sizes.antt =====
-- lib/Analysis/OpFoldResultUtils.cpp at concrete sizes.
use spine_triton.Prelude.{
  List, [], ◌∷◌, pos, negsuc, ◌+ℤ◌, ◌-ℤ◌, ◌*ℤ◌, min_ℤ, max_ℤ, wrap, All, wrap64, half64, ltb,
  if◌then◌else◌, inl, ◌≡◌, refl, arith,
}
use spine_triton.Ir.{
  Value, block_arg, constant, index_cast, binary, minsi, addi, integer_attr, index_ty, Interp, Env,
  interp_of, Returns, compare_by, slt, ult, ok,
}
use spine_triton.Ofr.{
  known_factor, mul_by, mul_shortcut, Ofr, attr, value, int_attr, index_attr, add_ofrs, sub_ofrs,
  mul_ofrs, min_ofrs, max_ofrs, compare_ofrs, same_ofr, ofr_value, Holds, IsExact, add_ofrs_sound,
  sub_ofrs_sound, mul_ofrs_sound, min_ofrs_sound, max_ofrs_sound, compare_ofrs_sound,
  compare_ofrs_ult_negative, same_ofr_sound,
}

-- Every block argument holds 7.
abbrev sevens : Env
sevens i idx = pos 7

abbrev seven_run : Interp
seven_run = interp_of sevens

abbrev size : Ofr
size = value (block_arg 0 index_ty)

abbrev three : Ofr
three = index_attr (pos 3)

add_ofrs_sound_example :
    Returns
      (λ o m. Holds seven_run o (wrap64 (ofr_value seven_run size +ℤ ofr_value seven_run three)))
      (add_ofrs size three 1)
add_ofrs_sound_example = add_ofrs_sound seven_run size three 1 (refl, tt) (omega arith)

sub_ofrs_sound_example :
    Returns
      (λ o m. Holds seven_run o (wrap64 (ofr_value seven_run three -ℤ ofr_value seven_run size)))
      (sub_ofrs three size 1)
sub_ofrs_sound_example = sub_ofrs_sound seven_run three size 1 (omega arith) (refl, tt)

mul_ofrs_sound_example :
    Returns
      (λ o m. Holds seven_run o (wrap64 (ofr_value seven_run three *ℤ ofr_value seven_run size)))
      (mul_ofrs three size 1)
mul_ofrs_sound_example = mul_ofrs_sound seven_run three size 1 (omega arith) (refl, tt)

min_ofrs_sound_example :
    Returns
      (λ o m. Holds seven_run o (min_ℤ (ofr_value seven_run size) (ofr_value seven_run three)))
      (min_ofrs size three 1)
min_ofrs_sound_example = min_ofrs_sound seven_run size three 1 (refl, tt) (omega arith)

max_ofrs_sound_example :
    Returns
      (λ o m. Holds seven_run o (max_ℤ (ofr_value seven_run size) (ofr_value seven_run three)))
      (max_ofrs size three 1)
max_ofrs_sound_example = max_ofrs_sound seven_run size three 1 (refl, tt) (omega arith)

compare_ofrs_sound_example :
    Returns
      (λ o m. Holds seven_run o (
        if compare_by half64 slt (ofr_value seven_run size) (ofr_value seven_run three)
        then ofr_value seven_run three
        else ofr_value seven_run (index_attr (pos 0))))
      (compare_ofrs size three slt three (index_attr (pos 0)) 1)
compare_ofrs_sound_example =
    compare_ofrs_sound seven_run size three slt three (index_attr (pos 0)) 1 (refl, tt)
      (omega arith) (omega arith) (omega arith) (inl refl)

compare_ofrs_ult_negative_example :
    Returns
      (λ o m. o ≡ three)
      (compare_ofrs (attr (int_attr (negsuc 0))) (attr (int_attr (pos 5))) ult three size 0)
    × (compare_by half64 ult (negsuc 0) (pos 5) ≡ ltb 1 0)
compare_ofrs_ult_negative_example =
    compare_ofrs_ult_negative 0 5 three size 0 (omega arith) (omega arith)

-- min(arg, 3) and min(3, index_cast(arg)), with a constant for each.
abbrev program : List Value
program =
    block_arg 0 index_ty
    ∷ constant 1 index_ty (integer_attr (pos 3))
    ∷ binary 2 minsi (block_arg 0 index_ty) (constant 1 index_ty (integer_attr (pos 3)))
    ∷ index_cast 3 index_ty (block_arg 0 index_ty)
    ∷ binary 4 minsi (constant 1 index_ty (integer_attr (pos 3)))
        (index_cast 3 index_ty (block_arg 0 index_ty))
    ∷ []

abbrev left_size : Ofr
left_size =
    value (binary 2 minsi (block_arg 0 index_ty) (constant 1 index_ty (integer_attr (pos 3))))

abbrev right_size : Ofr
right_size = value (
    binary 4 minsi (constant 1 index_ty (integer_attr (pos 3)))
      (index_cast 3 index_ty (block_arg 0 index_ty)))

program-IsExact : All (IsExact seven_run program) program
unfolding interp_of wrap
program-IsExact = (tt, (refl, ((refl, refl, refl), ((refl, refl), ((refl, refl, refl), tt)))))

same_ofr_sound_example : ofr_value seven_run left_size ≡ ofr_value seven_run right_size
unfolding same_ofr
same_ofr_sound_example =
    same_ofr_sound seven_run program program-IsExact left_size right_size refl refl refl

-- Tests.
add_folds : add_ofrs three (index_attr (pos 4)) 9 ≡ ok (index_attr (pos 7)) 9
unfolding add_ofrs wrap64 ◌+ℤ◌
add_folds = refl

add_creates :
    add_ofrs size three 9
    ≡ ok
        (value (binary 10 addi (block_arg 0 index_ty) (constant 9 index_ty (integer_attr (pos 3)))))
        11
unfolding add_ofrs
add_creates = refl

mul_through_constant :
    mul_ofrs (value (constant 5 index_ty (integer_attr (pos 1)))) size 9 ≡ ok size 9
unfolding mul_ofrs known_factor mul_by mul_shortcut
mul_through_constant = refl
