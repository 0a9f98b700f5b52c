-- ===== src/Examples/Pointers.antt =====
-- lib/Analysis/PtrAnalysis.cpp at a concrete pointer: the tile of 4 by 8 elements that
-- splat(p) + broadcast(expand_dims(arange(0, 8), 0)) points to, and states of one axis.
use spine_triton.Prelude.{
  Congruent-of_eq, true, false, Option, none, some, [], ◌∷◌, ℤ, pos, wrap, ◌+ℤ◌, ◌-ℤ◌, ◌≡◌, refl,
  inl, inr, arith, ℕ,
}
use spine_triton.Ir.{
  Value, scalar, tensor, integer, pointer, index_ty, block_arg, constant, integer_attr, splat,
  make_range, binary, addptr, expand_dims, broadcast, Interp, Env, interp_of, Returns, fault,
}
use spine_triton.Ofr.{index_attr}
use spine_triton.Ptr.State.{PtrState, sub_state, mul_state, accumulate_target_offset}
use spine_triton.Ptr.Casts.{create_side_by_side_cast_ops}
use spine_triton.Ptr.Visit.{Context}
use spine_triton.Ptr.Operand.{visit_operand}
use spine_triton.Ptr.Meaning.{IsPtrState, total}
use spine_triton.Ptr.Near.{Near, accumulate_target_offset_sound}
use spine_triton.Ptr.States.{Combined, sub_state_sound}
use spine_triton.Ptr.Scaling.{Scaled, mul_state_sound}
use spine_triton.Ptr.Wraparound.Chunks.{
  wrapping_state, IsTwoChunks, create_side_by_side_cast_ops_sound,
}
use spine_triton.Ptr.Supported.{
  Affine, base, move, arange, splatted, expanded, stretched, Describes, KnownDescribes,
}
use spine_triton.Ptr.Sound.{visit_operand_sound}
use spine_triton.Ptr.Limits.{mul_state_modulo_order, unit_range_walked}

abbrev thirteens : Env
thirteens i idx = pos 13

abbrev run13 : Interp
run13 = interp_of thirteens

abbrev context : Context
context = record { remapped = λ v. some v; remapped_cast = λ v. none; known_ptrs = λ v. none }

none_known : KnownDescribes run13 context
none_known v p u s e a = cc

abbrev start : Value
start = block_arg 0 (scalar pointer)

abbrev tile : Value
tile = binary 5 addptr (splat 1 (tensor (4 ∷ 8 ∷ []) pointer) start) (
    broadcast 4 (tensor (4 ∷ 8 ∷ []) (integer 32))
      (expand_dims 3 (tensor (1 ∷ 8 ∷ []) (integer 32)) 0 (make_range 2 0 8 8)))

tile-Affine : Affine run13 context true false tile
tile-Affine =
    move 5 32 4 (8 ∷ []) _ _
      (splatted 1 4 (8 ∷ []) pointer start (base 0 start refl refl) refl refl)
      (stretched 4 1 4 (8 ∷ []) (8 ∷ []) (integer 32) _
        (expanded 3 0 8 [] (integer 32) (make_range 2 0 8 8)
          (arange 2 0 8 8 (omega arith) refl (omega arith)) refl (omega arith))
        refl (inr (refl, omega arith), (inl refl, tt)))
      refl refl

visit_operand_sound_example :
    Returns (λ s j. Describes run13 (4 ∷ 8 ∷ []) true false tile s) (visit_operand context tile 6)
visit_operand_sound_example = visit_operand_sound run13 context none_known 6 tile-Affine

abbrev axis_state : ℤ → ℤ → Option Value → PtrState
axis_state o k v = record {
  offsets = index_attr o ∷ [];
  sizes = index_attr (pos 8) ∷ [];
  strides = index_attr k ∷ [];
  modulos = none ∷ [];
  source = none;
  scalar = v;
}

abbrev wrapped_state : PtrState
wrapped_state = record {
  offsets = index_attr (pos 3) ∷ [];
  sizes = index_attr (pos 8) ∷ [];
  strides = index_attr (pos 1) ∷ [];
  modulos = some (block_arg 7 index_ty) ∷ [];
  source = none;
  scalar = none;
}

abbrev factor : Value
factor = constant 9 index_ty (integer_attr (pos 5))

axis-IsPtrState : IsPtrState (axis_state (pos 3) (pos 1) none) 1
axis-IsPtrState = record {
  offsets_index = (omega arith, tt);
  strides_index = (omega arith, tt);
  offsets_rank = refl;
  sizes_rank = refl;
  strides_rank = refl;
  modulos_rank = refl;
}

factor-IsPtrState : IsPtrState (axis_state (pos 5) (pos 0) (some factor)) 1
factor-IsPtrState = record {
  offsets_index = (omega arith, tt);
  strides_index = (omega arith, tt);
  offsets_rank = refl;
  sizes_rank = refl;
  strides_rank = refl;
  modulos_rank = refl;
}

wrapped-IsPtrState : IsPtrState wrapped_state 1
wrapped-IsPtrState = record {
  offsets_index = (omega arith, tt);
  strides_index = (omega arith, tt);
  offsets_rank = refl;
  sizes_rank = refl;
  strides_rank = refl;
  modulos_rank = refl;
}

accumulate_target_offset_sound_example :
    Returns
      (λ o m. Near run13 o (total run13 (index_attr (pos 3) ∷ [])))
      (accumulate_target_offset (axis_state (pos 3) (pos 1) none) 10)
accumulate_target_offset_sound_example =
    accumulate_target_offset_sound run13 (axis_state (pos 3) (pos 1) none) 10 (omega arith, tt)

sub_state_sound_example :
    Returns
      (λ s m.
        Combined run13
          (λ a b. a -ℤ b)
          (axis_state (pos 3) (pos 1) none)
          (axis_state (pos 5) (pos 0) (some factor))
          s
          1)
      (sub_state (axis_state (pos 3) (pos 1) none) (axis_state (pos 5) (pos 0) (some factor)) 10)
sub_state_sound_example =
    sub_state_sound run13 (axis_state (pos 3) (pos 1) none)
      (axis_state (pos 5) (pos 0) (some factor)) 1 10 axis-IsPtrState factor-IsPtrState tt
      (refl, omega arith) refl refl

mul_state_sound_example :
    Returns
      (λ s m. Scaled run13 (axis_state (pos 3) (pos 1) none) factor s 1)
      (mul_state (axis_state (pos 3) (pos 1) none) (axis_state (pos 5) (pos 0) (some factor)) 10)
mul_state_sound_example =
    mul_state_sound run13 (axis_state (pos 3) (pos 1) none)
      (axis_state (pos 5) (pos 0) (some factor)) 1 10 axis-IsPtrState factor-IsPtrState tt
      (refl, omega arith) refl refl refl

mul_state_modulo_order_example :
    (mul_state (axis_state (pos 5) (pos 0) (some factor)) wrapped_state 10 ≡ fault)
    × Returns
        (λ s m. Scaled run13 wrapped_state factor s 1)
        (mul_state wrapped_state (axis_state (pos 5) (pos 0) (some factor)) 10)
mul_state_modulo_order_example =
    mul_state_modulo_order run13 (axis_state (pos 5) (pos 0) (some factor)) wrapped_state factor 1
      10 factor-IsPtrState wrapped-IsPtrState refl (refl, omega arith) refl refl refl refl refl

unit_range_walked_example :
    Returns
      (λ s l. (s.strides ≡ index_attr (pos 1) ∷ []) × (s.sizes ≡ index_attr (pos 8) ∷ []))
      (visit_operand context (broadcast 2 (tensor (8 ∷ []) (integer 32)) (make_range 1 4 5 1)) 3)
    × ((k : ℕ)
        → run13.value (broadcast 2 (tensor (8 ∷ []) (integer 32)) (make_range 1 4 5 1)) (k ∷ [])
          ≡ run13.value (make_range 1 4 5 1) (0 ∷ []))
unit_range_walked_example =
    unit_range_walked run13 context 2 1 4 8 3 (omega arith) (omega arith) (λ v. refl)

-- A tile of 4 rows and 6 columns at element 13 of rows of 8: columns 5, 6, 7, 0, 1 and 2 of the row
-- from 8 on.
abbrev eight : Value
eight = constant 2 index_ty (integer_attr (pos 8))

abbrev wrapping_tile : PtrState
wrapping_tile =
    wrapping_state (index_attr (pos 8) ∷ index_attr (pos 5) ∷ []) (index_attr (pos 4))
      (index_attr (pos 6)) (index_attr (pos 8)) (index_attr (pos 1)) eight start none

wrapping_tile-IsPtrState : IsPtrState wrapping_tile 2
wrapping_tile-IsPtrState = record {
  offsets_index = (omega arith, (omega arith, tt));
  strides_index = (omega arith, (omega arith, tt));
  offsets_rank = refl;
  sizes_rank = refl;
  strides_rank = refl;
  modulos_rank = refl;
}

create_side_by_side_cast_ops_sound_example :
    Returns
      (λ casts k. IsTwoChunks run13 start (index_attr (pos 4)) (index_attr (pos 8)) 13 8 6 casts)
      (create_side_by_side_cast_ops wrapping_tile (4 ∷ 6 ∷ []) 3)
unfolding interp_of wrap ◌+ℤ◌
create_side_by_side_cast_ops_sound_example =
    create_side_by_side_cast_ops_sound run13 (index_attr (pos 8) ∷ index_attr (pos 5) ∷ [])
      (index_attr (pos 4)) (index_attr (pos 6)) (index_attr (pos 8)) (index_attr (pos 1)) eight
      start none 4 6 13 8 6 3 wrapping_tile-IsPtrState (omega arith) (omega arith)
      (Congruent-of_eq refl) refl refl refl (omega arith) (omega arith) (omega arith) (omega arith)
      (omega arith)
