-- ===== src/Ofr/Basic.antt =====
-- include/triton-shared/Analysis/OpFoldResultUtils.h and lib/Analysis/OpFoldResultUtils.cpp: what an
-- OpFoldResult is, and the conversions to values.
use spine_triton.Prelude.{
  ℕ, length, Bool, false, ◌||◌, not, List, [], ◌∷◌, Option, none, some, ℤ, pos, eqb_ℤ, ltb,
  if◌then◌else◌,
}
use spine_triton.Ir.{
  Ty, scalar, tensor, index, index_ty, element_type, shape_of, is_shaped, is_integer, is_index,
  is_index_ty, is_integer_ty, ElementType, integer, ty_eq, shape_eq, element_eq, Value, type_of,
  element_of, constant_attr, ConstAttr, integer_attr, reshape, splat, opaque, ext_si, trunc_i, M,
  pure, crash, check, ◌>>=◌, ◌>>◌, create, create_constant, create_index_cast,
}

pub data Attr : Type 0 where
  int_attr : ℤ → Attr
  other_attr : Attr

-- An attribute or a value. A null OpFoldResult is `none` of an `Option Ofr`.
pub data Ofr : Type 0 where
  attr : Attr → Ofr
  value : Value → Ofr

-- builder.getIndexAttr
abbrev pub index_attr : ℤ → Ofr
index_attr z = attr (int_attr z)

abbrev pub get_int_attr : Ofr → Option ℤ
get_int_attr (attr (int_attr z)) = some z
get_int_attr _ = none

abbrev is_zero_constant : Option ConstAttr → Bool
is_zero_constant (some (integer_attr z)) = eqb_ℤ z (pos 0)
is_zero_constant _ = false

unfoldable pub has_const_zero : Ofr → M Bool
has_const_zero (attr (int_attr z)) = pure (eqb_ℤ z (pos 0))
has_const_zero (attr other_attr) = crash
has_const_zero (value v) = pure (is_zero_constant (constant_attr v))

index_value : Value → M Value
index_value v =
    if is_index_ty (type_of v)
    then pure v
    else check (is_integer_ty (type_of v)) >> create_index_cast index_ty v

unfoldable pub ofr_to_index_value : Ofr → M Value
unfolding index_value
ofr_to_index_value (value v) = index_value v
ofr_to_index_value (attr (int_attr z)) = create_constant z
ofr_to_index_value (attr other_attr) = crash

unfoldable pub ofrs_to_index_values : List Ofr → M (List Value)
ofrs_to_index_values [] = pure []
ofrs_to_index_values (o ∷ os) = do
  v ← ofr_to_index_value o
  vs ← ofrs_to_index_values os
  pure (v ∷ vs)

-- The casts between two integer types, by their widths.
cast_widths : Ty → ElementType → ElementType → Value → M Value
cast_widths ty (integer to) (integer from) v =
    if ltb from to then create (λ i. ext_si i ty v) else create (λ i. trunc_i i ty v)
cast_widths ty _ _ v = crash

-- To `ty`, whose element type and that of `v` are not both index.
cast_elements : Ty → ElementType → ElementType → Value → M Value
cast_elements ty to from v =
    if is_index to || is_index from
    then check (is_integer to || is_integer from) >> create_index_cast ty v
    else cast_widths ty to from v

unfoldable pub index_type_cast : Value → Ty → M Value
unfolding cast_elements cast_widths
index_type_cast v (scalar to) =
    check (not (is_shaped (type_of v))) >> cast_elements (scalar to) to (element_of v) v
index_type_cast v ty = crash

-- The shape tensor of a tt.reshape: a constant for each extent, and tensor.from_elements.
reshape_to : Ty → List ℕ → Value → M Value
reshape_to ty [] v = do
  create (λ i. opaque i (tensor (length (shape_of ty) ∷ []) index))
  create (λ i. reshape i ty v)
reshape_to ty (n ∷ ns) v = create_constant (pos n) >> reshape_to ty ns v

-- The value of an OpFoldResult in expandOFRIndex: an attribute becomes a constant.
value_or_constant : Ofr → M Value
value_or_constant (value v) = pure v
value_or_constant (attr (int_attr z)) = create_constant z
value_or_constant (attr other_attr) = crash

-- A scalar to a tensor: cast to the element type first, then splat.
expand_scalar : Ty → Value → M Value
unfolding index_type_cast
expand_scalar ty v = do
  v' ←
      (if ty_eq (scalar (element_type ty)) (type_of v)
        then pure v
        else index_type_cast v (scalar (element_type ty)))
  create (λ i. splat i ty v')

-- A shaped type to a shaped type: a reshape, or a cast of the elements.
expand_shaped : Ty → Value → M Value
unfolding reshape_to cast_elements cast_widths
expand_shaped ty v =
    if shape_eq (shape_of ty) (shape_of (type_of v))
    then cast_elements ty (element_type ty) (element_of v) v
    else check (element_eq (element_type ty) (element_of v)) >> reshape_to ty (shape_of ty) v

expand_value : Ty → Ofr → Value → M Ofr
unfolding expand_scalar expand_shaped index_type_cast
expand_value ty o v =
    if ty_eq ty (type_of v)
    then pure o
    else (if is_shaped ty
        then ((if is_shaped (type_of v) then expand_shaped ty v else expand_scalar ty v) >>= λ v'.
            pure (value v'))
        else (check (not (is_shaped (type_of v))) >> index_type_cast v ty >>= λ v'.
            pure (value v')))

unfoldable pub expand_ofr_index : Ofr → Ofr → M Ofr
unfolding expand_value value_or_constant
expand_ofr_index o (attr (int_attr _)) = pure o
expand_ofr_index o (attr other_attr) = crash
expand_ofr_index o (value target) = value_or_constant o >>= expand_value (type_of target) o
