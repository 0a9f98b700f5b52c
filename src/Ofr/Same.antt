-- ===== src/Ofr/Same.antt =====
-- lib/Analysis/OpFoldResultUtils.cpp: the comparison of sizes through index_cast chains.
use spine_triton.Prelude.{
  Bool, true, false, ◌||◌, ◌&&◌, Option, none, some, ℤ, pos, eqb_ℤ, if◌then◌else◌,
}
use spine_triton.Ir.{
  Value, index_cast, constant, binary, minsi, subi, integer_attr, same_value, scalar,
}
use spine_triton.Ofr.Basic.{Ofr, Attr, attr, value, int_attr, other_attr}

-- ConstantIndexOp and ConstantIntOp are the scalar constants.
unfoldable pub get_constant_int_like : Value → Option ℤ
get_constant_int_like (constant _ (scalar _) (integer_attr z)) = some z
get_constant_int_like (index_cast _ _ v) = get_constant_int_like v
get_constant_int_like _ = none

unfoldable pub known_is : ℤ → Option ℤ → Bool
known_is z (some c) = eqb_ℤ c z
known_is z none = false

unfoldable pub is_const_zero_ofr : Ofr → Bool
unfolding known_is get_constant_int_like
is_const_zero_ofr (attr (int_attr z)) = eqb_ℤ z (pos 0)
is_const_zero_ofr (attr other_attr) = false
is_const_zero_ofr (value v) = known_is (pos 0) (get_constant_int_like v)

unfoldable pub is_const_one_ofr : Ofr → Bool
unfolding known_is get_constant_int_like
is_const_one_ofr (attr (int_attr z)) = eqb_ℤ z (pos 1)
is_const_one_ofr (attr other_attr) = false
is_const_one_ofr (value v) = known_is (pos 1) (get_constant_int_like v)

unfoldable pub is_cast_of : Value → Value → Bool
is_cast_of (index_cast _ _ v) w = same_value v w
is_cast_of _ w = false

unfoldable pub same_value_or_equivalent_cast : Value → Value → Bool
unfolding is_cast_of
same_value_or_equivalent_cast l r = same_value l r || (is_cast_of l r || is_cast_of r l)

unfoldable pub peel_trivial_index_expr : Value → Value
peel_trivial_index_expr (index_cast _ _ v) = peel_trivial_index_expr v
peel_trivial_index_expr v = v

-- The operands of the right side's operation are peeled, as those of the left side are by the call
-- on them.
unfoldable pub same_min_si_op : (Value → Bool) → (Value → Bool) → Value → Bool
unfolding peel_trivial_index_expr
same_min_si_op same_a same_b (binary _ minsi c d) =
    let c' = peel_trivial_index_expr c in
    let d' = peel_trivial_index_expr d in (same_a c' && same_b d') || (same_a d' && same_b c')
same_min_si_op same_a same_b _ = false

unfoldable pub same_sub_i_op : (Value → Bool) → (Value → Bool) → Value → Bool
same_sub_i_op same_a same_b (binary _ subi c d) = same_a c && same_b d
same_sub_i_op same_a same_b _ = false

-- Two known constants decide; else the test goes on.
unfoldable pub by_constants : Option ℤ → Option ℤ → Bool → Bool
by_constants (some a) (some b) other = eqb_ℤ a b
by_constants _ _ other = other

unfoldable pub same_peeled : Value → Value → Bool → Bool
unfolding same_value_or_equivalent_cast by_constants get_constant_int_like
same_peeled l r other =
    if same_value_or_equivalent_cast l r
    then true
    else by_constants (get_constant_int_like l) (get_constant_int_like r) other

unfoldable pub same_bounded_size_expr : Value → Value → Bool
unfolding same_peeled peel_trivial_index_expr same_min_si_op same_sub_i_op
same_bounded_size_expr (index_cast _ _ v) r = same_bounded_size_expr v r
same_bounded_size_expr (binary i minsi a b) r =
    let r' = peel_trivial_index_expr r in
    same_peeled (binary i minsi a b) r'
      (same_min_si_op (same_bounded_size_expr a) (same_bounded_size_expr b) r')
same_bounded_size_expr (binary i subi a b) r =
    let r' = peel_trivial_index_expr r in
    same_peeled (binary i subi a b) r'
      (same_sub_i_op (same_bounded_size_expr a) (same_bounded_size_expr b) r')
same_bounded_size_expr l r = same_peeled l (peel_trivial_index_expr r) false

-- Attributes are uniqued; `other_attr` stands for any attribute that is no integer, and two such
-- are never taken for the same.
same_attr : Attr → Attr → Bool
same_attr (int_attr a) (int_attr b) = eqb_ℤ a b
same_attr _ _ = false

same_mixed : Attr → Value → Bool
unfolding known_is get_constant_int_like
same_mixed (int_attr z) v = known_is z (get_constant_int_like v)
same_mixed other_attr v = false

unfoldable pub same_ofr : Ofr → Ofr → Bool
unfolding same_attr same_mixed same_bounded_size_expr
same_ofr (attr a) (attr b) = same_attr a b
same_ofr (value v) (value w) = same_bounded_size_expr v w
same_ofr (attr a) (value w) = same_mixed a w
same_ofr (value v) (attr b) = same_mixed b v
