-- ===== src/Ofr/Arith.antt =====
-- lib/Analysis/OpFoldResultUtils.cpp: addOFRs, subOFRs, mulOFRs, minOFRs, maxOFRs. Two constants are
-- folded; else the missing constants and one arith operation are created.
use spine_triton.Prelude.{
  zero, Bool, true, false, Option, none, some, ℤ, pos, ◌+ℤ◌, ◌-ℤ◌, ◌*ℤ◌, min_ℤ, max_ℤ, wrap64,
  if◌then◌else◌, eqb_ℤ,
}
use spine_triton.Ir.{
  Value, BinaryOp, addi, subi, muli, minsi, maxsi, type_of, is_shaped, ty_eq, constant_attr,
  ConstAttr, integer_attr, dense_splat, dense_other, M, pure, crash, ◌>>=◌, create_constant,
  create_binary,
}
use spine_triton.Ofr.Basic.{
  Ofr, attr, value, int_attr, other_attr, index_attr, get_int_attr, expand_ofr_index,
}

-- An operand of the operation to create: a constant for a known integer, else the value. What is
-- neither is a null value.
abbrev pub operand : Option ℤ → Ofr → M Value
operand (some z) o = create_constant z
operand none (value v) = pure v
operand none (attr _) = crash

unfoldable pub emit : BinaryOp → Option ℤ → Option ℤ → Ofr → Ofr → M Ofr
emit op a b l r = do x ← operand a l; y ← operand b r; v ← create_binary op x y; pure (value v)

add_known : Option ℤ → Option ℤ → Ofr → Ofr → M Ofr
unfolding emit
add_known none (some (pos zero)) l r = pure l
add_known (some (pos zero)) none l r = pure r
add_known (some a) (some b) l r = pure (index_attr (wrap64 (a +ℤ b)))
add_known a b l r = emit addi a b l r

unfoldable pub add_ofrs : Ofr → Ofr → M Ofr
unfolding add_known
add_ofrs l r = add_known (get_int_attr l) (get_int_attr r) l r

-- Operands of two types, one of them shaped: the other is expanded to its type.
cast_value : Ofr → M Value
cast_value (value v) = pure v
cast_value (attr _) = crash

emit_sub : Value → Value → M Ofr
emit_sub x y = do v ← create_binary subi x y; pure (value v)

emit_sub_aligned : Bool → Bool → Value → Value → M Ofr
unfolding emit_sub cast_value
emit_sub_aligned false true x y = do
  o ← expand_ofr_index (value x) (value y)
  x' ← cast_value o
  emit_sub x' y
emit_sub_aligned true false x y = do
  o ← expand_ofr_index (value y) (value x)
  y' ← cast_value o
  emit_sub x y'
emit_sub_aligned _ _ x y = emit_sub x y

unfoldable pub sub_values : Value → Value → M Ofr
unfolding emit_sub_aligned emit_sub
sub_values x y =
    if ty_eq (type_of x) (type_of y)
    then emit_sub x y
    else emit_sub_aligned (is_shaped (type_of x)) (is_shaped (type_of y)) x y

unfoldable pub sub_rest : Option ℤ → Option ℤ → Ofr → Ofr → M Ofr
sub_rest a b l r = do x ← operand a l; y ← operand b r; sub_values x y

sub_known : Option ℤ → Option ℤ → Ofr → Ofr → M Ofr
sub_known none (some (pos zero)) l r = pure l
sub_known (some a) (some b) l r = pure (index_attr (wrap64 (a -ℤ b)))
sub_known a b l r = sub_rest a b l r

unfoldable pub sub_ofrs : Ofr → Ofr → M Ofr
unfolding sub_known
sub_ofrs l r = sub_known (get_int_attr l) (get_int_attr r) l r

-- mulOFRs looks through an arith.constant too; cast<IntegerAttr> faults on a dense one.
constant_factor : Option ConstAttr → M (Option ℤ)
constant_factor none = pure none
constant_factor (some (integer_attr z)) = pure (some z)
constant_factor (some (dense_splat _)) = crash
constant_factor (some dense_other) = crash

unfoldable pub known_factor : Ofr → M (Option ℤ)
unfolding constant_factor
known_factor (attr (int_attr z)) = pure (some z)
known_factor (attr other_attr) = pure none
known_factor (value v) = constant_factor (constant_attr v)

-- The shortcuts of a known factor 0 or 1, in the order of the tests.
pub data Shortcut : Type 0 where
  left right neither : Shortcut

factor_shortcut : ℤ → Shortcut → Shortcut → Shortcut → Shortcut
factor_shortcut z zero_case one_case other =
    if eqb_ℤ z (pos 0) then zero_case else if eqb_ℤ z (pos 1) then one_case else other

right_shortcut : Option ℤ → Shortcut
unfolding factor_shortcut
right_shortcut none = neither
right_shortcut (some b) = factor_shortcut b right left neither

unfoldable pub mul_shortcut : Option ℤ → Option ℤ → Shortcut
unfolding right_shortcut factor_shortcut
mul_shortcut none b = right_shortcut b
mul_shortcut (some a) b = factor_shortcut a left right (right_shortcut b)

unfoldable pub mul_rest : Option ℤ → Option ℤ → Ofr → Ofr → M Ofr
unfolding emit
mul_rest (some a) (some b) l r = pure (index_attr (wrap64 (a *ℤ b)))
mul_rest a b l r = emit muli a b l r

unfoldable pub mul_by : Shortcut → Option ℤ → Option ℤ → Ofr → Ofr → M Ofr
unfolding mul_rest
mul_by left a b l r = pure l
mul_by right a b l r = pure r
mul_by neither a b l r = mul_rest a b l r

unfoldable pub mul_ofrs : Ofr → Ofr → M Ofr
mul_ofrs l r = do a ← known_factor l; b ← known_factor r; mul_by (mul_shortcut a b) a b l r

min_known : Option ℤ → Option ℤ → Ofr → Ofr → M Ofr
unfolding emit
min_known (some a) (some b) l r = pure (index_attr (min_ℤ a b))
min_known a b l r = emit minsi a b l r

unfoldable pub min_ofrs : Ofr → Ofr → M Ofr
unfolding min_known
min_ofrs l r = min_known (get_int_attr l) (get_int_attr r) l r

max_known : Option ℤ → Option ℤ → Ofr → Ofr → M Ofr
unfolding emit
max_known (some a) (some b) l r = pure (index_attr (max_ℤ a b))
max_known a b l r = emit maxsi a b l r

unfoldable pub max_ofrs : Ofr → Ofr → M Ofr
unfolding max_known
max_ofrs l r = max_known (get_int_attr l) (get_int_attr r) l r
