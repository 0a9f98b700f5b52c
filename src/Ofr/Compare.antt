-- ===== src/Ofr/Compare.antt =====
-- lib/Analysis/OpFoldResultUtils.cpp: compareOFRs.
use spine_triton.Prelude.{
  Bool, false, not, ◌||◌, Option, some, ℤ, ltb_ℤ, leb_ℤ, eqb_ℤ, if◌then◌else◌,
}
use spine_triton.Ir.{
  Predicate, eq, ne, slt, sle, sgt, sge, ult, ule, ugt, uge, type_of, is_shaped, M, pure, ◌>>=◌,
  create_cmpi, create_select,
}
use spine_triton.Ofr.Basic.{Ofr, attr, value, get_int_attr, ofr_to_index_value}

unfoldable pub is_shaped_value : Ofr → Bool
is_shaped_value (value v) = is_shaped (type_of v)
is_shaped_value (attr _) = false

-- The test on two constants: the unsigned predicates are read as the signed ones.
unfoldable pub folded_test : Predicate → ℤ → ℤ → Bool
folded_test eq a b = eqb_ℤ a b
folded_test ne a b = not (eqb_ℤ a b)
folded_test slt a b = ltb_ℤ a b
folded_test ult a b = ltb_ℤ a b
folded_test sle a b = leb_ℤ a b
folded_test ule a b = leb_ℤ a b
folded_test sgt a b = ltb_ℤ b a
folded_test ugt a b = ltb_ℤ b a
folded_test sge a b = leb_ℤ b a
folded_test uge a b = leb_ℤ b a

unfoldable pub compare_values : Ofr → Ofr → Predicate → Ofr → Ofr → M Ofr
compare_values l r p t f = do
  x ← ofr_to_index_value l
  y ← ofr_to_index_value r
  a ← ofr_to_index_value t
  b ← ofr_to_index_value f
  c ← create_cmpi p x y
  s ← create_select c a b
  pure (value s)

compare_known : Option ℤ → Option ℤ → Ofr → Ofr → Predicate → Ofr → Ofr → M Ofr
unfolding is_shaped_value folded_test compare_values
compare_known (some a) (some b) l r p t f = pure (if folded_test p a b then t else f)
compare_known _ _ l r p t f =
    if is_shaped_value l || (is_shaped_value r || (is_shaped_value t || is_shaped_value f))
    then pure f
    else compare_values l r p t f

unfoldable pub compare_ofrs : Ofr → Ofr → Predicate → Ofr → Ofr → M Ofr
unfolding compare_known
compare_ofrs l r p t f = compare_known (get_int_attr l) (get_int_attr r) l r p t f
