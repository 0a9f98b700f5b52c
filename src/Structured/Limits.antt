-- ===== src/Structured/Limits.antt =====
-- What the unstructured analysis makes of merged dimensions.
use spine_triton.Prelude.{ℕ, true, false, ℤ, pos, eqb_ℤ, ◌≡◌, refl}
use spine_triton.Ir.{type_of, is_shaped, Value}
use spine_triton.Ofr.{value, index_attr, has_const_zero}
use spine_triton.Structured.Sum.{one, merge_dim, is_absent, stride_or_one}

-- In a dimension where the right side is not structured and has stride 1, a left side that starts
-- at a constant other than 0 and walks with stride 1 is merged to the very offset and stride that
-- a left side is merged to which stays at that constant.
pub merge_dim_drops_walk :
    (z : ℤ) (v : Value) (n : ℕ)
    → eqb_ℤ z (pos 0) ≡ false
    → is_shaped (type_of v) ≡ true
    → merge_dim (index_attr z) (value v) (index_attr (pos 1)) (index_attr (pos 1)) n
      ≡ merge_dim (index_attr z) (value v) (index_attr (pos 0)) (index_attr (pos 1)) n
unfolding merge_dim is_absent stride_or_one has_const_zero one
merge_dim_drops_walk z v n h k = rw (h, k) refl
