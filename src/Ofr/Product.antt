-- ===== src/Ofr/Product.antt =====
-- mulOFRs: its shortcuts for the factors 0 and 1, which look through constants, and its products.
use spine_triton.Prelude.{
  [], ℕ, Option, none, some, ℤ, pos, ◌*ℤ◌, wrap64, wrap64_self, wrap64-In64, wrap_self, In64,
  half64, wrap, zero-*ℤ, *ℤ-zero, one-*ℤ, *ℤ-one, ◌⊎◌, inl, inr, ◌≡◌, refl, sym, ap, ap₂, ◌∙◌,
  arith,
}
use spine_triton.Ir.{
  muli, constant, integer_attr, dense_splat, dense_other, half_range, element_type, Interp, Returns,
  Returns-map, Returns-bind,
}
use spine_triton.Ofr.Basic.{Ofr, attr, value, int_attr, other_attr}
use spine_triton.Ofr.Arith.{
  emit, known_factor, mul_by, mul_shortcut, mul_rest, Shortcut, left, right, neither, mul_ofrs,
}
use spine_triton.Ofr.Meaning.{IsIndex, ofr_value, ofr_fits, emit_lem, Knows}
use spine_triton.Ofr.Folding.{Holds, emitted_holds}

module _ (I : Interp) where
  known_factor_lem : (o : Ofr) (n : ℕ) → IsIndex o → Returns (λ a m. Knows I a o) (known_factor o n)
  unfolding known_factor
  known_factor_lem (attr (int_attr z)) n p = (p, refl)
  known_factor_lem (attr other_attr) n p = refl
  known_factor_lem (value (constant i t (integer_attr z))) n p = (
    p.1,
    I.constant_lem i t z []
        ∙ ap (λ t. wrap (half_range (element_type t)) z) p.0
        ∙ wrap_self half64 z p.1,
  )
  known_factor_lem (value (constant i t (dense_splat z))) n p = absurd p.1
  known_factor_lem (value (constant i t dense_other)) n p = absurd p.1
  known_factor_lem (value v) n p = refl

  -- The side that a shortcut returns is the product.
  abbrev Justified : Shortcut → Ofr → Ofr → Type 0
  Justified left l r = (ofr_value I l ≡ pos 0) ⊎ (ofr_value I r ≡ pos 1)
  Justified right l r = (ofr_value I r ≡ pos 0) ⊎ (ofr_value I l ≡ pos 1)
  Justified neither l r = Unit

  shortcut_lem :
      (a b : Option ℤ) (l r : Ofr) → Knows I a l → Knows I b r → Justified (mul_shortcut a b) l r
  unfolding mul_shortcut
  shortcut_lem a b l r p q = ground arith

  emit_mul :
      (a b : Option ℤ) (l r : Ofr) (n : ℕ)
      → Knows I a l
      → Knows I b r
      → IsIndex l
      → IsIndex r
      → Returns (λ o m. Holds I o (wrap64 (ofr_value I l *ℤ ofr_value I r))) (emit muli a b l r n)
  unfolding wrap64
  emit_mul a b l r n j k p q =
      Returns-map _
        (λ o m.
          emitted_holds I (λ h a b. wrap h (a *ℤ b)) muli l r o (λ i x y _ _. I.muli_lem i x y []))
        (emit_lem I muli a b l r n j k p q)

  mul_rest_lem :
      (a b : Option ℤ) (l r : Ofr) (n : ℕ)
      → Knows I a l
      → Knows I b r
      → IsIndex l
      → IsIndex r
      → Returns (λ o m. Holds I o (wrap64 (ofr_value I l *ℤ ofr_value I r))) (mul_rest a b l r n)
  unfolding mul_rest
  mul_rest_lem (some a) (some b) l r n j k p q =
      (wrap64-In64 _, ap₂ (λ x y. wrap64 (x *ℤ y)) (sym j.1) (sym k.1))
  mul_rest_lem (some a) none l r n j k p q = emit_mul (some a) none l r n j k p q
  mul_rest_lem none b l r n j k p q = emit_mul none b l r n j k p q

  -- A shortcut's side is the product, and in range.
  left_is_product : (a b : ℤ) → In64 a → (a ≡ pos 0) ⊎ (b ≡ pos 1) → a ≡ wrap64 (a *ℤ b)
  left_is_product a b h (inl e) = rw (e, zero-*ℤ) (sym (wrap64_self (pos 0) (omega arith)))
  left_is_product a b h (inr e) = rw (e, *ℤ-one) (sym (wrap64_self a h))

  right_is_product : (a b : ℤ) → In64 b → (b ≡ pos 0) ⊎ (a ≡ pos 1) → b ≡ wrap64 (a *ℤ b)
  right_is_product a b h (inl e) = rw (e, *ℤ-zero) (sym (wrap64_self (pos 0) (omega arith)))
  right_is_product a b h (inr e) = rw (e, one-*ℤ) (sym (wrap64_self b h))

  mul_by_lem :
      (s : Shortcut) (a b : Option ℤ) (l r : Ofr) (n : ℕ)
      → Justified s l r
      → Knows I a l
      → Knows I b r
      → IsIndex l
      → IsIndex r
      → Returns (λ o m. Holds I o (wrap64 (ofr_value I l *ℤ ofr_value I r))) (mul_by s a b l r n)
  unfolding mul_by
  mul_by_lem left a b l r n s j k p q = (p, left_is_product _ _ (ofr_fits I l p) s)
  mul_by_lem right a b l r n s j k p q = (q, right_is_product _ _ (ofr_fits I r q) s)
  mul_by_lem neither a b l r n s j k p q = mul_rest_lem a b l r n j k p q

  -- mulOFRs of two index values returns their 64-bit product, on each of its branches: the shortcuts
  -- for a factor 0 or 1, two constants, and a new operation.
  pub mul_ofrs_sound :
      (l r : Ofr) (n : ℕ)
      → IsIndex l
      → IsIndex r
      → Returns (λ o m. Holds I o (wrap64 (ofr_value I l *ℤ ofr_value I r))) (mul_ofrs l r n)
  unfolding mul_ofrs
  mul_ofrs_sound l r n p q = Returns-bind _ (known_factor l n) _ (known_factor_lem l n p) λ a i j.
      Returns-bind _ (known_factor r i) _ (known_factor_lem r i q)
        λ b m k. mul_by_lem (mul_shortcut a b) a b l r m (shortcut_lem a b l r j k) j k p q
