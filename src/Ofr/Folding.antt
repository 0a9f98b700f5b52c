-- ===== src/Ofr/Folding.antt =====
-- addOFRs, subOFRs, mulOFRs, minOFRs and maxOFRs compute 64-bit arithmetic, folded or not.
use spine_triton.Prelude.{
  [], ℕ, zero, suc, ℤ, pos, negsuc, ◌+ℤ◌, ◌-ℤ◌, min_ℤ, max_ℤ, wrap64, wrap64_self, wrap64-In64,
  half64, wrap, zero-+ℤ, +ℤ-zero, -ℤ-zero, ◌≡◌, refl, sym, ap, ◌∙◌, arith,
}
use spine_triton.Ir.{
  Value, BinaryOp, binary, addi, subi, minsi, maxsi, index_ty, type_of, element_of, element_type,
  half_range, Interp, Returns, Returns-map,
}
use spine_triton.Ofr.Basic.{Ofr, attr, value, int_attr, other_attr, get_int_attr}
use spine_triton.Ofr.Arith.{emit, sub_values, sub_rest, add_ofrs, sub_ofrs, min_ofrs, max_ofrs}
use spine_triton.Ofr.Meaning.{IsIndex, ofr_value, ofr_fits, Emitted, emit_attrs}

module _ (I : Interp) where
  -- `o` is of index type and holds `z`.
  abbrev pub Holds : Ofr → ℤ → Type 0
  Holds o z = IsIndex o × (ofr_value I o ≡ z)

  pub emitted_holds :
      (F : ℕ → ℤ → ℤ → ℤ) (op : BinaryOp) (l r o : Ofr)
      → ((i : ℕ) (x y : Value)
          → type_of x ≡ index_ty
          → type_of y ≡ index_ty
          → I.value (binary i op x y) []
            ≡ F (half_range (element_of x)) (I.value x []) (I.value y []))
      → Emitted I op l r o
      → Holds o (F half64 (ofr_value I l) (ofr_value I r))
  emitted_holds F op l r o law e = rw e.made (
    (e.lhs_index, tt),
    law e.number e.lhs e.rhs e.lhs_index e.rhs_index
        ∙ ap (λ t. F (half_range (element_type t)) (I.value e.lhs []) (I.value e.rhs []))
            e.lhs_index
        ∙ ap (λ a. F half64 a (I.value e.rhs [])) e.lhs_value
        ∙ ap (λ b. F half64 (ofr_value I l) b) e.rhs_value,
  )

  same_elements :
      (x y : Value) → type_of x ≡ index_ty → type_of y ≡ index_ty → element_of x ≡ element_of y
  same_elements x y p q = ap element_type (p ∙ sym q)

  emit_add :
      (l r : Ofr) (n : ℕ)
      → IsIndex l
      → IsIndex r
      → Returns
          (λ o m. Holds o (wrap64 (ofr_value I l +ℤ ofr_value I r)))
          (emit addi (get_int_attr l) (get_int_attr r) l r n)
  unfolding wrap64
  emit_add l r n p q =
      Returns-map _
        (λ o m.
          emitted_holds (λ h a b. wrap h (a +ℤ b)) addi l r o (λ i x y _ _. I.addi_lem i x y []))
        (emit_attrs I addi l r n p q)

  -- addOFRs of two index values returns their 64-bit sum, on each of its branches.
  pub add_ofrs_sound :
      (l r : Ofr) (n : ℕ)
      → IsIndex l
      → IsIndex r
      → Returns (λ o m. Holds o (wrap64 (ofr_value I l +ℤ ofr_value I r))) (add_ofrs l r n)
  unfolding add_ofrs
  add_ofrs_sound (value v) (attr (int_attr (pos zero))) n p q =
      (p, sym (ap wrap64 (+ℤ-zero _) ∙ wrap64_self _ (ofr_fits I (value v) p)))
  add_ofrs_sound (value v) (attr (int_attr (pos (suc b)))) n p q =
      emit_add (value v) (attr (int_attr (pos (suc b)))) n p q
  add_ofrs_sound (value v) (attr (int_attr (negsuc b))) n p q =
      emit_add (value v) (attr (int_attr (negsuc b))) n p q
  add_ofrs_sound (attr (int_attr (pos zero))) (value w) n p q =
      (q, sym (ap wrap64 (zero-+ℤ _) ∙ wrap64_self _ (ofr_fits I (value w) q)))
  add_ofrs_sound (attr (int_attr (pos (suc a)))) (value w) n p q =
      emit_add (attr (int_attr (pos (suc a)))) (value w) n p q
  add_ofrs_sound (attr (int_attr (negsuc a))) (value w) n p q =
      emit_add (attr (int_attr (negsuc a))) (value w) n p q
  add_ofrs_sound (attr (int_attr (pos zero))) (attr (int_attr b)) n p q = (wrap64-In64 _, refl)
  add_ofrs_sound (attr (int_attr (pos (suc a)))) (attr (int_attr b)) n p q = (wrap64-In64 _, refl)
  add_ofrs_sound (attr (int_attr (negsuc a))) (attr (int_attr b)) n p q = (wrap64-In64 _, refl)
  add_ofrs_sound (value v) (value w) n p q = emit_add (value v) (value w) n p q
  add_ofrs_sound (attr other_attr) r n p q = absurd p
  add_ofrs_sound l (attr other_attr) n p q = absurd q

  sub_rest_lem :
      (l r : Ofr) (n : ℕ)
      → IsIndex l
      → IsIndex r
      → sub_rest (get_int_attr l) (get_int_attr r) l r n
        ≡ emit subi (get_int_attr l) (get_int_attr r) l r n
  unfolding sub_rest sub_values emit
  sub_rest_lem (attr (int_attr a)) (attr (int_attr b)) n p q = refl
  sub_rest_lem (attr (int_attr a)) (value w) n p q = rw q.0
  sub_rest_lem (value v) (attr (int_attr b)) n p q = rw p.0
  sub_rest_lem (value v) (value w) n p q = rw (p.0, q.0)
  sub_rest_lem (attr other_attr) r n p q = absurd p
  sub_rest_lem (attr (int_attr a)) (attr other_attr) n p q = absurd q
  sub_rest_lem (value v) (attr other_attr) n p q = absurd q

  emit_sub :
      (l r : Ofr) (n : ℕ)
      → IsIndex l
      → IsIndex r
      → Returns
          (λ o m. Holds o (wrap64 (ofr_value I l -ℤ ofr_value I r)))
          (sub_rest (get_int_attr l) (get_int_attr r) l r n)
  unfolding wrap64
  emit_sub l r n p q = rw (sub_rest_lem l r n p q) (
      Returns-map _
        (λ o m.
          emitted_holds (λ h a b. wrap h (a -ℤ b)) subi l r o (λ i x y _ _. I.subi_lem i x y []))
        (emit_attrs I subi l r n p q))

  -- subOFRs of two index values returns their 64-bit difference, on each of its branches.
  pub sub_ofrs_sound :
      (l r : Ofr) (n : ℕ)
      → IsIndex l
      → IsIndex r
      → Returns (λ o m. Holds o (wrap64 (ofr_value I l -ℤ ofr_value I r))) (sub_ofrs l r n)
  unfolding sub_ofrs
  sub_ofrs_sound (value v) (attr (int_attr (pos zero))) n p q =
      (p, sym (ap wrap64 (-ℤ-zero _) ∙ wrap64_self _ (ofr_fits I (value v) p)))
  sub_ofrs_sound (value v) (attr (int_attr (pos (suc b)))) n p q =
      emit_sub (value v) (attr (int_attr (pos (suc b)))) n p q
  sub_ofrs_sound (value v) (attr (int_attr (negsuc b))) n p q =
      emit_sub (value v) (attr (int_attr (negsuc b))) n p q
  sub_ofrs_sound (attr (int_attr a)) (attr (int_attr b)) n p q = (wrap64-In64 _, refl)
  sub_ofrs_sound (attr (int_attr a)) (value w) n p q = emit_sub (attr (int_attr a)) (value w) n p q
  sub_ofrs_sound (value v) (value w) n p q = emit_sub (value v) (value w) n p q
  sub_ofrs_sound (attr other_attr) r n p q = absurd p
  sub_ofrs_sound l (attr other_attr) n p q = absurd q

  emit_min :
      (l r : Ofr) (n : ℕ)
      → IsIndex l
      → IsIndex r
      → Returns
          (λ o m. Holds o (min_ℤ (ofr_value I l) (ofr_value I r)))
          (emit minsi (get_int_attr l) (get_int_attr r) l r n)
  emit_min l r n p q =
      Returns-map _
        (λ o m.
          emitted_holds (λ h a b. min_ℤ a b) minsi l r o
            (λ i x y h k. I.minsi_lem i x y [] (same_elements x y h k)))
        (emit_attrs I minsi l r n p q)

  emit_max :
      (l r : Ofr) (n : ℕ)
      → IsIndex l
      → IsIndex r
      → Returns
          (λ o m. Holds o (max_ℤ (ofr_value I l) (ofr_value I r)))
          (emit maxsi (get_int_attr l) (get_int_attr r) l r n)
  emit_max l r n p q =
      Returns-map _
        (λ o m.
          emitted_holds (λ h a b. max_ℤ a b) maxsi l r o
            (λ i x y h k. I.maxsi_lem i x y [] (same_elements x y h k)))
        (emit_attrs I maxsi l r n p q)

  -- minOFRs of two index values returns the smaller one.
  pub min_ofrs_sound :
      (l r : Ofr) (n : ℕ)
      → IsIndex l
      → IsIndex r
      → Returns (λ o m. Holds o (min_ℤ (ofr_value I l) (ofr_value I r))) (min_ofrs l r n)
  unfolding min_ofrs
  min_ofrs_sound (attr (int_attr a)) (attr (int_attr b)) n p q = (ground arith, refl)
  min_ofrs_sound (attr (int_attr a)) (value w) n p q = emit_min (attr (int_attr a)) (value w) n p q
  min_ofrs_sound (value v) (attr (int_attr b)) n p q = emit_min (value v) (attr (int_attr b)) n p q
  min_ofrs_sound (value v) (value w) n p q = emit_min (value v) (value w) n p q
  min_ofrs_sound (attr other_attr) r n p q = absurd p
  min_ofrs_sound l (attr other_attr) n p q = absurd q

  -- maxOFRs of two index values returns the larger one.
  pub max_ofrs_sound :
      (l r : Ofr) (n : ℕ)
      → IsIndex l
      → IsIndex r
      → Returns (λ o m. Holds o (max_ℤ (ofr_value I l) (ofr_value I r))) (max_ofrs l r n)
  unfolding max_ofrs
  max_ofrs_sound (attr (int_attr a)) (attr (int_attr b)) n p q = (ground arith, refl)
  max_ofrs_sound (attr (int_attr a)) (value w) n p q = emit_max (attr (int_attr a)) (value w) n p q
  max_ofrs_sound (value v) (attr (int_attr b)) n p q = emit_max (value v) (attr (int_attr b)) n p q
  max_ofrs_sound (value v) (value w) n p q = emit_max (value v) (value w) n p q
  max_ofrs_sound (attr other_attr) r n p q = absurd p
  max_ofrs_sound l (attr other_attr) n p q = absurd q
