-- ===== src/Ofr/Comparing.antt =====
-- compareOFRs against the comparison and the choice that arith.cmpi and arith.select make.
use spine_triton.Prelude.{
  [], ℕ, suc, ◌≤◌, Bool, true, false, ℤ, pos, negsuc, pos_part, ◌≤ℤ◌, In64, half64, half64,
  bit_pattern, if◌then◌else◌, ◌⊎◌, inl, inr, ◌≡◌, refl, sym, ap, ◌∙◌, arith,
}
use spine_triton.Ir.{
  Value, Predicate, eq, ne, slt, sle, sgt, sge, ult, ule, ugt, uge, is_index_ty, element_type, cmpi,
  select, compare_by, bit, is_set, Interp, Returns, Returns-bind,
}
use spine_triton.Ofr.Basic.{Ofr, attr, value, int_attr, other_attr, ofr_to_index_value}
use spine_triton.Ofr.Compare.{compare_ofrs, compare_values, folded_test, is_shaped_value}
use spine_triton.Ofr.Meaning.{IsIndex, ofr_value, Operand, constant_value}
use spine_triton.Ofr.Folding.{Holds}

abbrev pub is_unsigned : Predicate → Bool
is_unsigned ult = true
is_unsigned ule = true
is_unsigned ugt = true
is_unsigned uge = true
is_unsigned _ = false

-- The inputs at which the folding of two constants is the comparison: an unsigned predicate must not
-- see a negative number.
abbrev pub FoldsRight : Predicate → ℤ → ℤ → Type 0
FoldsRight p a b = (is_unsigned p ≡ false) ⊎ ((pos 0 ≤ℤ a) × (pos 0 ≤ℤ b))

pattern_of_nonneg : (z : ℤ) → In64 z → pos 0 ≤ℤ z → bit_pattern half64 z ≡ pos_part z
unfolding bit_pattern
pattern_of_nonneg (pos n) h k = omega arith
pattern_of_nonneg (negsuc n) h k = absurd (omega arith)

folded_unsigned :
    (p : Predicate) (a b : ℤ)
    → In64 a
    → In64 b
    → pos 0 ≤ℤ a
    → pos 0 ≤ℤ b
    → folded_test p a b ≡ compare_by half64 p a b
unfolding folded_test
folded_unsigned eq a b h k m n = refl
folded_unsigned ne a b h k m n = refl
folded_unsigned slt a b h k m n = refl
folded_unsigned sle a b h k m n = refl
folded_unsigned sgt a b h k m n = refl
folded_unsigned sge a b h k m n = refl
folded_unsigned _ a b h k m n = ground (arith, pattern_of_nonneg a h m, pattern_of_nonneg b k n)

folded_signed :
    (p : Predicate) (a b : ℤ) → is_unsigned p ≡ false → folded_test p a b ≡ compare_by half64 p a b
unfolding folded_test
folded_signed ult a b h = cc
folded_signed ule a b h = cc
folded_signed ugt a b h = cc
folded_signed uge a b h = cc
folded_signed _ a b h = refl

folded_test_lem :
    (p : Predicate) (a b : ℤ)
    → In64 a
    → In64 b
    → FoldsRight p a b
    → folded_test p a b ≡ compare_by half64 p a b
folded_test_lem p a b h k (inr q) = folded_unsigned p a b h k q.0 q.1
folded_test_lem p a b h k (inl q) = folded_signed p a b q

index_not_shaped : (o : Ofr) → IsIndex o → is_shaped_value o ≡ false
unfolding is_shaped_value
index_not_shaped (attr _) h = refl
index_not_shaped (value v) h = rw h.0

module _ (I : Interp) where
  index-Operand :
      (o : Ofr) (n : ℕ) → IsIndex o → Returns (λ v m. Operand I o v) (ofr_to_index_value o n)
  unfolding ofr_to_index_value
  index-Operand (attr (int_attr z)) n h = record { is_index = refl; same = constant_value I n z h }
  index-Operand (attr other_attr) n h = absurd h
  index-Operand (value v) n h = rw (ap is_index_ty h.0) (record { is_index = h.0; same = refl })

  -- The comparison and the choice, made at run time.
  compare_values_lem :
      (l r : Ofr) (p : Predicate) (t f : Ofr) (n : ℕ)
      → IsIndex l
      → IsIndex r
      → IsIndex t
      → IsIndex f
      → Returns
          (λ o m. Holds I o (
            if compare_by half64 p (ofr_value I l) (ofr_value I r)
            then ofr_value I t
            else ofr_value I f))
          (compare_values l r p t f n)
  unfolding compare_values
  compare_values_lem l r p t f n hl hr ht hf =
      Returns-bind _ (ofr_to_index_value l n) _ (index-Operand l n hl) λ x n₁ x_ok.
        Returns-bind _ (ofr_to_index_value r n₁) _ (index-Operand r n₁ hr) λ y n₂ y_ok.
          Returns-bind _ (ofr_to_index_value t n₂) _ (index-Operand t n₂ ht) λ a n₃ a_ok.
            Returns-bind _ (ofr_to_index_value f n₃) _ (index-Operand f n₃ hf)
              λ b n₄ b_ok. ((a_ok.is_index, tt), chosen x y a b n₄ x_ok y_ok a_ok b_ok)
    where
      is_set-bit : (c : Bool) → is_set (bit c) ≡ c
      is_set-bit true = refl
      is_set-bit false = refl

      chosen :
          (x y a b : Value) (m : ℕ)
          → Operand I l x
          → Operand I r y
          → Operand I t a
          → Operand I f b
          → I.value (select (suc m) (cmpi m p x y) a b) [] ≡ (
              if compare_by half64 p (ofr_value I l) (ofr_value I r)
              then ofr_value I t
              else ofr_value I f)
      chosen x y a b m hx hy ha hb =
          I.select_lem (suc m) (cmpi m p x y) a b (ap element_type (ha.is_index ∙ sym hb.is_index))
          ∙ rw (I.cmpi_lem m p x y [], is_set-bit, hx.is_index, hx.same, hy.same, ha.same, hb.same)
              refl

  abbrev Chosen : Predicate → Ofr → Ofr → Ofr → Ofr → Ofr → Type 0
  Chosen p l r t f o =
      Holds I o (
        if compare_by half64 p (ofr_value I l) (ofr_value I r)
        then ofr_value I t
        else ofr_value I f)

  choose_folded :
      (b : Bool) (t f : Ofr)
      → IsIndex t
      → IsIndex f
      → Holds I (if b then t else f) (if b then ofr_value I t else ofr_value I f)
  choose_folded true t f ht hf = (ht, refl)
  choose_folded false t f ht hf = (hf, refl)

  -- compareOFRs of index values returns what a run-time comparison would choose, folded or not, if no
  -- unsigned predicate is given a negative number.
  pub compare_ofrs_sound :
      (l r : Ofr) (p : Predicate) (t f : Ofr) (n : ℕ)
      → IsIndex l
      → IsIndex r
      → IsIndex t
      → IsIndex f
      → FoldsRight p (ofr_value I l) (ofr_value I r)
      → Returns (λ o m. Chosen p l r t f o) (compare_ofrs l r p t f n)
  unfolding compare_ofrs
  compare_ofrs_sound (attr (int_attr a)) (attr (int_attr b)) p t f n hl hr ht hf ok =
      rw (← folded_test_lem p a b hl hr ok) (choose_folded (folded_test p a b) t f ht hf)
  compare_ofrs_sound (attr other_attr) r p t f n hl hr ht hf ok = absurd hl
  compare_ofrs_sound (attr (int_attr a)) (attr other_attr) p t f n hl hr ht hf ok = absurd hr
  compare_ofrs_sound (attr (int_attr a)) (value w) p t f n hl hr ht hf ok =
      rw (index_not_shaped (value w) hr, index_not_shaped t ht, index_not_shaped f hf)
        (compare_values_lem (attr (int_attr a)) (value w) p t f n hl hr ht hf)
  compare_ofrs_sound (value v) r p t f n hl hr ht hf ok =
      rw
        (
          index_not_shaped (value v) hl,
          index_not_shaped r hr,
          index_not_shaped t ht,
          index_not_shaped f hf,
        )
        (compare_values_lem (value v) r p t f n hl hr ht hf)

-- Two constants under ult: a negative left side is taken for the smaller number, and at run time it is
-- the larger one. compareOFRs then returns the other alternative.
pub compare_ofrs_ult_negative :
    (a : ℕ) (b : ℕ) (t f : Ofr) (n : ℕ)
    → suc a ≤ half64
    → suc b ≤ half64
    → Returns
        (λ o m. o ≡ t)
        (compare_ofrs (attr (int_attr (negsuc a))) (attr (int_attr (pos b))) ult t f n)
      × (compare_by half64 ult (negsuc a) (pos b) ≡ false)
unfolding compare_ofrs folded_test bit_pattern
compare_ofrs_ult_negative a b t f n h k = (ground arith, ground arith)
