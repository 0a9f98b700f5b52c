-- ===== src/Ptr/Near.antt =====
-- OpFoldResults that hold an integer up to a multiple of 2^64: the arithmetic of
-- OpFoldResultUtils keeps them, and so does the sum of the offsets of a state.
use spine_triton.Prelude.{
  ℕ, List, [], ◌∷◌, ℤ, pos, ◌+ℤ◌, ◌-ℤ◌, ◌*ℤ◌, All, length, ◌≡◌, refl, Congruent, Congruent-of_eq,
  Congruent-trans, +ℤ-Congruent, wrap64-Congruent, wrap64, int_laws, arith,
}
use spine_triton.Ir.{Interp, Returns, Returns-bind, Returns-map}
use spine_triton.Ofr.{
  Ofr, IsIndex, ofr_value, index_attr, add_ofrs, sub_ofrs, mul_ofrs, Holds, add_ofrs_sound,
  sub_ofrs_sound, mul_ofrs_sound,
}
use spine_triton.Ptr.State.{PtrState, accumulate_offsets, accumulate_target_offset}
use spine_triton.Ptr.Meaning.{total, walk}

module _ (I : Interp) where
  -- An OpFoldResult of index type that holds an integer up to a multiple of 2 ^ 64.
  abbrev pub Near : Ofr → ℤ → Type 0
  Near o z = IsIndex o × Congruent (ofr_value I o) z

  Near-of_Holds : (z : ℤ) (o : Ofr) → Holds I o (wrap64 z) → Near o z
  Near-of_Holds z o h = (h.0, Congruent-trans (Congruent-of_eq h.1) (wrap64-Congruent z))

  pub add-Near :
      (l r : Ofr) (n : ℕ)
      → IsIndex l
      → IsIndex r
      → Returns (λ o m. Near o (ofr_value I l +ℤ ofr_value I r)) (add_ofrs l r n)
  add-Near l r n p q = Returns-map _ (λ o m h. Near-of_Holds _ o h) (add_ofrs_sound I l r n p q)

  pub sub-Near :
      (l r : Ofr) (n : ℕ)
      → IsIndex l
      → IsIndex r
      → Returns (λ o m. Near o (ofr_value I l -ℤ ofr_value I r)) (sub_ofrs l r n)
  sub-Near l r n p q = Returns-map _ (λ o m h. Near-of_Holds _ o h) (sub_ofrs_sound I l r n p q)

  pub mul-Near :
      (l r : Ofr) (n : ℕ)
      → IsIndex l
      → IsIndex r
      → Returns (λ o m. Near o (ofr_value I l *ℤ ofr_value I r)) (mul_ofrs l r n)
  mul-Near l r n p q = Returns-map _ (λ o m h. Near-of_Holds _ o h) (mul_ofrs_sound I l r n p q)

  Near-trans : (o : Ofr) {y z : ℤ} → Near o y → Congruent y z → Near o z
  Near-trans o h k = (h.0, Congruent-trans h.1 k)

  accumulate_lem :
      (os : List Ofr) (t : Ofr) (n : ℕ)
      → IsIndex t
      → All IsIndex os
      → Returns (λ o m. Near o (ofr_value I t +ℤ total I os)) (accumulate_offsets t os n)
  unfolding accumulate_offsets
  accumulate_lem [] t n h k = (h, Congruent-of_eq (omega int_laws))
  accumulate_lem (o ∷ os) t n h k =
      Returns-bind _ (add_ofrs t o n) _ (add-Near t o n h k.0) λ sum m hs.
        Returns-map {Q = λ r i. Near r (ofr_value I t +ℤ total I (o ∷ os))} _
          (λ r i hr. Near-trans r {z = ofr_value I t +ℤ total I (o ∷ os)} hr (
            Congruent-trans (+ℤ-Congruent hs.1 (Congruent-of_eq refl))
              (Congruent-of_eq (omega int_laws))))
          (accumulate_lem os sum m hs.0 k.1)

  -- accumulateTargetOffset of a state whose offsets are of index type returns an OpFoldResult of index
  -- type that holds the sum of the offsets up to a multiple of 2^64, in every run.
  pub accumulate_target_offset_sound :
      (s : PtrState) (n : ℕ)
      → All IsIndex s.offsets
      → Returns (λ o m. Near o (total I s.offsets)) (accumulate_target_offset s n)
  unfolding accumulate_target_offset
  accumulate_target_offset_sound s n h =
      Returns-map {Q = λ o m. Near o (total I s.offsets)} _
        (λ o m k. Near-trans o {z = total I s.offsets} k (Congruent-of_eq (omega int_laws)))
        (accumulate_lem s.offsets (index_attr (pos 0)) n (omega arith) h)

  -- The axes that a loop returns, for offsets that add up to `o` and strides that walk by `w`.
  pub record IsAxes (axes : List Ofr × List Ofr) (rank : ℕ) (o : ℤ) (w : List ℕ → ℤ) : Type 0 where
    pub offsets_index : All IsIndex axes.0
    pub strides_index : All IsIndex axes.1
    pub offsets_rank : length axes.0 ≡ rank
    pub strides_rank : length axes.1 ≡ rank
    pub offset : Congruent (total I axes.0) o
    pub step : (idx : List ℕ) → Congruent (walk I axes.1 idx) (w idx)
