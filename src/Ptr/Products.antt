-- ===== src/Ptr/Products.antt =====
-- The axes of the product of a pointer state with one factor.
use spine_triton.Prelude.{
  ℕ, zero, suc, List, [], ◌∷◌, pos, ◌*ℤ◌, All, length, ◌≡◌, refl, Congruent, Congruent-of_eq,
  Congruent-trans, +ℤ-Congruent, *ℤ-Congruent_left, *ℤ-+ℤ_right, *ℤ_swap, arith, zero-*ℤ, ap, sym,
}
use spine_triton.Ir.{Interp, Returns, Returns-bind}
use spine_triton.Ofr.{Ofr, IsIndex, ofr_value, mul_ofrs}
use spine_triton.Ptr.State.{scale_axes}
use spine_triton.Ptr.Meaning.{total, walk}
use spine_triton.Ptr.Near.{Near, mul-Near, IsAxes}

module _ (I : Interp) where
  scale_step_lem :
      (k s u : Ofr) (ss us : List Ofr)
      → Near I u (ofr_value I s *ℤ ofr_value I k)
      → ((idx : List ℕ) → Congruent (walk I us idx) (walk I ss idx *ℤ ofr_value I k))
      → (idx : List ℕ) → Congruent (walk I (u ∷ us) idx) (walk I (s ∷ ss) idx *ℤ ofr_value I k)
  scale_step_lem k s u ss us h j [] = Congruent-of_eq (sym (zero-*ℤ _))
  scale_step_lem k s u ss us h j (i ∷ idx) =
      Congruent-trans (+ℤ-Congruent (*ℤ-Congruent_left (pos i) h.1) (j idx)) (
        Congruent-of_eq (
          rw
            (
              *ℤ-+ℤ_right (ofr_value I s *ℤ pos i) (walk I ss idx) (ofr_value I k),
              *ℤ_swap (ofr_value I s) (ofr_value I k) (pos i),
            )
            refl))

  -- A product with one factor, axis by axis.
  pub scale_axes_lem :
      (k : Ofr) (os ss : List Ofr) (rank n : ℕ)
      → IsIndex k
      → length os ≡ rank
      → length ss ≡ rank
      → All IsIndex os
      → All IsIndex ss
      → Returns
          (λ axes m.
            IsAxes I axes rank
              (total I os *ℤ ofr_value I k)
              (λ idx. walk I ss idx *ℤ ofr_value I k))
          (scale_axes k os ss n)
  unfolding scale_axes
  scale_axes_lem k [] [] rank n hk a c ho hs = record {
    offsets_index = tt;
    strides_index = tt;
    offsets_rank = a;
    strides_rank = c;
    offset = Congruent-of_eq (sym (zero-*ℤ _));
    step = λ idx. Congruent-of_eq (sym (zero-*ℤ _));
  }
  scale_axes_lem k (o ∷ os) (s ∷ ss) zero n hk a c ho hs = absurd (omega arith)
  scale_axes_lem k (o ∷ os) (s ∷ ss) (suc rank) n hk a c ho hs =
      Returns-bind _ (mul_ofrs o k n) _ (mul-Near I o k n ho.0 hk) λ offset i hx.
        Returns-bind _ (mul_ofrs s k i) _ (mul-Near I s k i hs.0 hk) λ stride j hy.
          Returns-bind _ (scale_axes k os ss j) _
            (scale_axes_lem k os ss rank j hk (omega arith) (omega arith) ho.1 hs.1)
            λ rest m hz. record {
              offsets_index = (hx.0, hz.offsets_index);
              strides_index = (hy.0, hz.strides_index);
              offsets_rank = ap suc hz.offsets_rank;
              strides_rank = ap suc hz.strides_rank;
              offset =
                  Congruent-trans (+ℤ-Congruent hx.1 hz.offset)
                    (Congruent-of_eq (sym (*ℤ-+ℤ_right _ _ _)));
              step = scale_step_lem k s stride ss rest.1 hy hz.step;
            }
  scale_axes_lem k [] (s ∷ ss) rank n hk a c ho hs = absurd (omega arith)
  scale_axes_lem k (o ∷ os) [] rank n hk a c ho hs = absurd (omega arith)
