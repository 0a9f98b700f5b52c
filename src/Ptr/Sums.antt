-- ===== src/Ptr/Sums.antt =====
-- The axes of sums and differences of pointer states, against those of the displacements.
use spine_triton.Prelude.{
  ℕ, zero, suc, List, [], ◌∷◌, ℤ, pos, ◌+ℤ◌, ◌-ℤ◌, ◌*ℤ◌, All, length, ◌≡◌, Congruent,
  Congruent-of_eq, Congruent-trans, +ℤ-Congruent, *ℤ-Congruent_left, *ℤ-+ℤ_right, *ℤ--ℤ_right,
  int_laws, arith, ap, sym,
}
use spine_triton.Ir.{Interp, M, Returns, Returns-bind}
use spine_triton.Ofr.{Ofr, IsIndex, ofr_value}
use spine_triton.Ptr.State.{combine_axes}
use spine_triton.Ptr.Meaning.{total, walk}
use spine_triton.Ptr.Near.{Near, IsAxes}

-- What both the sum and the difference have.
pub record IsMedial (F : ℤ → ℤ → ℤ) : Type 0 where
  pub at_zero : F (pos 0) (pos 0) ≡ pos 0
  pub exchange : (a b c d : ℤ) → F a b +ℤ F c d ≡ F (a +ℤ c) (b +ℤ d)
  pub scale : (a b x : ℤ) → F a b *ℤ x ≡ F (a *ℤ x) (b *ℤ x)

pub +ℤ-IsMedial : IsMedial (λ a b. a +ℤ b)
+ℤ-IsMedial = record {
  at_zero = omega int_laws;
  exchange = λ a b c d. omega int_laws;
  scale = *ℤ-+ℤ_right;
}

pub -ℤ-IsMedial : IsMedial (λ a b. a -ℤ b)
-ℤ-IsMedial = record {
  at_zero = omega int_laws;
  exchange = λ a b c d. omega int_laws;
  scale = *ℤ--ℤ_right;
}

module _ (I : Interp) where
  module _ (F : ℤ → ℤ → ℤ) (laws : IsMedial F) (f : Ofr → Ofr → M Ofr)
      (sound : (l r : Ofr) (n : ℕ)
        → IsIndex l
        → IsIndex r
        → Returns (λ o m. Near I o (F (ofr_value I l) (ofr_value I r))) (f l r n)) where
    step_lem :
        (s t u : Ofr) (ss ts us : List Ofr)
        → Near I u (F (ofr_value I s) (ofr_value I t))
        → ((idx : List ℕ) → Congruent (walk I us idx) (F (walk I ss idx) (walk I ts idx)))
        → (idx : List ℕ)
        → Congruent (walk I (u ∷ us) idx) (F (walk I (s ∷ ss) idx) (walk I (t ∷ ts) idx))
    step_lem s t u ss ts us h k [] = Congruent-of_eq (sym laws.at_zero)
    step_lem s t u ss ts us h k (i ∷ idx) =
        Congruent-trans (+ℤ-Congruent (*ℤ-Congruent_left (pos i) h.1) (k idx)) (
          Congruent-of_eq
            (rw (laws.scale (ofr_value I s) (ofr_value I t) (pos i)) (laws.exchange _ _ _ _)))

    pub combine_axes_lem :
        (os ps ss ts : List Ofr) (rank n : ℕ)
        → length os ≡ rank
        → length ps ≡ rank
        → length ss ≡ rank
        → length ts ≡ rank
        → All IsIndex os
        → All IsIndex ps
        → All IsIndex ss
        → All IsIndex ts
        → Returns
            (λ axes m.
              IsAxes I axes rank
                (F (total I os) (total I ps))
                (λ idx. F (walk I ss idx) (walk I ts idx)))
            (combine_axes f os ps ss ts n)
    unfolding combine_axes
    combine_axes_lem [] [] [] [] rank n a b c d ho hp hs ht = record {
      offsets_index = tt;
      strides_index = tt;
      offsets_rank = a;
      strides_rank = c;
      offset = Congruent-of_eq (sym laws.at_zero);
      step = λ idx. Congruent-of_eq (sym laws.at_zero);
    }
    combine_axes_lem (o ∷ os) (p ∷ ps) (s ∷ ss) (t ∷ ts) zero n a b c d ho hp hs ht =
        absurd (omega arith)
    combine_axes_lem (o ∷ os) (p ∷ ps) (s ∷ ss) (t ∷ ts) (suc rank) n a b c d ho hp hs ht =
        Returns-bind _ (f o p n) _ (sound o p n ho.0 hp.0) λ offset i hx.
          Returns-bind _ (f s t i) _ (sound s t i hs.0 ht.0) λ stride j hy.
            Returns-bind _ (combine_axes f os ps ss ts j) _
              (combine_axes_lem os ps ss ts rank j (omega arith) (omega arith) (omega arith)
                (omega arith) ho.1 hp.1 hs.1 ht.1)
              λ rest k hz. record {
                offsets_index = (hx.0, hz.offsets_index);
                strides_index = (hy.0, hz.strides_index);
                offsets_rank = ap suc hz.offsets_rank;
                strides_rank = ap suc hz.strides_rank;
                offset =
                    Congruent-trans (+ℤ-Congruent hx.1 hz.offset)
                      (Congruent-of_eq (laws.exchange _ _ _ _));
                step = step_lem s t stride ss ts rest.1 hy hz.step;
              }
    combine_axes_lem [] (p ∷ ps) ss ts rank n a b c d ho hp hs ht = absurd (omega arith)
    combine_axes_lem (o ∷ os) [] ss ts rank n a b c d ho hp hs ht = absurd (omega arith)
    combine_axes_lem [] [] (s ∷ ss) ts rank n a b c d ho hp hs ht = absurd (omega arith)
    combine_axes_lem [] [] [] (t ∷ ts) rank n a b c d ho hp hs ht = absurd (omega arith)
    combine_axes_lem (o ∷ os) (p ∷ ps) [] ts rank n a b c d ho hp hs ht = absurd (omega arith)
    combine_axes_lem (o ∷ os) (p ∷ ps) (s ∷ ss) [] rank n a b c d ho hp hs ht = absurd (omega arith)
