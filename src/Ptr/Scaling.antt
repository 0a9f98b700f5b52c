-- ===== src/Ptr/Scaling.antt =====
-- mulState against the product of what a pointer state stands for with a scalar.
use spine_triton.Prelude.{
  ℕ, false, not, ◌&&◌, ◌==◌, Option, none, some, List, [], ◌*ℤ◌, ◌≡◌, refl, sym, ap, ◌∙◌, Congruent,
  Congruent-of_eq, *ℤ-+ℤ_right, Congruent-trans, +ℤ-Congruent,
}
use spine_triton.Ir.{Value, Interp, Returns, Returns-bind}
use spine_triton.Ofr.{value, IsIndexValue}
use spine_triton.Ptr.State.{
  PtrState, has_value, any_value, has_modulo, get_rank, scale_state, scale_axes, mul_state,
  mul_by_scalars,
}
use spine_triton.Ptr.Meaning.{IsPtrState, walk, displacement}
use spine_triton.Ptr.Products.{scale_axes_lem}
use spine_triton.Ptr.States.{check-bind, same_ℕ, get_rank_lem, IsIndexScalar}

module _ (I : Interp) where
  pub record Scaled (tensor : PtrState) (k : Value) (s : PtrState) (rank : ℕ) : Type 0 where
    pub well : IsPtrState s rank
    pub sizes_lem : s.sizes ≡ tensor.sizes
    pub modulos_lem : s.modulos ≡ tensor.modulos
    pub source_lem : s.source ≡ none
    pub scalar_lem : s.scalar ≡ none
    pub displacement_lem :
        (idx : List ℕ)
        → Congruent (displacement I s idx) (displacement I tensor idx *ℤ I.value k [])
    pub step_lem :
        (idx : List ℕ)
        → Congruent (walk I s.strides idx) (walk I tensor.strides idx *ℤ I.value k [])

  scale_state_lem :
      (t : PtrState) (k : Value) (ms : List (Option Value)) (rank n : ℕ)
      → IsPtrState t rank
      → IsIndexValue k
      → any_value ms ≡ false
      → Returns (λ s m. Scaled t k s rank) (scale_state t k ms n)
  unfolding scale_state
  scale_state_lem t k ms rank n h hk hm =
      Returns-bind Q (scale_axes (value k) t.offsets t.strides n) _
        (scale_axes_lem I (value k) t.offsets t.strides rank n hk h.offsets_rank h.strides_rank
          h.offsets_index h.strides_index)
        λ axes i hx. check-bind Q _ _ i (ap not hm) (record {
          well = record {
            offsets_index = hx.offsets_index;
            strides_index = hx.strides_index;
            offsets_rank = hx.offsets_rank;
            sizes_rank = h.sizes_rank;
            strides_rank = hx.strides_rank;
            modulos_rank = h.modulos_rank;
          };
          sizes_lem = refl;
          modulos_lem = refl;
          source_lem = refl;
          scalar_lem = refl;
          displacement_lem = λ idx.
              Congruent-trans (+ℤ-Congruent hx.offset (hx.step idx))
                (Congruent-of_eq (sym (*ℤ-+ℤ_right _ _ _)));
          step_lem = hx.step;
        })
    where
      Q : PtrState → ℕ → Type 0
      Q s m = Scaled t k s rank

  -- Which operand is the tensor and which the factor.
  abbrev pub ProductOf : PtrState → PtrState → PtrState → ℕ → Option Value → Option Value → Type 0
  ProductOf l r s rank none (some b) = Scaled l b s rank
  ProductOf l r s rank (some a) none = Scaled r a s rank
  ProductOf l r s rank _ _ = ⊥

  -- mulState of two states of one rank with index offsets and strides, the left one without a source,
  -- exactly one with a scalar, the right one without a modulo, returns a state of that rank with the sizes and the
  -- modulos of the other operand and, up to a multiple of 2^64 in every run, its displacement at every
  -- index times the scalar.
  pub mul_state_sound :
      (l r : PtrState) (rank n : ℕ)
      → IsPtrState l rank
      → IsPtrState r rank
      → IsIndexScalar l.scalar
      → IsIndexScalar r.scalar
      → l.source ≡ none
      → (has_value l.scalar ≡ not (has_value r.scalar))
      → has_modulo r ≡ false
      → Returns (λ s m. ProductOf l r s rank l.scalar r.scalar) (mul_state l r n)
  unfolding mul_state mul_by_scalars
  mul_state_sound l r rank n hl hr sl sr no_source one_scalar no_modulo =
      Returns-bind Q (get_rank l n) _ (get_rank_lem l rank n hl) λ k i hk.
        Returns-bind Q (get_rank r i) _ (get_rank_lem r rank i hr) λ k' j hk'.
          check-bind Q (k == k') _ j (same_ℕ k k' (hk ∙ sym hk')) (
            check-bind Q _ _ j (ap (λ o. not (has_value o && has_value r.source)) no_source)
              (by_scalars l.scalar r.scalar j sl sr one_scalar))
    where
      Q : PtrState → ℕ → Type 0
      Q s m = ProductOf l r s rank l.scalar r.scalar

      by_scalars :
          (a b : Option Value) (j : ℕ)
          → IsIndexScalar a
          → IsIndexScalar b
          → (has_value a ≡ not (has_value b))
          → Returns (λ s m. ProductOf l r s rank a b) (mul_by_scalars a b l r j)
      by_scalars none (some b) j p q h = scale_state_lem l b r.modulos rank j hl q no_modulo
      by_scalars (some a) none j p q h = scale_state_lem r a r.modulos rank j hr p no_modulo
      by_scalars none none j p q h = cc
      by_scalars (some a) (some b) j p q h = cc
