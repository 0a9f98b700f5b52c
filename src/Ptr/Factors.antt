-- ===== src/Ptr/Factors.antt =====
-- The product of a tensor with a uniform one, and the sum of a scalar pointer with an integer.
use spine_triton.Prelude.{
  ℕ, suc, Bool, true, false, Option, none, some, List, [], ◌∷◌, ◌+ℤ◌, ◌*ℤ◌, length, ◌≡◌, refl, sym,
  ap, zero-+ℤ, ◌∙◌, Congruent, Congruent-of_eq, Congruent-trans, Congruent-sym, +ℤ-Congruent,
  *ℤ-Congruent, int_laws,
}
use spine_triton.Ir.{Value, Interp}
use spine_triton.Ofr.{IsIndexValue}
use spine_triton.Mask.Coordinates.{InBounds}
use spine_triton.Ptr.State.{PtrState, has_value, any_value}
use spine_triton.Ptr.Meaning.{displacement}
use spine_triton.Ptr.States.{Combined, ScalarOf, IsIndexScalar}
use spine_triton.Ptr.Scaling.{Scaled}
use spine_triton.Ptr.Supported.{Describes, value_or_zero, offset_at}
use spine_triton.Ptr.Operands.{combine_modulos_plain, no_source_right, no_base, no_some}

module _ (I : Interp) where
  module _ (v t f k : Value) (n : ℕ) (ns : List ℕ) (st s : PtrState)
      (ht : Describes I (n ∷ ns) false false t st)
      (hf : (idx : List ℕ) → InBounds (n ∷ ns) idx → Congruent (I.value f idx) (I.value k []))
      (hv : (idx : List ℕ)
        → InBounds (n ∷ ns) idx
        → Congruent (I.value v idx) (I.value t idx *ℤ I.value f idx))
      (h : Scaled I st k s (suc (length ns))) where
    product_at :
        (idx : List ℕ)
        → InBounds (n ∷ ns) idx
        → Congruent (I.value v idx) (displacement I st idx *ℤ I.value k [])
    product_at idx b = Congruent-trans (hv idx b) (
        *ℤ-Congruent
          (Congruent-trans (ht.address idx b)
            (Congruent-of_eq (rw (no_base I st.source ht.source_lem) (zero-+ℤ _))))
          (hf idx b))

    pub scaled-Describes : Describes I (n ∷ ns) false false v s
    scaled-Describes = record {
      well = h.well;
      sizes_lem = h.sizes_lem ∙ ht.sizes_lem;
      plain = ap any_value h.modulos_lem ∙ ht.plain;
      source_lem = ap has_value h.source_lem;
      scalar_lem = ap has_value h.scalar_lem;
      index = rw h.scalar_lem tt;
      address = λ idx b. Congruent-trans (product_at idx b) (
          Congruent-trans (Congruent-sym (h.displacement_lem idx))
            (Congruent-of_eq (rw h.source_lem (sym (zero-+ℤ _)))));
      same = λ q e idx b. absurd (no_some q (sym h.scalar_lem ∙ e));
      flat = λ idx. Congruent-trans (h.step_lem _) (
          Congruent-trans (*ℤ-Congruent (ht.flat idx) (Congruent-of_eq refl))
            (Congruent-sym (h.step_lem idx)));
    }

  -- A scalar pointer and an integer.
  module _ (v p o : Value) (u : Bool) (sp so s : PtrState) (hp : Describes I [] true u p sp)
      (ho : Describes I [] false true o so)
      (hv : Congruent (I.value v []) (I.value p [] +ℤ I.value o []))
      (h : Combined I (λ a b. a +ℤ b) sp so s 0) where
    source_kept : s.source ≡ sp.source
    source_kept = h.source_lem ∙ no_source_right sp.source so.source ho.source_lem

    -- The sum of the scalars is a scalar.
    scalar_sum :
        (a b : Option Value)
        → has_value b ≡ true
        → IsIndexScalar b
        → ScalarOf I (λ x y. x +ℤ y) 0 a b s.scalar
        → (k : Value) × (s.scalar ≡ some k)
          × IsIndexValue k
          × Congruent (I.value k []) (value_or_zero I a +ℤ value_or_zero I b)
    scalar_sum none none e q j = cc
    scalar_sum (some x) none e q j = cc
    scalar_sum none (some y) e q j = (y, j, q, Congruent-of_eq (sym (zero-+ℤ _)))
    scalar_sum (some x) (some y) e q j = j

    module _ (k : Value) (made : s.scalar ≡ some k)
        (sum : Congruent (I.value v []) (value_or_zero I s.source +ℤ I.value k [])) where
      at_nil :
          (idx : List ℕ)
          → InBounds [] idx
          → Congruent (I.value v idx) (value_or_zero I s.source +ℤ offset_at I [] s idx)
      at_nil [] b = rw made sum
      at_nil (i ∷ idx) b = absurd b

      same_scalar :
          (q : Value)
          → s.scalar ≡ some q
          → (idx : List ℕ) → InBounds [] idx
          → Congruent (I.value v idx) (value_or_zero I s.source +ℤ I.value q [])
      same_scalar q e [] b = let found : k ≡ q = cc in rw (← found) sum
      same_scalar q e (i ∷ idx) b = absurd b

    pub moved-Describes : Describes I [] true true v s
    moved-Describes =
        let (k, made, fits, near) =
          scalar_sum sp.scalar so.scalar ho.scalar_lem ho.index h.scalar_lem in
        let sum : Congruent (I.value v []) (value_or_zero I s.source +ℤ I.value k []) =
          Congruent-trans hv (
            Congruent-trans (+ℤ-Congruent (hp.address [] tt) (ho.address [] tt)) (
              Congruent-trans
                (Congruent-of_eq
                  (rw (source_kept, no_base I so.source ho.source_lem) (omega int_laws)))
                (+ℤ-Congruent (Congruent-of_eq refl) (Congruent-sym near)))) in
        record {
          well = h.well;
          sizes_lem = h.sizes_lem ∙ hp.sizes_lem;
          plain =
              ap any_value h.modulos_lem
              ∙ combine_modulos_plain sp.modulos so.modulos hp.plain ho.plain;
          source_lem = ap has_value source_kept ∙ hp.source_lem;
          scalar_lem = ap has_value made;
          index = rw made fits;
          address = at_nil k made sum;
          same = same_scalar k made sum;
          flat = λ idx. Congruent-trans (h.step_lem _) (
              Congruent-trans (+ℤ-Congruent (hp.flat idx) (ho.flat idx))
                (Congruent-sym (h.step_lem idx)));
        }
