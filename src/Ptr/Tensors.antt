-- ===== src/Ptr/Tensors.antt =====
-- Ranges, splats, expansions, broadcasts and dense constants: what their visitors return describes
-- them.
use mathlib.Core.Path.{subst}
use spine_triton.Prelude.{
  ℕ, suc, ◌+◌, ◌-◌, ◌/◌, ◌%◌, ◌^◌, ◌<◌, ◌==◌, Bool, true, false, ◌||◌, Option, none, some, List, [],
  ◌∷◌, ℤ, pos, ◌+ℤ◌, InRange, In64, length, ◌≡◌, refl, sym, ap, ◌∙◌, Congruent, Congruent-of_eq,
  Congruent-trans, one-*ℤ, zero-+ℤ, replicate, length-replicate, length-map, int_laws, arith,
  wrap_self,
}
use spine_triton.Ir.{
  Value, ElementType, integer, scalar, tensor, Interp, stretch, Returns, Returns-bind, M, ◌>>=◌,
  make_range, is_integer_ty, is_pointer_ty, index_ty, constant, integer_attr, dense_splat,
  half_range,
}
use spine_triton.Ofr.{Ofr, value, index_attr, IsIndex, constant_value, ofr_value}
use spine_triton.Mask.Coordinates.{InBounds}
use spine_triton.Ptr.State.{PtrState, has_value}
use spine_triton.Ptr.Visit.{
  extents, zeros, visit_make_range, visit_splat, splat_axes, offset_by_scalar,
}
use spine_triton.Ptr.Operand.{visit_const_splat, first_offset}
use spine_triton.Ptr.Meaning.{walk}
use spine_triton.Ptr.States.{IsIndexScalar, check-bind}
use spine_triton.Ptr.Operands.{no_some, suc_ne_zero}
use spine_triton.Ptr.Supported.{Describes, value_or_zero}
use spine_triton.Ptr.Axes.{zeros-IsIndex, no_modulos, total-zeros, walk-zeros}

suc_no_zero : {n : ℕ} → suc n ≡ 0 → ⊥
suc_no_zero h = omega arith

module _ (I : Interp) where
  -- A state of zeros with the scalar as its first offset describes a uniform tensor.
  abbrev pub filled : ℕ → List ℕ → Option Value → Option Value → Ofr → PtrState
  filled n ns source k o = record {
    offsets = o ∷ zeros (length ns);
    sizes = extents (n ∷ ns);
    strides = zeros (length (n ∷ ns));
    modulos = none ∷ replicate (length ns) none;
    source = source;
    scalar = k;
  }

  filled-Describes :
      (w : Value) (n : ℕ) (ns : List ℕ) (p : Bool) (source k : Option Value) (o : Ofr)
      → has_value source ≡ p
      → IsIndexScalar k
      → IsIndex o
      → ofr_value I o ≡ value_or_zero I k
      → ((idx : List ℕ)
          → InBounds (n ∷ ns) idx
          → Congruent (I.value w idx) (value_or_zero I source +ℤ value_or_zero I k))
      → Describes I (n ∷ ns) p (has_value k) w (filled n ns source k o)
  filled-Describes w n ns p source k o hs hk ho he hv = record {
    well = record {
      offsets_index = (ho, zeros-IsIndex (length ns));
      strides_index = zeros-IsIndex (length (n ∷ ns));
      offsets_rank = ap suc (length-replicate (length ns) _);
      sizes_rank = ap suc (length-map ns _);
      strides_rank = ap suc (length-replicate (length ns) _);
      modulos_rank = ap suc (length-replicate (length ns) _);
    };
    sizes_lem = refl;
    plain = no_modulos (length ns);
    source_lem = hs;
    scalar_lem = refl;
    index = hk;
    address = λ idx b. Congruent-trans (hv idx b) (
        Congruent-of_eq (
          rw (total-zeros I (length ns), walk-zeros I (suc (length ns)) idx, he) (omega int_laws)));
    same = λ q e idx b.
        Congruent-trans (hv idx b)
          (Congruent-of_eq (ap (λ t. value_or_zero I source +ℤ value_or_zero I t) e));
    flat = λ idx. Congruent-of_eq (
        walk-zeros I (suc (length ns)) (stretch (n ∷ ns) idx)
        ∙ sym (walk-zeros I (suc (length ns)) idx));
  }

  pub splat_lem :
      (v w : Value) (e : ElementType) (n : ℕ) (ns : List ℕ) (p u : Bool)
      (offsets sizes strides : List Ofr) (modulos : List (Option Value)) (source k : Option Value)
      (m : ℕ)
      → (is_integer_ty (scalar e) || is_pointer_ty (scalar e)) ≡ true
      → Describes I [] p u v (record {
        offsets = offsets;
        sizes = sizes;
        strides = strides;
        modulos = modulos;
        source = source;
        scalar = k;
      })
      → ((idx : List ℕ) → I.value w idx ≡ I.value v [])
      → Returns
          (λ t i. Describes I (n ∷ ns) p u w t)
          ((splat_axes (scalar e) (n ∷ ns) (record {
            offsets = offsets;
            sizes = sizes;
            strides = strides;
            modulos = modulos;
            source = source;
            scalar = k;
          })
              >>= λ t. offset_by_scalar t.scalar t)
            m)
  unfolding splat_axes offset_by_scalar
  splat_lem v w e n ns p u [] [] [] [] source none m ok h hw = rw ok (
      subst (λ b. Describes I (n ∷ ns) p b w (filled n ns source none (index_attr (pos 0))))
        h.scalar_lem
        (filled-Describes w n ns p source none (index_attr (pos 0)) h.source_lem tt (omega arith)
          refl λ idx b. Congruent-trans (Congruent-of_eq (hw idx)) (h.address [] tt)))
  splat_lem v w e n ns p u [] [] [] [] source (some k) m ok h hw =
      rw (ok, suc_ne_zero (length (zeros (length ns))))
        (subst (λ b. Describes I (n ∷ ns) p b w (filled n ns source (some k) (value k)))
          h.scalar_lem
          (filled-Describes w n ns p source (some k) (value k) h.source_lem h.index h.index refl
            λ idx b. Congruent-trans (Congruent-of_eq (hw idx)) (h.address [] tt)))
  splat_lem v w e n ns p u (o ∷ os) b c d source k m ok h hw =
      absurd (suc_no_zero h.well.offsets_rank)
  splat_lem v w e n ns p u [] (o ∷ os) c d source k m ok h hw =
      absurd (suc_no_zero h.well.sizes_rank)
  splat_lem v w e n ns p u [] [] (o ∷ os) d source k m ok h hw =
      absurd (suc_no_zero h.well.strides_rank)
  splat_lem v w e n ns p u [] [] [] (o ∷ os) source k m ok h hw =
      absurd (suc_no_zero h.well.modulos_rank)

  pub visit_splat_lem :
      (v w : Value) (e : ElementType) (n : ℕ) (ns : List ℕ) (p u : Bool) (visited : M PtrState)
      (m : ℕ)
      → (is_integer_ty (scalar e) || is_pointer_ty (scalar e)) ≡ true
      → Returns (λ s j. Describes I [] p u v s) (visited m)
      → ((idx : List ℕ) → I.value w idx ≡ I.value v [])
      → Returns
          (λ t i. Describes I (n ∷ ns) p u w t)
          (visit_splat (scalar e) (tensor (n ∷ ns) e) visited m)
  unfolding visit_splat
  visit_splat_lem v w e n ns p u visited m ok hv hw =
      Returns-bind (λ t i. Describes I (n ∷ ns) p u w t) (visited m) _ hv
        λ s j h.
          splat_lem v w e n ns p u s.offsets s.sizes s.strides s.modulos s.source s.scalar j ok h hw

  -- A dense constant.
  pub dense_lem :
      (i w n : ℕ) (ns : List ℕ) (z : ℤ) (m : ℕ)
      → InRange (half_range (integer w)) z
      → In64 z
      → Returns
          (λ s j.
            Describes I
              (n ∷ ns)
              false
              true
              (constant i (tensor (n ∷ ns) (integer w)) (dense_splat z))
              s)
          (visit_const_splat (tensor (n ∷ ns) (integer w)) (dense_splat z) m)
  unfolding visit_const_splat first_offset
  dense_lem i w n ns z m fits fits64 =
      filled-Describes _ n ns false none (some k) (value k) refl (refl, fits64) (refl, fits64) refl
        λ idx b. Congruent-of_eq (
          I.splat_constant_lem i (tensor (n ∷ ns) (integer w)) z idx
          ∙ wrap_self (half_range (integer w)) z fits
          ∙ sym (zero-+ℤ _ ∙ constant_value I m z fits64))
    where
      k : Value
      k = constant m index_ty (integer_attr z)

  stride_one :
      (s e k : ℕ)
      → 1 < k
      → s + k ≡ e
      → e < 2 ^ 31
      → (((e + 2 ^ 32 - s) % 2 ^ 32 + k - 1) / k == 1) ≡ true
  stride_one s e k h p q = grind arith

  -- A range.
  pub range_lem :
      (i s e k m : ℕ)
      → 1 < k
      → s + k ≡ e
      → e < 2 ^ 31
      → Returns
          (λ st j. Describes I (k ∷ []) false false (make_range i s e k) st)
          (visit_make_range s e k m)
  unfolding visit_make_range
  range_lem i s e k m h p q =
      check-bind (λ st j. Describes I (k ∷ []) false false (make_range i s e k) st) _ _ m
        (stride_one s e k h p q)
        (record {
          well = record {
            offsets_index = (omega arith, tt);
            strides_index = (omega arith, tt);
            offsets_rank = refl;
            sizes_rank = refl;
            strides_rank = refl;
            modulos_rank = refl;
          };
          sizes_lem = refl;
          plain = refl;
          source_lem = refl;
          scalar_lem = refl;
          index = tt;
          address = at;
          same = λ x ex idx b. absurd (no_some x ex);
          flat = flat_at;
        })
    where
      at :
          (idx : List ℕ)
          → InBounds (k ∷ []) idx
          → Congruent
              (I.value (make_range i s e k) idx)
              (pos 0 +ℤ (pos s +ℤ pos 0 +ℤ walk I (index_attr (pos 1) ∷ []) idx))
      at (j ∷ []) b = Congruent-of_eq (
          I.make_range_lem i s e k j b.0
          ∙ wrap_self (2 ^ 31) (pos (s + j)) (omega arith)
          ∙ rw (one-*ℤ (pos j)) (omega int_laws))
      at [] b = absurd b
      at (j ∷ j' ∷ r) b = absurd b.1

      flat_at :
          (idx : List ℕ)
          → Congruent
              (walk I (index_attr (pos 1) ∷ []) (stretch (k ∷ []) idx))
              (walk I (index_attr (pos 1) ∷ []) idx)
      flat_at [] = Congruent-of_eq refl
      flat_at (j ∷ r) = let e : (k == 1) ≡ false = ground arith in Congruent-of_eq (rw e refl)
