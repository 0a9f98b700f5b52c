-- ===== src/Ptr/Operands.antt =====
-- Each visitor on operands whose states describe them.
use mathlib.Core.Path.{subst}
use spine_triton.Prelude.{
  ℕ, suc, ◌==◌, Bool, false, ◌&&◌, Option, none, some, List, [], ◌∷◌, ℤ, pos, ◌+ℤ◌, length,
  if◌then◌else◌, ◌≡◌, refl, ap, ap₂, zero-+ℤ, ◌∙◌, Congruent, Congruent-of_eq, Congruent-trans,
  Congruent-sym, +ℤ-Congruent, arith,
}
use spine_triton.Ir.{Value, Interp}
use spine_triton.Mask.Coordinates.{InBounds}
use spine_triton.Ptr.State.{PtrState, has_value, or_else, any_value, combine_modulos}
use spine_triton.Ptr.States.{Combined, ScalarOf, IsIndexScalar}
use spine_triton.Ptr.Supported.{Describes, value_or_zero}

pub combine_modulos_plain :
    (ms ns : List (Option Value))
    → any_value ms ≡ false
    → any_value ns ≡ false
    → any_value (combine_modulos ms ns) ≡ false
combine_modulos_plain [] ns h k = refl
combine_modulos_plain (m ∷ ms) [] h k = refl
combine_modulos_plain (none ∷ ms) (none ∷ ns) h k = combine_modulos_plain ms ns h k
combine_modulos_plain (some m ∷ ms) (n ∷ ns) h k = cc
combine_modulos_plain (none ∷ ms) (some n ∷ ns) h k = cc

pub suc_ne_zero : (n : ℕ) → (suc n == 0) ≡ false
suc_ne_zero n = ground arith

pub no_some {ℓ} : {A : Type ℓ} (a : A) → none ≡ some a → ⊥
no_some a h = cc

pub no_source_right : (a b : Option Value) → has_value b ≡ false → or_else a b ≡ a
no_source_right none none h = refl
no_source_right (some x) none h = refl
no_source_right a (some y) h = cc

module _ (I : Interp) where
  pub no_base : (b : Option Value) → has_value b ≡ false → value_or_zero I b ≡ pos 0
  no_base none h = refl
  no_base (some b) h = cc

  module _ (F : ℤ → ℤ → ℤ)
      (cong : (a b x y : ℤ) → Congruent a b → Congruent x y → Congruent (F a x) (F b y))
      (assoc : (a b x : ℤ) → F (a +ℤ b) x ≡ a +ℤ F b x) where
    no_scalar : (rank : ℕ) (o s : Option Value) → s ≡ (if suc rank == 0 then o else none) → s ≡ none
    no_scalar rank o s h = h ∙ ap (λ z. if z then o else none) (suc_ne_zero rank)

    combined_scalar :
        (rank : ℕ) (a b s : Option Value)
        → ScalarOf I F (suc rank) a b s
        → (has_value s ≡ (has_value a && has_value b)) × IsIndexScalar s
    combined_scalar rank none none s h = rw (no_scalar rank none s h) (refl, tt)
    combined_scalar rank none (some b) s h = rw (no_scalar rank (some b) s h) (refl, tt)
    combined_scalar rank (some a) none s h = rw (no_scalar rank (some a) s h) (refl, tt)
    combined_scalar rank (some a) (some b) s h = rw (h.1) (refl, h.2)

    -- A sum or a difference of two tensors of one shape, the right one of integers.
    module _ (v l r : Value) (n : ℕ) (ns : List ℕ) (p u u' : Bool) (sl sr s : PtrState)
        (hl : Describes I (n ∷ ns) p u l sl) (hr : Describes I (n ∷ ns) false u' r sr)
        (hv : (idx : List ℕ)
          → InBounds (n ∷ ns) idx
          → Congruent (I.value v idx) (F (I.value l idx) (I.value r idx)))
        (h : Combined I F sl sr s (suc (length ns))) where
      source_left : s.source ≡ sl.source
      source_left = h.source_lem ∙ no_source_right sl.source sr.source hr.source_lem

      -- What each side holds beyond the base.
      split :
          (idx : List ℕ) (x y : ℤ)
          → InBounds (n ∷ ns) idx
          → Congruent (I.value l idx) (value_or_zero I sl.source +ℤ x)
          → Congruent (I.value r idx) (value_or_zero I sr.source +ℤ y)
          → Congruent (I.value v idx) (value_or_zero I s.source +ℤ F x y)
      split idx x y b cl cr = Congruent-trans (hv idx b) (
          Congruent-trans (cong _ _ _ _ cl cr) (
            Congruent-of_eq
              (rw (source_left, no_base sr.source hr.source_lem, zero-+ℤ y) (assoc _ _ _))))

      same_at :
          (a b : Option Value) (k : Value) (idx : List ℕ)
          → sl.scalar ≡ a
          → sr.scalar ≡ b
          → ScalarOf I F (suc (length ns)) a b s.scalar
          → s.scalar ≡ some k
          → InBounds (n ∷ ns) idx
          → Congruent (I.value v idx) (value_or_zero I s.source +ℤ I.value k [])
      same_at none none k idx ea eb j e b =
          let z = no_scalar (length ns) none s.scalar j in absurd cc
      same_at none (some y) k idx ea eb j e b =
          let z = no_scalar (length ns) (some y) s.scalar j in absurd cc
      same_at (some x) none k idx ea eb j e b =
          let z = no_scalar (length ns) (some x) s.scalar j in absurd cc
      same_at (some x) (some y) k idx ea eb j e b =
          let (k', made, fits, near) = j in
          let found : k' ≡ k = cc in
          Congruent-trans (split idx _ _ b (hl.same x ea idx b) (hr.same y eb idx b)) (
            +ℤ-Congruent (Congruent-of_eq refl) (
              Congruent-sym (
                subst (λ q. Congruent (I.value q []) (F (I.value x []) (I.value y []))) found
                  near)))

      scalars :
          (has_value s.scalar ≡ (has_value sl.scalar && has_value sr.scalar))
          × IsIndexScalar s.scalar
      scalars = combined_scalar (length ns) sl.scalar sr.scalar s.scalar h.scalar_lem

      pub combined-Describes : Describes I (n ∷ ns) p (u && u') v s
      combined-Describes = record {
        well = h.well;
        sizes_lem = h.sizes_lem ∙ hl.sizes_lem;
        plain =
            ap any_value h.modulos_lem
            ∙ combine_modulos_plain sl.modulos sr.modulos hl.plain hr.plain;
        source_lem = ap has_value source_left ∙ hl.source_lem;
        scalar_lem = scalars.0 ∙ ap₂ (λ a b. a && b) hl.scalar_lem hr.scalar_lem;
        index = scalars.1;
        address = λ idx b.
            Congruent-trans (split idx _ _ b (hl.address idx b) (hr.address idx b))
              (+ℤ-Congruent (Congruent-of_eq refl) (Congruent-sym (h.displacement_lem idx)));
        same = λ k e idx b. same_at sl.scalar sr.scalar k idx refl refl h.scalar_lem e b;
        flat = λ idx. Congruent-trans (h.step_lem _) (
            Congruent-trans (cong _ _ _ _ (hl.flat idx) (hr.flat idx))
              (Congruent-sym (h.step_lem idx)));
      }
