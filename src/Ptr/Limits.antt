-- ===== src/Ptr/Limits.antt =====
-- Two places where PtrAnalysis does not do what its other cases do.
use mathlib.Core.Path.{subst}
use spine_triton.Prelude.{
  ℕ, ◌+◌, ◌-◌, ◌/◌, ◌%◌, ◌^◌, leb, ◌<◌, Bool, true, false, not, ◌&&◌, ◌==◌, none, some, [], ◌∷◌,
  pos, ◌≡◌, refl, sym, ap, ◌∙◌, arith,
}
use spine_triton.Ir.{
  Value, tensor, integer, broadcast, make_range, Interp, M, Outcome, ok, failed, fault, then_do,
  check, Returns,
}
use spine_triton.Ofr.{value, index_attr, IsIndexValue}
use spine_triton.Ptr.State.{
  PtrState, has_value, has_modulo, any_value, get_rank, scale_axes, scale_state, mul_by_scalars,
  mul_state,
}
use spine_triton.Ptr.Visit.{Context, visit_broadcast, broadcast_sizes, visit_make_range}
use spine_triton.Ptr.Operand.{visit_operand, dispatch, unless_known}
use spine_triton.Ptr.Meaning.{IsPtrState}
use spine_triton.Ptr.States.{get_rank_lem, same_ℕ}
use spine_triton.Ptr.Scaling.{Scaled, ProductOf, mul_state_sound}
use spine_triton.Ptr.Products.{scale_axes_lem}

bind-fault {ℓ κ} :
    {A : Type ℓ} {B : Type κ} {P : A → ℕ → Type 0} (m : Outcome A) (f : A → M B)
    → Returns P m
    → ((a : A) (n : ℕ) → P a n → f a n ≡ fault)
    → then_do m f ≡ fault
bind-fault (ok a n) f h k = k a n h
bind-fault failed f h k = absurd h
bind-fault fault f h k = refl

check-false-fault {ℓ} :
    {B : Type ℓ} (b : Bool) (f : Unit {0} → M B) (n : ℕ) → b ≡ false → then_do (check b n) f ≡ fault
check-false-fault false f n h = refl
check-false-fault true f n h = cc

check-true-fault {ℓ} :
    {B : Type ℓ} (b : Bool) (f : Unit {0} → M B) (n : ℕ)
    → b ≡ true
    → f tt n ≡ fault
    → then_do (check b n) f ≡ fault
check-true-fault true f n h k = k
check-true-fault false f n h k = refl

unit_stride : (s : ℕ) → s + 1 < 2 ^ 31 → (((s + 1 + 2 ^ 32 - s) % 2 ^ 32 + 1 - 1) / 1 == 1) ≡ true
unit_stride s h = grind arith

module _ (I : Interp) where
  -- mulState of a factor (a state with a scalar and no modulo) and a tensor with a modulo and no scalar,
  -- both of one rank with index offsets and strides and no source, asserts, although with the operands
  -- swapped it returns the scaled tensor.
  pub mul_state_modulo_order :
      (f t : PtrState) (k : Value) (rank n : ℕ)
      → IsPtrState f rank
      → IsPtrState t rank
      → f.scalar ≡ some k
      → IsIndexValue k
      → t.scalar ≡ none
      → f.source ≡ none
      → t.source ≡ none
      → has_modulo f ≡ false
      → has_modulo t ≡ true
      → (mul_state f t n ≡ fault) × Returns (λ s m. Scaled I t k s rank) (mul_state t f n)
  unfolding mul_state mul_by_scalars scale_state
  mul_state_modulo_order f t k rank n hf ht sf hk st nf nt plain modulo = (faults, returns)
    where
      faults : mul_state f t n ≡ fault
      faults = bind-fault (get_rank f n) _ (get_rank_lem f rank n hf) λ a i ha.
          bind-fault (get_rank t i) _ (get_rank_lem t rank i ht) λ b j hb.
            check-true-fault (a == b) _ j (same_ℕ a b (ha ∙ sym hb)) (
              check-true-fault _ _ j (ap (λ o. not (has_value o && has_value t.source)) nf) (
                rw (sf, st)
                  (bind-fault (scale_axes (value k) t.offsets t.strides j) _
                    (scale_axes_lem I (value k) t.offsets t.strides rank j hk ht.offsets_rank
                      ht.strides_rank ht.offsets_index ht.strides_index)
                    λ axes m h. check-false-fault (not (any_value t.modulos)) _ m (ap not modulo))))

      returns : Returns (λ s m. Scaled I t k s rank) (mul_state t f n)
      returns =
          subst (λ o. Returns (λ s m. ProductOf I t f s rank o (some k)) (mul_state t f n)) st
            (subst (λ o. Returns (λ s m. ProductOf I t f s rank t.scalar o) (mul_state t f n)) sf
              (mul_state_sound I t f rank n ht hf (rw st tt) (rw sf hk) nt (rw (st, sf) refl)
                plain))

  -- For a range of one element that is broadcast to more, visitOperand returns a state with stride 1
  -- and the full size, although in every run the elements are all equal.
  pub unit_range_walked :
      (c : Context) (i j start n m : ℕ)
      → 1 < n
      → start + 1 < 2 ^ 31
      → ((v : Value) → c.known_ptrs v ≡ none)
      → Returns
          (λ s l. (s.strides ≡ index_attr (pos 1) ∷ []) × (s.sizes ≡ index_attr (pos n) ∷ []))
          (visit_operand c
            (broadcast i (tensor (n ∷ []) (integer 32)) (make_range j start (start + 1) 1))
            m)
        × ((k : ℕ)
            → I.value
                (broadcast i (tensor (n ∷ []) (integer 32)) (make_range j start (start + 1) 1))
                (k ∷ [])
              ≡ I.value (make_range j start (start + 1) 1) (0 ∷ []))
  unfolding visit_operand dispatch unless_known visit_broadcast broadcast_sizes visit_make_range
  unit_range_walked c i j start n m wide small known = (
    rw
        (
          known (broadcast i (tensor (n ∷ []) (integer 32)) (make_range j start (start + 1) 1)),
          known (make_range j start (start + 1) 1),
          unit_stride start small,
          fits,
          stretches,
        )
        (refl, refl),
    λ k.
        I.broadcast_lem i (tensor (n ∷ []) (integer 32)) (make_range j start (start + 1) 1) (k ∷ [])
          refl,
  )
    where
      fits : leb 1 n ≡ true
      fits = ground arith

      stretches : (1 == n) ≡ false
      stretches = ground arith
