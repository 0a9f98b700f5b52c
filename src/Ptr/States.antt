-- ===== src/Ptr/States.antt =====
-- addState, visitOperandSub and mulState against the sum, the difference and the product of what two
-- pointer states stand for.
use spine_triton.Prelude.{
  ℕ, zero, suc, Bool, true, false, not, ◌&&◌, ◌||◌, ◌==◌, if◌then◌else◌, Option, none, some, List,
  [], ◌∷◌, ℤ, ◌+ℤ◌, ◌-ℤ◌, length, ◌≡◌, refl, sym, ap, ◌∙◌, Congruent, Congruent-of_eq,
  Congruent-trans, +ℤ-Congruent, wrap, arith, wrap64, wrap64-Congruent,
}
use mathlib.Core.Path.{subst}
use spine_triton.Ir.{
  Value, BinaryOp, addi, subi, binary, Interp, M, Returns, Returns-bind, check, pure, then_do,
  element_of, half_range, element_type,
}
use spine_triton.Ofr.{Ofr, IsIndex, IsIndexValue, ofr_value, add_ofrs, sub_ofrs}
use spine_triton.Ptr.State.{
  PtrState, has_value, or_else, has_modulo, get_rank, combine_scalars, combine_modulos,
  combine_axes, combine_states, add_state, sub_state,
}
use spine_triton.Ptr.Meaning.{IsPtrState, walk, displacement}
use spine_triton.Ptr.Near.{Near, add-Near, sub-Near}
use spine_triton.Ptr.Sums.{IsMedial, +ℤ-IsMedial, -ℤ-IsMedial, combine_axes_lem}

pub check-bind {ℓ} :
    {A : Type ℓ} (Q : A → ℕ → Type 0) (b : Bool) (f : Unit {0} → M A) (n : ℕ)
    → b ≡ true
    → Returns Q (f tt n)
    → Returns Q (then_do (check b n) f)
check-bind Q true f n h r = r
check-bind Q false f n h r = cc

pub same_ℕ : (a b : ℕ) → a ≡ b → (a == b) ≡ true
same_ℕ a b h = ground arith

pub get_rank_lem :
    (s : PtrState) (rank n : ℕ) → IsPtrState s rank → Returns (λ r m. r ≡ rank) (get_rank s n)
unfolding get_rank
get_rank_lem s rank n h =
    check-bind (λ r m. r ≡ rank) _ (λ _. pure (length s.offsets)) n
      (rw
        (
          same_ℕ (length s.offsets) (length s.sizes) (h.offsets_rank ∙ sym h.sizes_rank),
          same_ℕ (length s.offsets) (length s.strides) (h.offsets_rank ∙ sym h.strides_rank),
          same_ℕ (length s.modulos) (length s.offsets) (h.modulos_rank ∙ sym h.offsets_rank),
        )
        refl)
      h.offsets_rank

length-combine_modulos :
    (ms ns : List (Option Value)) (rank : ℕ)
    → length ms ≡ rank
    → length ns ≡ rank
    → length (combine_modulos ms ns) ≡ rank
length-combine_modulos [] [] rank a b = a
length-combine_modulos (m ∷ ms) (n ∷ ns) zero a b = absurd (omega arith)
length-combine_modulos (m ∷ ms) (n ∷ ns) (suc rank) a b =
    ap suc (length-combine_modulos ms ns rank (omega arith) (omega arith))
length-combine_modulos [] (n ∷ ns) rank a b = absurd (omega arith)
length-combine_modulos (m ∷ ms) [] rank a b = absurd (omega arith)

either_modulo : (z a b : Bool) → (a && b) ≡ false → (z || not a || not b) ≡ true
either_modulo z a b h = ground arith

abbrev pub IsIndexScalar : Option Value → Type 0
IsIndexScalar none = Unit
IsIndexScalar (some v) = IsIndexValue v

module _ (I : Interp) where
  -- The scalar of a sum or a difference.
  abbrev pub ScalarOf : (ℤ → ℤ → ℤ) → ℕ → Option Value → Option Value → Option Value → Type 0
  ScalarOf F rank (some a) (some b) s =
      (k : Value) × (s ≡ some k)
      × IsIndexValue k
      × Congruent (I.value k []) (F (I.value a []) (I.value b []))
  ScalarOf F rank a b s = s ≡ (if rank == 0 then or_else a b else none)

  pub record Combined (F : ℤ → ℤ → ℤ) (l r s : PtrState) (rank : ℕ) : Type 0 where
    pub well : IsPtrState s rank
    pub sizes_lem : s.sizes ≡ l.sizes
    pub modulos_lem : s.modulos ≡ combine_modulos l.modulos r.modulos
    pub source_lem : s.source ≡ or_else l.source r.source
    pub scalar_lem : ScalarOf F rank l.scalar r.scalar s.scalar
    pub displacement_lem :
        (idx : List ℕ)
        → Congruent (displacement I s idx) (F (displacement I l idx) (displacement I r idx))
    pub step_lem :
        (idx : List ℕ)
        → Congruent (walk I s.strides idx) (F (walk I l.strides idx) (walk I r.strides idx))

  module _ (F : ℤ → ℤ → ℤ) (laws : IsMedial F) (op : BinaryOp) (f : Ofr → Ofr → M Ofr)
      (sound : (l r : Ofr) (n : ℕ)
        → IsIndex l
        → IsIndex r
        → Returns (λ o m. Near I o (F (ofr_value I l) (ofr_value I r))) (f l r n))
      (op_lem : (i : ℕ) (a b : Value)
        → I.value (binary i op a b) []
          ≡ wrap (half_range (element_of a)) (F (I.value a []) (I.value b []))) where
    combine_scalars_lem :
        (rank : ℕ) (a b : Option Value) (n : ℕ)
        → IsIndexScalar a
        → IsIndexScalar b
        → Returns (λ s m. ScalarOf F rank a b s) (combine_scalars op rank a b n)
    unfolding combine_scalars wrap64
    combine_scalars_lem rank (some a) (some b) n p q = (
      binary n op a b,
      refl,
      (p.0, tt),
      Congruent-trans
          (Congruent-of_eq (
            op_lem n a b
            ∙ ap (λ t. wrap (half_range (element_type t)) (F (I.value a []) (I.value b []))) p.0))
          (wrap64-Congruent _),
    )
    combine_scalars_lem rank none b n p q = refl
    combine_scalars_lem rank (some a) none n p q = refl

    pub combine_states_lem :
        (l r : PtrState) (rank n : ℕ)
        → IsPtrState l rank
        → IsPtrState r rank
        → IsIndexScalar l.scalar
        → IsIndexScalar r.scalar
        → (has_value l.source && has_value r.source) ≡ false
        → (has_modulo l && has_modulo r) ≡ false
        → Returns (λ s m. Combined F l r s rank) (combine_states op f l r n)
    unfolding combine_states
    combine_states_lem l r rank n hl hr sl sr one_source one_modulo =
        Returns-bind Q (get_rank l n) _ (get_rank_lem l rank n hl) λ k i hk.
          Returns-bind Q (get_rank r i) _ (get_rank_lem r rank i hr) λ k' j hk'.
            check-bind Q (k == k') _ j (same_ℕ k k' (hk ∙ sym hk')) (
              check-bind Q _ _ j (ap not one_source) (
                Returns-bind Q (combine_scalars op k l.scalar r.scalar j) _
                  (combine_scalars_lem k l.scalar r.scalar j sl sr)
                  λ scalar m hs.
                    check-bind Q _ _ m
                      (either_modulo (k == 0) (has_modulo l) (has_modulo r) one_modulo)
                      (Returns-bind Q (combine_axes f l.offsets r.offsets l.strides r.strides m) _
                        (combine_axes_lem I F laws f sound l.offsets r.offsets l.strides r.strides
                          rank m hl.offsets_rank hr.offsets_rank hl.strides_rank hr.strides_rank
                          hl.offsets_index hr.offsets_index hl.strides_index hr.strides_index)
                        λ axes o hx. record {
                          well = record {
                            offsets_index = hx.offsets_index;
                            strides_index = hx.strides_index;
                            offsets_rank = hx.offsets_rank;
                            sizes_rank = hl.sizes_rank;
                            strides_rank = hx.strides_rank;
                            modulos_rank =
                                length-combine_modulos l.modulos r.modulos rank hl.modulos_rank
                                  hr.modulos_rank;
                          };
                          sizes_lem = refl;
                          modulos_lem = refl;
                          source_lem = refl;
                          scalar_lem = subst (λ q. ScalarOf F q l.scalar r.scalar scalar) hk hs;
                          displacement_lem = λ idx.
                              Congruent-trans (+ℤ-Congruent hx.offset (hx.step idx))
                                (Congruent-of_eq (laws.exchange _ _ _ _));
                          step_lem = hx.step;
                        })))
      where
        Q : PtrState → ℕ → Type 0
        Q s m = Combined F l r s rank

  pub add_state_sound :
      (l r : PtrState) (rank n : ℕ)
      → IsPtrState l rank
      → IsPtrState r rank
      → IsIndexScalar l.scalar
      → IsIndexScalar r.scalar
      → (has_value l.source && has_value r.source) ≡ false
      → (has_modulo l && has_modulo r) ≡ false
      → Returns (λ s m. Combined (λ a b. a +ℤ b) l r s rank) (add_state l r n)
  unfolding add_state
  add_state_sound =
      combine_states_lem (λ a b. a +ℤ b) +ℤ-IsMedial addi add_ofrs (add-Near I)
        (λ i a b. I.addi_lem i a b [])

  -- The state that visitOperandSub makes of two states of one rank with index offsets and strides, at
  -- most one of them with a source and at most one with a modulo, has that rank, the left sizes, the
  -- source and the modulos of either, and, up to a multiple of 2^64 in every run, the difference of
  -- the displacements at every index and of the scalars where both have one; where only one has a
  -- scalar, it has that one at rank 0, not negated if it is the right one, and none at a higher rank.
  pub sub_state_sound :
      (l r : PtrState) (rank n : ℕ)
      → IsPtrState l rank
      → IsPtrState r rank
      → IsIndexScalar l.scalar
      → IsIndexScalar r.scalar
      → (has_value l.source && has_value r.source) ≡ false
      → (has_modulo l && has_modulo r) ≡ false
      → Returns (λ s m. Combined (λ a b. a -ℤ b) l r s rank) (sub_state l r n)
  unfolding sub_state
  sub_state_sound =
      combine_states_lem (λ a b. a -ℤ b) -ℤ-IsMedial subi sub_ofrs (sub-Near I)
        (λ i a b. I.subi_lem i a b [])
