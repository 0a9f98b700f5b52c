-- ===== src/Ptr/Binary.antt =====
-- The visitors of sums, differences, products and tt.addptr: what they return describes the result.
use mathlib.Core.Path.{subst}
use spine_triton.Prelude.{
  ℕ, zero, suc, Bool, true, false, not, ◌&&◌, ◌||◌, Option, none, some, List, [], ◌∷◌, ◌+ℤ◌, ◌-ℤ◌,
  ◌*ℤ◌, length, ◌≡◌, refl, sym, ap, ◌==◌, ◌∙◌, Congruent, Congruent-of_eq, Congruent-trans,
  +ℤ-Congruent, -ℤ-Congruent, *ℤ_comm, int_laws, arith, zero-+ℤ,
}
use spine_triton.Ir.{Value, Interp, Returns, Returns-bind, Returns-map, M}
use spine_triton.Mask.Coordinates.{InBounds}
use spine_triton.Ptr.State.{PtrState, has_value}
use spine_triton.Ptr.Supported.{Describes}
use spine_triton.Ir.{ok}
use spine_triton.Ptr.Operand.{visit_addptr, align_offset}
use spine_triton.Ptr.State.{add_state, has_modulo, get_rank}
use spine_triton.Ptr.Visit.{visit_add, visit_sub, visit_mul}
use spine_triton.Ptr.States.{add_state_sound, sub_state_sound, get_rank_lem, check-bind}
use spine_triton.Ptr.Scaling.{mul_state_sound, ProductOf}
use spine_triton.Ptr.Operands.{combined-Describes, no_base}
use spine_triton.Ptr.Factors.{scaled-Describes, moved-Describes}

no_two_sources : (a b : Bool) → b ≡ false → (a && b) ≡ false
no_two_sources a b h = ground arith

no_wrapped : (x y a b : Bool) → a ≡ false → b ≡ false → not (x && a || y && b) ≡ true
no_wrapped x y a b h k = ground arith

no_alignment : (n m : ℕ) (s : PtrState) (i : ℕ) → m ≡ n → align_offset n m s i ≡ ok s i
unfolding align_offset
no_alignment zero zero s i h = refl
no_alignment (suc zero) (suc m) s i h = refl
no_alignment (suc (suc n)) m s i h = refl
no_alignment zero (suc m) s i h = cc
no_alignment (suc zero) zero s i h = absurd (omega arith)

module _ (I : Interp) where
  -- Sums, differences and products of tensors of integers or of pointers.
  module _ (v l r : Value) (n : ℕ) (ns : List ℕ) (p u u' : Bool) (lhs rhs : M PtrState) (m : ℕ)
      (hl : (i : ℕ) → Returns (λ s j. Describes I (n ∷ ns) p u l s) (lhs i))
      (hr : (i : ℕ) → Returns (λ s j. Describes I (n ∷ ns) false u' r s) (rhs i)) where
    sum_of :
        (sl sr : PtrState) (i : ℕ)
        → Describes I (n ∷ ns) p u l sl
        → Describes I (n ∷ ns) false u' r sr
        → ((idx : List ℕ)
            → InBounds (n ∷ ns) idx
            → Congruent (I.value v idx) (I.value l idx +ℤ I.value r idx))
        → Returns (λ s j. Describes I (n ∷ ns) p (u && u') v s) (add_state sl sr i)
    sum_of sl sr i dl dr hv =
        Returns-map {Q = λ s j. Describes I (n ∷ ns) p (u && u') v s} _
          (λ s j h.
            combined-Describes I (λ a b. a +ℤ b) (λ a b x y e f. +ℤ-Congruent e f)
              (λ a b x. omega int_laws) v l r n ns p u u' sl sr s dl dr hv h)
          (add_state_sound I sl sr (length (n ∷ ns)) i dl.well dr.well dl.index dr.index
            (no_two_sources _ _ dr.source_lem) (no_two_sources _ _ dr.plain))

    pub visit_add_lem :
        ((idx : List ℕ)
          → InBounds (n ∷ ns) idx
          → Congruent (I.value v idx) (I.value l idx +ℤ I.value r idx))
        → Returns (λ s j. Describes I (n ∷ ns) p (u && u') v s) (visit_add lhs rhs m)
    unfolding visit_add
    visit_add_lem hv = Returns-bind Q (lhs m) _ (hl m) λ sl i dl.
        Returns-bind Q (rhs i) _ (hr i) λ sr j dr.
          Returns-bind Q (get_rank sl j) _ (get_rank_lem sl (length (n ∷ ns)) j dl.well) λ k x hk.
            Returns-bind Q (get_rank sr x) _ (get_rank_lem sr (length (n ∷ ns)) x dr.well)
              λ k' y hk'.
                check-bind Q _ _ y
                  (no_wrapped (k == 1) (k' == 1) (has_modulo sl) (has_modulo sr) dl.plain dr.plain)
                  (sum_of sl sr y dl dr hv)
      where
        Q : PtrState → ℕ → Type 0
        Q s j = Describes I (n ∷ ns) p (u && u') v s

    pub visit_sub_lem :
        ((idx : List ℕ)
          → InBounds (n ∷ ns) idx
          → Congruent (I.value v idx) (I.value l idx -ℤ I.value r idx))
        → Returns (λ s j. Describes I (n ∷ ns) p (u && u') v s) (visit_sub lhs rhs m)
    unfolding visit_sub
    visit_sub_lem hv = Returns-bind Q (lhs m) _ (hl m) λ sl i dl.
        Returns-bind Q (rhs i) _ (hr i) λ sr j dr.
          Returns-map {Q = Q} _
            (λ s j h.
              combined-Describes I (λ a b. a -ℤ b) (λ a b x y e f. -ℤ-Congruent e f)
                (λ a b x. omega int_laws) v l r n ns p u u' sl sr s dl dr hv h)
            (sub_state_sound I sl sr (length (n ∷ ns)) j dl.well dr.well dl.index dr.index
              (no_two_sources _ _ dr.source_lem) (no_two_sources _ _ dr.plain))
      where
        Q : PtrState → ℕ → Type 0
        Q s j = Describes I (n ∷ ns) p (u && u') v s

    pub visit_addptr_lem :
        p ≡ true
        → ((idx : List ℕ)
            → InBounds (n ∷ ns) idx
            → Congruent (I.value v idx) (I.value l idx +ℤ I.value r idx))
        → Returns (λ s j. Describes I (n ∷ ns) p (u && u') v s) (visit_addptr lhs rhs m)
    unfolding visit_addptr
    visit_addptr_lem e hv = Returns-bind Q (lhs m) _ (hl m) λ sl i dl.
        Returns-bind Q (rhs i) _ (hr i) λ sr j dr.
          check-bind Q (has_value sl.source) _ j (dl.source_lem ∙ e) (
            Returns-bind Q (get_rank sl j) _ (get_rank_lem sl (length (n ∷ ns)) j dl.well) λ k x hk.
              Returns-bind Q (get_rank sr x) _ (get_rank_lem sr (length (n ∷ ns)) x dr.well)
                λ k' y hk'. rw (no_alignment k k' sr y (hk' ∙ sym hk)) (sum_of sl sr y dl dr hv))
      where
        Q : PtrState → ℕ → Type 0
        Q s j = Describes I (n ∷ ns) p (u && u') v s

  -- A scalar pointer and an integer.
  pub visit_addptr_scalar_lem :
      (v l r : Value) (u : Bool) (lhs rhs : M PtrState) (m : ℕ)
      → ((i : ℕ) → Returns (λ s j. Describes I [] true u l s) (lhs i))
      → ((i : ℕ) → Returns (λ s j. Describes I [] false true r s) (rhs i))
      → Congruent (I.value v []) (I.value l [] +ℤ I.value r [])
      → Returns (λ s j. Describes I [] true true v s) (visit_addptr lhs rhs m)
  unfolding visit_addptr
  visit_addptr_scalar_lem v l r u lhs rhs m hl hr hv = Returns-bind Q (lhs m) _ (hl m) λ sl i dl.
      Returns-bind Q (rhs i) _ (hr i) λ sr j dr.
        check-bind Q (has_value sl.source) _ j dl.source_lem (
          Returns-bind Q (get_rank sl j) _ (get_rank_lem sl 0 j dl.well) λ k x hk.
            Returns-bind Q (get_rank sr x) _ (get_rank_lem sr 0 x dr.well) λ k' y hk'.
              rw (no_alignment k k' sr y (hk' ∙ sym hk)) (
                Returns-map {Q = Q} _ (λ s j h. moved-Describes I v l r u sl sr s dl dr hv h)
                  (add_state_sound I sl sr 0 y dl.well dr.well dl.index dr.index
                    (no_two_sources _ _ dr.source_lem) (no_two_sources _ _ dr.plain))))
    where
      Q : PtrState → ℕ → Type 0
      Q s j = Describes I [] true true v s

  -- A product, with the uniform factor on either side.
  module _ (v l r : Value) (n : ℕ) (ns : List ℕ) (u : Bool) (sl sr s : PtrState)
      (dl : Describes I (n ∷ ns) false u l sl) (dr : Describes I (n ∷ ns) false (not u) r sr)
      (hv : (idx : List ℕ)
        → InBounds (n ∷ ns) idx
        → Congruent (I.value v idx) (I.value l idx *ℤ I.value r idx)) where
    factor_at :
        (p : Bool) (f k : Value) (sf : PtrState)
        → Describes I (n ∷ ns) false p f sf
        → sf.scalar ≡ some k
        → (idx : List ℕ) → InBounds (n ∷ ns) idx
        → Congruent (I.value f idx) (I.value k [])
    factor_at p f k sf d e idx b =
        Congruent-trans (d.same k e idx b)
          (Congruent-of_eq (rw (no_base I sf.source d.source_lem) (zero-+ℤ _)))

    product-Describes :
        (a b : Option Value)
        → sl.scalar ≡ a
        → sr.scalar ≡ b
        → ProductOf I sl sr s (suc (length ns)) a b
        → Describes I (n ∷ ns) false false v s
    product-Describes none none ea eb h = absurd h
    product-Describes (some x) (some y) ea eb h = absurd h
    product-Describes none (some y) ea eb h =
        let tensor_left : u ≡ false = sym dl.scalar_lem ∙ ap has_value ea in
        scaled-Describes I v l r y n ns sl s
          (subst (λ q. Describes I (n ∷ ns) false q l sl) tensor_left dl)
          (factor_at (not u) r y sr dr eb) hv h
    product-Describes (some x) none ea eb h =
        let tensor_right : not u ≡ false = sym dr.scalar_lem ∙ ap has_value eb in
        scaled-Describes I v r l x n ns sr s
          (subst (λ q. Describes I (n ∷ ns) false q r sr) tensor_right dr)
          (factor_at u l x sl dl ea)
          (λ idx b. Congruent-trans (hv idx b) (Congruent-of_eq (*ℤ_comm _ _))) h

  source_none : (o : Option Value) → has_value o ≡ false → o ≡ none
  source_none none h = refl
  source_none (some x) h = cc

  pub visit_mul_lem :
      (v l r : Value) (n : ℕ) (ns : List ℕ) (u : Bool) (lhs rhs : M PtrState) (m : ℕ)
      → ((i : ℕ) → Returns (λ s j. Describes I (n ∷ ns) false u l s) (lhs i))
      → ((i : ℕ) → Returns (λ s j. Describes I (n ∷ ns) false (not u) r s) (rhs i))
      → ((idx : List ℕ)
          → InBounds (n ∷ ns) idx
          → Congruent (I.value v idx) (I.value l idx *ℤ I.value r idx))
      → Returns (λ s j. Describes I (n ∷ ns) false false v s) (visit_mul lhs rhs m)
  unfolding visit_mul
  visit_mul_lem v l r n ns u lhs rhs m hl hr hv = Returns-bind Q (lhs m) _ (hl m) λ sl i dl.
      Returns-bind Q (rhs i) _ (hr i) λ sr j dr.
        Returns-map {Q = Q} _
          (λ s j h. product-Describes v l r n ns u sl sr s dl dr hv sl.scalar sr.scalar refl refl h)
          (mul_state_sound I sl sr (length (n ∷ ns)) j dl.well dr.well dl.index dr.index
            (source_none sl.source dl.source_lem)
            (dl.scalar_lem ∙ sym (not_not u) ∙ sym (ap not dr.scalar_lem)) dr.plain)
    where
      Q : PtrState → ℕ → Type 0
      Q s j = Describes I (n ∷ ns) false false v s

      not_not : (b : Bool) → not (not b) ≡ b
      not_not true = refl
      not_not false = refl
