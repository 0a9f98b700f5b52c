-- ===== src/Ptr/Wraparound/Chunks.antt =====
-- createSideBySideCastOps in lib/Analysis/PtrAnalysis.cpp: the elements that the two casts address.
use spine_triton.Prelude.{
  ℕ, ◌+◌, ◌-◌, ◌%◌, ◌^◌, ◌<◌, ◌≤◌, ◌==◌, Option, none, some, List, [], ◌∷◌, map, ℤ, pos, negsuc,
  ◌+ℤ◌, ◌*ℤ◌, *ℤ_comm, *ℤ-one, In64, Congruent, Congruent-trans, All, ◌≡◌, refl, ap, ◌∙◌, int_laws,
  arith,
}
use spine_triton.Ir.{Value, Interp, Returns, Returns-bind, Returns-map, ok}
use spine_triton.Ofr.{
  Ofr, attr, value, int_attr, other_attr, IsIndex, ofr_value, Operand, constant_value,
  ofr_to_index_value, ofrs_to_index_values, ofr_fits,
}
use spine_triton.Ptr.State.{PtrState, get_rank, accumulate_target_offset}
use spine_triton.Ptr.Meaning.{IsPtrState, total, walk}
use spine_triton.Ptr.Near.{accumulate_target_offset_sound}
use spine_triton.Ptr.States.{check-bind, get_rank_lem, same_ℕ}
use spine_triton.Ptr.Casts.{
  ReintCast, cast_of, dynamic_type, target_of, create_side_by_side_cast_ops, side_by_side_split,
}
use spine_triton.Ptr.Wraparound.{HoldsIndex, Wrapped, side_by_side_split_lem}

-- A state of two axes whose columns wrap around.
abbrev pub wrapping_state :
    List Ofr → Ofr → Ofr → Ofr → Ofr → Value → Value → Option Value → PtrState
wrapping_state offsets rows columns row_stride column_stride modulo base scalar = record {
  offsets = offsets;
  sizes = rows ∷ columns ∷ [];
  strides = row_stride ∷ column_stride ∷ [];
  modulos = none ∷ some modulo ∷ [];
  source = some base;
  scalar = scalar;
}

Congruent-exact : (z : ℤ) (t : ℕ) → In64 z → t < 2 ^ 61 → Congruent z (pos t) → z ≡ pos t
Congruent-exact (pos k) t f h c = ap pos (omega (arith, c.balance))
Congruent-exact (negsuc k) t f h c = absurd (omega (arith, c.balance))

module _ (I : Interp) where
  index_value_lem :
      (o : Ofr) (n : ℕ) → IsIndex o → Returns (λ v m. Operand I o v) (ofr_to_index_value o n)
  unfolding ofr_to_index_value
  index_value_lem (value v) n h = rw h.0 (record { is_index = h.0; same = refl })
  index_value_lem (attr (int_attr z)) n h = record {
    is_index = refl;
    same = constant_value I n z h;
  }
  index_value_lem (attr other_attr) n h = absurd h

  target_lem :
      (s : PtrState) (t n : ℕ)
      → All IsIndex s.offsets
      → t < 2 ^ 61
      → Congruent (total I s.offsets) (pos t)
      → Returns (λ v m. HoldsIndex I v (pos t)) (target_of s n)
  unfolding target_of
  target_lem s t n h small c =
      Returns-bind (λ v m. HoldsIndex I v (pos t)) (accumulate_target_offset s n) _
        (accumulate_target_offset_sound I s n h)
        λ o i near.
          Returns-map {Q = λ v j. HoldsIndex I v (pos t)} (ofr_to_index_value o i)
            (λ v j hv. (
              hv.is_index,
              hv.same ∙ Congruent-exact _ t (ofr_fits I o near.0) small (Congruent-trans near.1 c),
            ))
            (index_value_lem o i near.0)

  -- The element at a row and a column of a cast.
  abbrev pub element : ReintCast → ℕ → ℕ → ℤ
  element c i j = total I c.offsets +ℤ walk I c.strides (i ∷ j ∷ [])

  abbrev Steps : List Ofr → List Value → Type 0
  Steps [] [] = Unit
  Steps (o ∷ os) (v ∷ vs) = Operand I o v × Steps os vs
  Steps _ _ = ⊥

  steps_lem :
      (os : List Ofr) (n : ℕ)
      → All IsIndex os
      → Returns (λ vs m. Steps os vs) (ofrs_to_index_values os n)
  unfolding ofrs_to_index_values
  steps_lem [] n h = tt
  steps_lem (o ∷ os) n h =
      Returns-bind (λ vs m. Steps (o ∷ os) vs) (ofr_to_index_value o n) _ (index_value_lem o n h.0)
        λ v i hv.
          Returns-bind (λ vs m. Steps (o ∷ os) vs) (ofrs_to_index_values os i) _
            (steps_lem os i h.1) λ vs j hs. (hv, hs)

  -- Two casts to one base: `a` columns of the tile from its first on, and the other `b` columns. The
  -- row of the matrix starts at t - t mod n.
  pub record IsTwoChunks (base : Value) (rows row_stride : Ofr) (t n w : ℕ) (casts : List ReintCast)
      : Type 0 where
    pub first : ReintCast
    pub second : ReintCast
    pub made : casts ≡ first ∷ second ∷ []
    pub first_base : first.base ≡ base
    pub second_base : second.base ≡ base
    pub a : ℕ
    pub b : ℕ
    pub whole : a + b ≡ w
    pub first_sizes : map (ofr_value I) first.sizes ≡ ofr_value I rows ∷ pos a ∷ []
    pub second_sizes : map (ofr_value I) second.sizes ≡ ofr_value I rows ∷ pos b ∷ []
    pub first_reads :
        (i j : ℕ)
        → j < a
        → element first i j ≡ pos ((t - t % n) + (t % n + j) % n) +ℤ ofr_value I row_stride *ℤ pos i
    pub second_reads :
        (i j : ℕ)
        → j < b
        → element second i j
          ≡ pos ((t - t % n) + (t % n + (a + j)) % n) +ℤ ofr_value I row_stride *ℤ pos i

  element_lem :
      (o x y r : ℤ) (p k i j : ℕ)
      → o ≡ pos p
      → x ≡ r
      → y ≡ pos 1
      → p + j ≡ k
      → (o +ℤ pos 0) +ℤ (x *ℤ pos i +ℤ (y *ℤ pos j +ℤ pos 0)) ≡ pos k +ℤ r *ℤ pos i
  element_lem o x y r p k i j ho hx hy hk =
      rw (ho, hx, hy, *ℤ_comm (pos 1) (pos j), *ℤ-one (pos j), ← hk) (omega int_laws)

  -- createSideBySideCastOps of a state of two axes, whose columns wrap around and have stride 1, for
  -- a target, a width and a row's length n below 2^61, in a run where the tile does not reach beyond
  -- the end of the next row: it returns two casts to the base of the state, with all the rows, whose
  -- widths add up to the width of the tile, and the element at row i and column j of the tile, in the
  -- first cast and then in the second, is (x + j) mod n past the start of the target's row, x being
  -- the target's column, plus i row strides.
  pub create_side_by_side_cast_ops_sound :
      (offsets : List Ofr) (rows columns row_stride column_stride : Ofr) (modulo base : Value)
      (scalar : Option Value) (c d t n w m : ℕ)
      → IsPtrState
          (wrapping_state offsets rows columns row_stride column_stride modulo base scalar)
          2
      → IsIndex rows
      → IsIndex columns
      → Congruent (total I offsets) (pos t)
      → ofr_value I columns ≡ pos w
      → ofr_value I column_stride ≡ pos 1
      → I.value modulo [] ≡ pos n
      → 0 < n
      → t < 2 ^ 61
      → n < 2 ^ 61
      → w < 2 ^ 61
      → t % n + w ≤ n + n
      → Returns
          (λ casts k. IsTwoChunks base rows row_stride t n w casts)
          (create_side_by_side_cast_ops
            (wrapping_state offsets rows columns row_stride column_stride modulo base scalar)
            (c ∷ d ∷ [])
            m)
  unfolding create_side_by_side_cast_ops
  create_side_by_side_cast_ops_sound offsets rows columns row_stride column_stride modulo base
        scalar c d t n w m h hr hc ht hw one hn some_columns st sn sw reach =
      Returns-bind Q (get_rank s m) _ (get_rank_lem s 2 m h) λ k i hk.
        check-bind Q (k == 2) _ i (same_ℕ k 2 hk) (
          Returns-bind Q (target_of s i) _ (target_lem s t i h.offsets_index st ht) λ target i₁ h₁.
            Returns-bind Q (ofr_to_index_value rows i₁) _ (index_value_lem rows i₁ hr) λ rv i₂ h₂.
              Returns-bind Q (ofr_to_index_value columns i₂) _ (index_value_lem columns i₂ hc)
                λ cv i₃ h₃.
                  Returns-bind Q
                    (side_by_side_split target cv modulo (ofrs_to_index_values s.strides) i₃) _
                    (side_by_side_split_lem I (Steps s.strides) target cv modulo
                      (ofrs_to_index_values s.strides) t n w i₃ h₁ (h₃.is_index, h₃.same ∙ hw) hn
                      (λ j. steps_lem s.strides j h.strides_index) some_columns st sn sw reach)
                    λ r i₄ hs. chunks target rv r.0.0.0 r.0.0.1 r.0.1 r.1 i₄ h₁ h₂ hs.0 hs.1)
    where
      s : PtrState
      s = wrapping_state offsets rows columns row_stride column_stride modulo base scalar

      Q : List ReintCast → ℕ → Type 0
      Q casts k = IsTwoChunks base rows row_stride t n w casts

      chunks :
          (target rv d1 d2 y : Value) (steps : List Value) (k : ℕ)
          → HoldsIndex I target (pos t)
          → Operand I rows rv
          → Wrapped I t n w d1 d2 y
          → Steps s.strides steps
          → Returns Q (
              ok
                (cast_of (dynamic_type s (some c ∷ none ∷ [])) base target (rv ∷ d1 ∷ []) steps
                  ∷ cast_of (dynamic_type s (some c ∷ none ∷ [])) base y (rv ∷ d2 ∷ []) steps
                  ∷ [])
                k)
      chunks target rv d1 d2 y (x ∷ z ∷ []) k ht hr hs steps = record {
        first = _;
        second = _;
        made = refl;
        first_base = refl;
        second_base = refl;
        a = hs.a;
        b = hs.b;
        whole = hs.whole;
        first_sizes = rw (hr.same, hs.first_size) refl;
        second_sizes = rw (hr.same, hs.second_size) refl;
        first_reads = λ i j h.
            element_lem _ _ _ _ t _ i j ht.1 steps.0.same (steps.1.0.same ∙ one)
              (hs.first_reads j h);
        second_reads = λ i j h.
            element_lem _ _ _ _ (t - t % n) _ i j hs.row steps.0.same (steps.1.0.same ∙ one)
              (hs.second_reads j h);
      }
      chunks target rv d1 d2 y [] k ht hr hs steps = absurd steps
      chunks target rv d1 d2 y (x ∷ []) k ht hr hs steps = absurd steps.1
      chunks target rv d1 d2 y (x ∷ z ∷ u ∷ rest) k ht hr hs steps = absurd steps.1.1
