-- ===== src/Mask/Limits.antt =====
-- Where the sizes of the mask analysis are not the mask: a range of one element, and a constant under
-- andi.
use spine_triton.Prelude.{
  or_true, suc, not, Bool, All, if◌then◌else◌, ◌↔◌, ◌<ℤ◌, min_ℤ, ℕ, ◌+◌, ◌-◌, ◌/◌, ◌%◌, ◌^◌, ◌<◌,
  ◌==◌, List, [], ◌∷◌, true, false, ℤ, pos, ◌≤ℤ◌, ltb_ℤ, some, none, wrap_self, ◌≡◌, refl, ap, ◌∙◌,
  arith,
}
use spine_triton.Ir.{
  is_set, element_type, Value, tensor, i1, type_of, cmpi, slt, binary, andi, constant, dense_splat,
  make_range, bit, Interp, Returns, Returns-bind, Returns-map,
}
use spine_triton.Ofr.{
  ofr_value, IsIndex, Ofr, index_attr, min_ofrs, max_ofrs, min_ofrs_sound, max_ofrs_sound,
  sub_ofrs_sound,
}
use spine_triton.Mask.State.{
  MaskState, dims_only, is_mask, min_state_scalar, min_by_scalars, min_first_right, min_right,
}
use spine_triton.Mask.Parse.{
  parse, parse_cmp, parse_and, parse_make_range, cmp_states, clamp_dim, find_cmp_dim, scalar_or,
  shape_dims, parse_constant, scalar_state,
}
use spine_triton.Mask.Meaning.{IsUniform, IsMasked, KeepsUnits, Below}
use spine_triton.Mask.Supported.{Uniform, Masked}
use spine_triton.Mask.Sound.{parse-Masked_sound}
use spine_triton.Mask.Uniforms.{parse-Uniform}

unit_stride : (s : ℕ) → s + 1 < 2 ^ 31 → ((((s + 1 + 2 ^ 32 - s) % 2 ^ 32 + 1 - 1) / 1) == 1) ≡ true
unit_stride s h = ground arith

module _ (I : Interp) where
  abbrev unit_range : ℕ → MaskState
  unit_range s = record {
    start = some (index_attr (pos s));
    end = some (index_attr (pos (s + 1)));
    dims = index_attr (pos 1) ∷ [];
    scalar = none;
  }

  unit_clamp :
      (r : Value) (s n : ℕ) (sr : MaskState)
      → IsUniform I r sr
      → s + 1 < 2 ^ 31
      → Returns (λ d m. Unit) (clamp_dim (unit_range s) sr n)
  unfolding clamp_dim
  unit_clamp r s n sr u h = rw (ap (λ t. t.scalar) u.made) (
      Returns-bind _ (min_ofrs (index_attr (pos (s + 1))) u.number n) _
        (min_ofrs_sound I (index_attr (pos (s + 1))) u.number n (omega arith) u.is_index)
        λ a n₁ ha.
          Returns-bind _ (max_ofrs a (index_attr (pos s)) n₁) _
            (max_ofrs_sound I a (index_attr (pos s)) n₁ ha.0 (omega arith))
            λ b n₂ hb.
              Returns-map {Q = λ d m. Unit} _ (λ d m p. tt)
                (sub_ofrs_sound I b (index_attr (pos s)) n₂ hb.0 (omega arith)))

  unit_cmp :
      (r : Value) (s n : ℕ) (sr : MaskState)
      → IsUniform I r sr
      → s + 1 < 2 ^ 31
      → Returns
          (λ st m. st ≡ dims_only (index_attr (pos 1) ∷ []))
          (cmp_states slt (unit_range s) sr n)
  unfolding cmp_states find_cmp_dim
  unit_cmp r s n sr u h =
      Returns-bind _ (clamp_dim (unit_range s) sr n) _ (unit_clamp r s n sr u h) λ d m p. refl

  -- A range of one element compared with a uniform tensor keeps its one element whatever the bound, also
  -- where the bound is not above it and the mask is therefore false.
  pub unit_range_unmasked :
      (i j s n : ℕ) (r : Value)
      → Uniform I r
      → s + 1 < 2 ^ 31
      → I.value r (0 ∷ []) ≤ℤ pos s
      → Returns
          (λ st m. st ≡ dims_only (index_attr (pos 1) ∷ []))
          (parse (cmpi i slt (make_range j s (s + 1) 1) r) n)
        × (I.value (cmpi i slt (make_range j s (s + 1) 1) r) (0 ∷ []) ≡ bit false)
  unfolding parse parse_cmp scalar_or parse_make_range
  unit_range_unmasked i j s n r u h b = (
    rw (unit_stride s h)
        (Returns-bind _ (parse r n) _ (parse-Uniform I n u) λ sr n₁ ur. unit_cmp r s n₁ sr ur h),
    I.cmpi_lem i slt (make_range j s (s + 1) 1) r (0 ∷ [])
        ∙ ap bit (below_false (I.value r (0 ∷ [])) start b),
  )
    where
      start : I.value (make_range j s (s + 1) 1) (0 ∷ []) ≡ pos s
      start =
          I.make_range_lem j s (s + 1) 1 0 (omega arith)
          ∙ wrap_self (2 ^ 31) (pos (s + 0)) (omega arith)
          ∙ ap pos (omega arith)

      below_false : {a : ℤ} (b : ℤ) → a ≡ pos s → b ≤ℤ pos s → ltb_ℤ a b ≡ false
      below_false b e h = rw e (ground arith)

if_zero : (b : Bool) (z : ℤ) → z ≡ pos 0 → (if b then z else pos 0) ≡ pos 0
if_zero true z h = h
if_zero false z h = refl

module _ (I : Interp) where
  -- A size that keeps the elements of `l` below it, of `k` of them.
  abbrev pub Keeps : Value → ℕ → Ofr → Type 0
  Keeps l k e = (j : ℕ) → j < k → (is_set (I.value l (j ∷ [])) ≡ true) ↔ (pos j <ℤ ofr_value I e)

  below_min : (j k : ℕ) (a b : ℤ) → j < k → b ≡ min_ℤ a (pos k) → (pos j <ℤ a) ↔ (pos j <ℤ b)
  below_min j k a b h e = (λ p. rw e (ground arith), λ p. ground (arith, rw e at p))

  keep_sizes :
      (k n : ℕ) (l : Value) (sizes : List Ofr)
      → KeepsUnits I (k ∷ []) sizes
      → All IsIndex sizes
      → ((j : ℕ) → j < k → (is_set (I.value l (j ∷ [])) ≡ true) ↔ Below I sizes (j ∷ []))
      → k < 2 ^ 31
      → Returns
          (λ t m. (e : Ofr) × (t ≡ dims_only (e ∷ [])) × Keeps l k e)
          (min_state_scalar
            (dims_only sizes)
            (scalar_state (index_attr (pos 0)) (shape_dims (k ∷ [])))
            n)
  unfolding min_state_scalar min_by_scalars min_first_right min_right
  keep_sizes k n l (d ∷ []) u x h small =
      Returns-bind (λ t m. (e : Ofr) × (t ≡ dims_only (e ∷ [])) × Keeps l k e)
        (min_right (d ∷ []) (index_attr (pos k)) n) _
        (Returns-bind (λ es m. (e : Ofr) × (es ≡ e ∷ []) × Keeps l k e)
          (min_ofrs d (index_attr (pos k)) n) _
          (min_ofrs_sound I d (index_attr (pos k)) n x.0 (omega arith))
          λ e m he. (
            e,
            refl,
            λ j lt.
                let below = below_min j k (ofr_value I d) (ofr_value I e) lt he.1 in
                (λ set. below.0 ((h j lt).0 set).0, λ b. (h j lt).1 (below.1 b, tt)),
          ))
        λ es m p. (p.0, ap dims_only p.1, p.2)
  keep_sizes k n l [] u x h small = absurd u
  keep_sizes k n l (d ∷ e ∷ ds) u x h small = absurd u.1

  keep :
      (k n : ℕ) (l : Value) (s : MaskState)
      → IsMasked I l s
      → type_of l ≡ tensor (k ∷ []) i1
      → k < 2 ^ 31
      → Returns
          (λ t m. (e : Ofr) × (t ≡ dims_only (e ∷ [])) × Keeps l k e)
          (min_state_scalar s (scalar_state (index_attr (pos 0)) (shape_dims (k ∷ []))) n)
  keep k n l s h t small = rw h.made (
      keep_sizes k n l h.sizes (rw t at h.units) h.all_index
        (λ j lt. h.exact (j ∷ []) (rw t (lt, tt))) small)

  -- A supported mask of one axis that is joined by andi with a constant false parses to the size that
  -- keeps exactly the elements which are set in the mask, although every element of the conjunction is
  -- 0 in every run.
  pub and_false_unmasked :
      (i c n k : ℕ) (l : Value)
      → Masked I l
      → type_of l ≡ tensor (k ∷ []) i1
      → k < 2 ^ 31
      → Returns
          (λ t m. (e : Ofr) × (t ≡ dims_only (e ∷ [])) × Keeps l k e)
          (parse (binary i andi l (constant c (tensor (k ∷ []) i1) (dense_splat (pos 0)))) n)
        × ((idx : List ℕ)
            → I.value (binary i andi l (constant c (tensor (k ∷ []) i1) (dense_splat (pos 0)))) idx
              ≡ pos 0)
  unfolding parse parse_and parse_constant scalar_or
  and_false_unmasked i c n k l h t small = (
    rw t (
        Returns-bind _ (parse l n) _ (parse-Masked_sound I n h)
          λ s m hs. rw (or_true (not (is_mask s))) (keep k (suc m) l s hs t small)),
    λ idx.
        I.andi_lem i l (constant c (tensor (k ∷ []) i1) (dense_splat (pos 0))) idx
          (ap element_type t) refl
        ∙ if_zero (is_set (I.value l idx)) _ (
            I.splat_constant_lem c (tensor (k ∷ []) i1) (pos 0) idx
            ∙ wrap_self 1 (pos 0) (omega arith)),
  )
