-- ===== src/Mask/Boxes.antt =====
-- The boxes of masks under broadcast and a splatted i1.
use spine_triton.Prelude.{
  ℕ, suc, ◌^◌, ◌≤◌, ◌<◌, ◌==◌, length, All, List, [], ◌∷◌, true, false, if◌then◌else◌, pos, ◌<ℤ◌,
  ◌⊎◌, inl, inr, ◌↔◌, ◌≡◌, refl, ap₂, ◌∙◌, arith,
}
use spine_triton.Ir.{
  Value, index_ty, select, is_set, stretch, Interp, Returns, Returns-bind, constant, integer_attr,
}
use spine_triton.Ofr.{
  Ofr, value, index_attr, IsIndex, ofr_value, constant_value, ofr_to_index_value,
}
use spine_triton.Mask.Parse.{broadcast_dims, select_dims}
use spine_triton.Mask.Coordinates.{InBounds, Stretches}
use spine_triton.Mask.Meaning.{Below, KeepsUnits}
use spine_triton.Mask.Meets.{
  same_test, other_test, one_test, kept_coordinate, not_shrunk, stretched_index,
}

module _ (I : Interp) where
  -- broadcast: the stretched extents replace the sizes 1.
  pub record IsStretch (from to : List ℕ) (ds es : List Ofr) : Type 0 where
    pub all_index : All IsIndex es
    pub units : KeepsUnits I to es
    pub exact : (idx : List ℕ) → InBounds to idx → Below I es idx ↔ Below I ds (stretch from idx)

  stretched_size : ℕ → ℕ → Ofr → Ofr
  stretched_size m n d = if m == n then d else index_attr (pos n)

  stretched_units :
      (m n : ℕ) (d : Ofr)
      → ((m ≡ n) ⊎ ((m ≡ 1) × (1 < n)))
      → (m ≡ 1 → ofr_value I d ≡ pos 1)
      → n ≡ 1
      → ofr_value I (stretched_size m n d) ≡ pos 1
  unfolding stretched_size
  stretched_units m n d s u e = ground (arith, u)

  stretched_below :
      (m n i : ℕ) (d : Ofr)
      → ((m ≡ n) ⊎ ((m ≡ 1) × (1 < n)))
      → (m ≡ 1 → ofr_value I d ≡ pos 1)
      → i < n
      → (pos i <ℤ ofr_value I (stretched_size m n d))
        ↔ (pos (if m == 1 then 0 else i) <ℤ ofr_value I d)
  unfolding stretched_size
  stretched_below m n i d (inl e) u h =
      rw (same_test m n e, kept_coordinate m n i e h) ((λ p. p), (λ p. p))
  stretched_below m n i d (inr p) u h =
      rw (other_test m n p.0 p.1, one_test m p.0, u p.0) ((λ q. omega arith), (λ q. omega arith))

  pub broadcast_dims_lem :
      (from to : List ℕ) (ds : List Ofr) (n : ℕ)
      → Stretches from to
      → KeepsUnits I from ds
      → All IsIndex ds
      → All (λ k. k < 2 ^ 31) to
      → Returns (λ es m. IsStretch from to ds es) (broadcast_dims from to ds n)
  unfolding broadcast_dims stretched_size
  broadcast_dims_lem [] [] [] n s u h k = record {
    all_index = tt;
    units = tt;
    exact = λ idx b. nothing idx b;
  }
    where
      nothing : (idx : List ℕ) → InBounds [] idx → Below I [] idx ↔ Below I [] (stretch [] idx)
      nothing [] b = ((λ p. p), (λ p. p))
      nothing (i ∷ idx) b = absurd b
  broadcast_dims_lem (x ∷ xs) (y ∷ ys) (d ∷ ds) n s u h k = rw (not_shrunk x y s.0) (
      Returns-bind _ (broadcast_dims xs ys ds n) _ (broadcast_dims_lem xs ys ds n s.1 u.1 h.1 k.1)
        λ es n₁ r. record {
          all_index = (stretched_index x y d h.0 k.0, r.all_index);
          units = (stretched_units x y d s.0 u.0, r.units);
          exact = at es r;
        })
    where
      at :
          (es : List Ofr)
          → IsStretch xs ys ds es
          → (idx : List ℕ) → InBounds (y ∷ ys) idx
          → Below I (stretched_size x y d ∷ es) idx ↔ Below I (d ∷ ds) (stretch (x ∷ xs) idx)
      at es r [] b = absurd b
      at es r (i ∷ idx) b =
          let head = stretched_below x y i d s.0 u.0 b.0 in
          let rest = r.exact idx b.1 in
          ((λ p. (head.0 p.0, rest.0 p.1)), (λ p. (head.1 p.0, rest.1 p.1)))
  broadcast_dims_lem [] [] (d ∷ ds) n s u h k = absurd u
  broadcast_dims_lem (x ∷ xs) (y ∷ ys) [] n s u h k = absurd u
  broadcast_dims_lem [] (y ∷ ys) ds n s u h k = absurd s
  broadcast_dims_lem (x ∷ xs) [] ds n s u h k = absurd s

  -- A splatted i1: every size is the extent or 0.
  pub record IsSwitch (v : Value) (ns : List ℕ) (ds : List Ofr) : Type 0 where
    pub all_index : All IsIndex ds
    pub units : KeepsUnits I ns ds
    pub all_on : is_set (I.value v []) ≡ true → (idx : List ℕ) → InBounds ns idx → Below I ds idx
    pub all_off : is_set (I.value v []) ≡ false → 0 < length ns → (idx : List ℕ) → ¬ Below I ds idx

  switch_value :
      (v : Value) (x n : ℕ)
      → x < 2 ^ 31
      → I.value
          (select
            (suc (suc n))
            v
            (constant n index_ty (integer_attr (pos x)))
            (constant (suc n) index_ty (integer_attr (pos 0))))
          []
        ≡ (if is_set (I.value v []) then pos x else pos 0)
  switch_value v x n h =
      I.select_lem (suc (suc n)) v _ _ refl
      ∙ ap₂ (λ a b. if is_set (I.value v []) then a else b)
          (constant_value I n (pos x) (omega arith))
          (constant_value I (suc n) (pos 0) (omega arith))

  pub select_dims_lem :
      (v : Value) (ns : List ℕ) (n : ℕ)
      → All (λ k. (2 ≤ k) × (k < 2 ^ 31)) ns
      → Returns (λ ds m. IsSwitch v ns ds) (select_dims v ns n)
  unfolding select_dims ofr_to_index_value
  select_dims_lem v [] n h = record {
    all_index = tt;
    units = tt;
    all_on = λ e idx b. nothing idx b;
    all_off = λ e lt. absurd (omega arith);
  }
    where
      nothing : (idx : List ℕ) → InBounds [] idx → Below I [] idx
      nothing [] b = tt
      nothing (i ∷ idx) b = absurd b
  select_dims_lem v (x ∷ xs) n h =
      Returns-bind _ (select_dims v xs (suc (suc (suc n)))) _
        (select_dims_lem v xs (suc (suc (suc n))) h.1)
        λ ds m r. record {
          all_index = ((refl, tt), r.all_index);
          units = ((λ e. absurd (omega (arith, h.0.0))), r.units);
          all_on = λ e idx b. on ds r e idx b;
          all_off = λ e lt idx p. off ds e idx p;
        }
    where
      d : Ofr
      d = value (
          select (suc (suc n)) v (constant n index_ty (integer_attr (pos x)))
            (constant (suc n) index_ty (integer_attr (pos 0))))

      on :
          (ds : List Ofr)
          → IsSwitch v xs ds
          → is_set (I.value v []) ≡ true
          → (idx : List ℕ) → InBounds (x ∷ xs) idx
          → Below I (d ∷ ds) idx
      on ds r e [] b = absurd b
      on ds r e (i ∷ idx) b =
          (rw (switch_value v x n h.0.1, e) (omega (arith, b.0)), r.all_on e idx b.1)

      off :
          (ds : List Ofr)
          → is_set (I.value v []) ≡ false
          → (idx : List ℕ) → Below I (d ∷ ds) idx
          → ⊥
      off ds e [] p = absurd p
      off ds e (i ∷ idx) p =
          let q = rw (switch_value v x n h.0.1, e) at p.0 in absurd (omega (arith, q))
