-- ===== src/Mask/Meets.antt =====
-- The boxes of masks under andi and expand_dims.
use spine_triton.Prelude.{
  ℕ, zero, suc, ◌^◌, ◌≤◌, ◌<◌, ltb, ◌==◌, length, All, List, [], ◌∷◌, true, false, if◌then◌else◌, ℤ,
  pos, ◌<ℤ◌, min_ℤ, Bool-cases, ◌⊎◌, inl, inr, ◌↔◌, ◌≡◌, refl, ap, ap₂, ◌∙◌, arith,
}
use spine_triton.Ir.{drop_at, Interp, Returns, Returns-bind}
use spine_triton.Ofr.{Ofr, index_attr, IsIndex, ofr_value, min_ofrs, min_ofrs_sound}
use spine_triton.Mask.State.{min_dims}
use spine_triton.Mask.Parse.{insert_at}
use spine_triton.Mask.Coordinates.{InBounds}
use spine_triton.Mask.Meaning.{Below, KeepsUnits}

pub same_test : (m n : ℕ) → m ≡ n → (m == n) ≡ true
same_test m n e = ground arith

pub other_test : (m n : ℕ) → m ≡ 1 → 1 < n → (m == n) ≡ false
other_test m n e h = ground arith

pub one_test : (m : ℕ) → m ≡ 1 → (m == 1) ≡ true
one_test m e = ground arith

pub kept_coordinate : (m n i : ℕ) → m ≡ n → i < n → (if m == 1 then 0 else i) ≡ i
kept_coordinate m n i e h = ground arith

pub not_shrunk : (m n : ℕ) → ((m ≡ n) ⊎ ((m ≡ 1) × (1 < n))) → ltb n m ≡ false
not_shrunk m n s = ground arith

pub stretched_index :
    (m n : ℕ) (d : Ofr)
    → IsIndex d
    → n < 2 ^ 31
    → IsIndex (if m == n then d else index_attr (pos n))
stretched_index m n d h k = elim (Bool-cases (m == n)) [
  | inl e ↦ rw e h
  | inr e ↦ rw e (omega arith)
]

module _ (I : Interp) where
  pub length-KeepsUnits : (ns : List ℕ) (ds : List Ofr) → KeepsUnits I ns ds → length ds ≡ length ns
  length-KeepsUnits [] [] h = refl
  length-KeepsUnits (n ∷ ns) (d ∷ ds) h = ap suc (length-KeepsUnits ns ds h.1)
  length-KeepsUnits [] (d ∷ ds) h = absurd h
  length-KeepsUnits (n ∷ ns) [] h = absurd h

  -- andi: the smaller of each two sizes.
  pub record IsMeet (ns : List ℕ) (ds es ms : List Ofr) : Type 0 where
    pub all_index : All IsIndex ms
    pub units : KeepsUnits I ns ms
    pub exact :
        (idx : List ℕ) → InBounds ns idx → Below I ms idx ↔ (Below I ds idx × Below I es idx)

  pub min_below : (d e : ℤ) (i : ℕ) → (pos i <ℤ min_ℤ d e) ↔ ((pos i <ℤ d) × (pos i <ℤ e))
  min_below d e i = ground arith

  pub min_dims_lem :
      (ns : List ℕ) (ds es : List Ofr) (n : ℕ)
      → KeepsUnits I ns ds
      → KeepsUnits I ns es
      → All IsIndex ds
      → All IsIndex es
      → Returns (λ ms m. IsMeet ns ds es ms) (min_dims ds es n)
  unfolding min_dims
  min_dims_lem [] [] [] n p q hd he = record {
    all_index = tt;
    units = tt;
    exact = λ idx b. ((λ h. (h, h)), (λ h. h.0));
  }
  min_dims_lem (x ∷ xs) (d ∷ ds) (e ∷ es) n p q hd he =
      Returns-bind _ (min_ofrs d e n) _ (min_ofrs_sound I d e n hd.0 he.0) λ m n₁ hm.
        Returns-bind _ (min_dims ds es n₁) _ (min_dims_lem xs ds es n₁ p.1 q.1 hd.1 he.1) λ ms n₂ r.
          record {
            all_index = (hm.0, r.all_index);
            units = ((λ u. hm.1 ∙ ap₂ min_ℤ (p.0 u) (q.0 u)), r.units);
            exact = at m ms hm.1 r;
          }
    where
      at :
          (m : Ofr) (ms : List Ofr)
          → ofr_value I m ≡ min_ℤ (ofr_value I d) (ofr_value I e)
          → IsMeet xs ds es ms
          → (idx : List ℕ) → InBounds (x ∷ xs) idx
          → Below I (m ∷ ms) idx ↔ (Below I (d ∷ ds) idx × Below I (e ∷ es) idx)
      at m ms hm r [] b = absurd b
      at m ms hm r (i ∷ idx) b =
          let low = min_below (ofr_value I d) (ofr_value I e) i in
          let rest = r.exact idx b.1 in
          (
            (λ h. let l = low.0 (rw hm at h.0) in let k = rest.0 h.1 in ((l.0, k.0), (l.1, k.1))),
            (λ h. (rw hm (low.1 (h.0.0, h.1.0)), rest.1 (h.0.1, h.1.1))),
          )
  min_dims_lem [] (d ∷ ds) es n p q hd he = absurd p
  min_dims_lem (x ∷ xs) [] es n p q hd he = absurd p
  min_dims_lem [] [] (e ∷ es) n p q hd he = absurd q
  min_dims_lem (x ∷ xs) (d ∷ ds) [] n p q hd he = absurd q

  -- expand_dims: a size 1 at the new axis.
  pub inserted_index :
      (a : ℕ) (ds : List Ofr) → All IsIndex ds → All IsIndex (insert_at a (index_attr (pos 1)) ds)
  inserted_index zero ds h = (omega arith, h)
  inserted_index (suc a) [] h = (omega arith, tt)
  inserted_index (suc a) (d ∷ ds) h = (h.0, inserted_index a ds h.1)

  pub inserted_units :
      (a : ℕ) (ns : List ℕ) (ds : List Ofr)
      → a ≤ length ns
      → KeepsUnits I ns ds
      → KeepsUnits I (insert_at a 1 ns) (insert_at a (index_attr (pos 1)) ds)
  inserted_units zero ns ds h k = ((λ u. refl), k)
  inserted_units (suc a) [] ds h k = absurd (omega arith)
  inserted_units (suc a) (n ∷ ns) [] h k = absurd k
  inserted_units (suc a) (n ∷ ns) (d ∷ ds) h k = (k.0, inserted_units a ns ds (omega arith) k.1)

  pub inserted-Below :
      (a : ℕ) (ns : List ℕ) (ds : List Ofr) (idx : List ℕ)
      → a ≤ length ns
      → KeepsUnits I ns ds
      → InBounds (insert_at a 1 ns) idx
      → Below I (insert_at a (index_attr (pos 1)) ds) idx ↔ Below I ds (drop_at a idx)
  inserted-Below zero ns ds [] h k b = absurd b
  inserted-Below zero ns ds (i ∷ idx) h k b = ((λ p. p.1), (λ p. (omega (arith, b.0), p)))
  inserted-Below (suc a) [] ds idx h k b = absurd (omega arith)
  inserted-Below (suc a) (n ∷ ns) [] idx h k b = absurd k
  inserted-Below (suc a) (n ∷ ns) (d ∷ ds) [] h k b = absurd b
  inserted-Below (suc a) (n ∷ ns) (d ∷ ds) (i ∷ idx) h k b =
      let rest = inserted-Below a ns ds idx (omega arith) k.1 b.1 in
      ((λ p. (p.0, rest.0 p.1)), (λ p. (p.0, rest.1 p.1)))
