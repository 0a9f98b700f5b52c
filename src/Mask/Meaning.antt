-- ===== src/Mask/Meaning.antt =====
-- What the states of the mask analysis say of the tensors that they are parsed from.
use spine_triton.Prelude.{
  ℕ, ◌≤◌, ◌<◌, get_elem?, length, All, List, [], ◌∷◌, some, none, pos, ◌+ℤ◌, ◌<ℤ◌, true, ◌≡◌, ◌↔◌,
}
use spine_triton.Ir.{Value, type_of, shape_of, is_set, Interp}
use spine_triton.Ofr.{Ofr, IsIndex, ofr_value}
use spine_triton.Mask.State.{MaskState, dims_only}
use spine_triton.Mask.Parse.{shape_dims, scalar_state}
use spine_triton.Mask.Coordinates.{InBounds}

abbrev pub shape_at : Value → List ℕ
shape_at v = shape_of (type_of v)

module _ (I : Interp) where
  -- The state of a tensor that holds one integer everywhere.
  pub record IsUniform (v : Value) (s : MaskState) : Type 0 where
    pub number : Ofr
    pub made : s ≡ scalar_state number (shape_dims (shape_at v))
    pub is_index : IsIndex number
    pub holds : (idx : List ℕ) → I.value v idx ≡ ofr_value I number

  -- The state of a tensor that counts up from `first` along one axis, and is one wide along the others
  -- or repeats.
  pub record IsRange (v : Value) (s : MaskState) : Type 0 where
    pub first : Ofr
    pub last : Ofr
    pub axis : ℕ
    pub extent : ℕ
    pub made : s ≡ record {
      start = some first;
      end = some last;
      dims = shape_dims (shape_at v);
      scalar = none;
    }
    pub first_index : IsIndex first
    pub last_index : IsIndex last
    pub wide : get_elem? (shape_at v) axis ≡ some extent
    pub above_one : 2 ≤ extent
    pub distance : ofr_value I last ≡ ofr_value I first +ℤ pos extent
    pub reached :
        (j : ℕ)
        → j < extent
        → (idx : List ℕ) × InBounds (shape_at v) idx × (get_elem? idx axis ≡ some j)
    pub holds :
        (idx : List ℕ) (j : ℕ)
        → InBounds (shape_at v) idx
        → get_elem? idx axis ≡ some j
        → I.value v idx ≡ ofr_value I first +ℤ pos j

  -- The element at `idx` lies in the box of the sizes `ds`.
  abbrev pub Below : List Ofr → List ℕ → Type 0
  Below [] [] = Unit
  Below (d ∷ ds) (i ∷ idx) = (pos i <ℤ ofr_value I d) × Below ds idx
  Below _ _ = ⊥

  -- An extent of 1 is never masked off by a size other than 1, so that it can be stretched.
  abbrev pub KeepsUnits : List ℕ → List Ofr → Type 0
  KeepsUnits [] [] = Unit
  KeepsUnits (n ∷ ns) (d ∷ ds) = (n ≡ 1 → ofr_value I d ≡ pos 1) × KeepsUnits ns ds
  KeepsUnits _ _ = ⊥

  -- The state of a mask: an element is set exactly if it lies in the box of `dims`.
  pub record IsMasked (v : Value) (s : MaskState) : Type 0 where
    pub sizes : List Ofr
    pub made : s ≡ dims_only sizes
    pub some_axis : 0 < length sizes
    pub all_index : All IsIndex sizes
    pub units : KeepsUnits (shape_at v) sizes
    pub exact :
        (idx : List ℕ)
        → InBounds (shape_at v) idx
        → (is_set (I.value v idx) ≡ true) ↔ Below sizes idx
