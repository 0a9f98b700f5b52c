-- ===== src/Mask/Subviews.antt =====
-- lib/Analysis/MaskAnalysis.cpp: the slice and the subviews that a mask selects, and the two subviews of
-- a block that wraps around. A memref.subview is the record of its operands.
use spine_triton.Prelude.{
  ℕ, length, replicate, List, [], ◌∷◌, ℤ, pos, ◌+ℤ◌, ◌-ℤ◌, ◌≤ℤ◌, min_ℤ, wrap64, wrap64_self, In64,
  ◌≡◌, refl, ap, ◌∙◌, arith, +ℤ-sub_self,
}
use spine_triton.Ir.{Value, dim, M, pure, crash, ◌>>=◌, create, Interp, Returns, Returns-bind}
use spine_triton.Ofr.{
  Ofr, value, index_attr, min_ofrs, sub_ofrs, IsIndex, ofr_value, min_ofrs_sound, sub_ofrs_sound,
  ofr_fits,
}
use spine_triton.Mask.State.{MaskState}

pub record Subview : Type 0 where
  pub source : Value
  pub offsets : List Ofr
  pub sizes : List Ofr
  pub strides : List Ofr

-- Offsets 0 and strides 1 for each dimension of the mask.
unfoldable pub create_subview : MaskState → Value → List Ofr → Subview
create_subview s source sizes = record {
  source = source;
  offsets = replicate (length s.dims) (index_attr (pos 0));
  sizes = sizes;
  strides = replicate (length s.dims) (index_attr (pos 1));
}

unfoldable pub get_extract_slice : MaskState → Value → Subview
unfolding create_subview
get_extract_slice s source = create_subview s source s.dims

unfoldable pub get_subview : MaskState → Value → Subview
unfolding create_subview
get_subview s source = create_subview s source s.dims

-- The part of a full size that lies in the first block, and the rest.
unfoldable pub split_size : Value → ℕ → Ofr → M (Ofr × Ofr)
split_size block axis full = do
  extent ← create (λ i. dim i block axis)
  first ← min_ofrs (value extent) full
  second ← sub_ofrs full first
  pure (first, second)

abbrev pub pair_of_dims : List Ofr → M (Ofr × Ofr)
pair_of_dims (a ∷ b ∷ _) = pure (a, b)
pair_of_dims _ = crash

unfoldable pub get_side_by_side_subviews : MaskState → Value → Value → M (Subview × Subview)
unfolding create_subview split_size
get_side_by_side_subviews s block1 block2 = do
  full ← pair_of_dims s.dims
  parts ← split_size block1 1 full.1
  pure (
    create_subview s block1 (full.0 ∷ parts.0 ∷ []),
    create_subview s block2 (full.0 ∷ parts.1 ∷ []),
  )

unfoldable pub get_stacked_subviews : MaskState → Value → Value → M (Subview × Subview)
unfolding create_subview split_size
get_stacked_subviews s block1 block2 = do
  full ← pair_of_dims s.dims
  parts ← split_size block1 0 full.0
  pure (
    create_subview s block1 (parts.0 ∷ full.1 ∷ []),
    create_subview s block2 (parts.1 ∷ full.1 ∷ []),
  )

-- A rectangle at the first element of a block, row by row and column by column.
abbrev pub corner : Value → Ofr → Ofr → Subview
corner block rows columns = record {
  source = block;
  offsets = index_attr (pos 0) ∷ index_attr (pos 0) ∷ [];
  sizes = rows ∷ columns ∷ [];
  strides = index_attr (pos 1) ∷ index_attr (pos 1) ∷ [];
}

module _ (I : Interp) where
  -- The two parts of a size: what the first block holds of it, and the rest.
  pub record IsSplit (extent : ℤ) (full first second : Ofr) : Type 0 where
    pub first_index : IsIndex first
    pub second_index : IsIndex second
    pub first_value : ofr_value I first ≡ min_ℤ extent (ofr_value I full)
    pub whole : ofr_value I first +ℤ ofr_value I second ≡ ofr_value I full

  rest_fits : (f a : ℤ) → In64 f → pos 0 ≤ℤ f → pos 0 ≤ℤ a → In64 (f -ℤ min_ℤ a f)
  unfolding ◌-ℤ◌
  rest_fits f a h p q = ground arith

  split_size_lem :
      (block : Value) (axis : ℕ) (full : Ofr) (n : ℕ)
      → IsIndex full
      → pos 0 ≤ℤ I.value (dim n block axis) []
      → pos 0 ≤ℤ ofr_value I full
      → Returns
          (λ r m. IsSplit (I.value (dim n block axis) []) full r.0 r.1)
          (split_size block axis full n)
  unfolding split_size
  split_size_lem block axis full n h p q =
      Returns-bind Q (min_ofrs (value (dim n block axis)) full _) _
        (min_ofrs_sound I (value (dim n block axis)) full _ (refl, tt) h)
        λ a i ha. Returns-bind Q (sub_ofrs full a i) _ (sub_ofrs_sound I full a i h ha.0) λ b m hb.
          record {
            first_index = ha.0;
            second_index = hb.0;
            first_value = ha.1;
            whole = sum a b ha.1 hb.1;
          }
    where
      extent : ℤ
      extent = I.value (dim n block axis) []

      Q : Ofr × Ofr → ℕ → Type 0
      Q r m = IsSplit extent full r.0 r.1

      sum :
          (a b : Ofr)
          → ofr_value I a ≡ min_ℤ extent (ofr_value I full)
          → ofr_value I b ≡ wrap64 (ofr_value I full -ℤ ofr_value I a)
          → ofr_value I a +ℤ ofr_value I b ≡ ofr_value I full
      sum a b ea eb =
          let fits = rest_fits (ofr_value I full) extent (ofr_fits I full h) q p in
          let exact : ofr_value I b ≡ ofr_value I full -ℤ ofr_value I a =
            eb ∙ wrap64_self _ (rw ea fits) in
          ap (λ y. ofr_value I a +ℤ y) exact ∙ +ℤ-sub_self (ofr_value I a) (ofr_value I full)

  -- getSideBySideSubviews of a mask with two sizes of index type, the second of them and the columns of
  -- the first block not negative in a run, returns a subview of the first block and one of the second,
  -- each from its first element on with steps of 1 and with all the rows, whose columns are the smaller
  -- of the mask's and the first block's columns, and the rest of the mask's.
  pub side_by_side_subviews_lem :
      (s : MaskState) (block1 block2 : Value) (row col : Ofr) (n : ℕ)
      → s.dims ≡ row ∷ col ∷ []
      → IsIndex col
      → pos 0 ≤ℤ I.value (dim n block1 1) []
      → pos 0 ≤ℤ ofr_value I col
      → Returns
          (λ r m.
            (a : Ofr) × (b : Ofr) × (r.0 ≡ corner block1 row a)
            × (r.1 ≡ corner block2 row b)
            × IsSplit (I.value (dim n block1 1) []) col a b)
          (get_side_by_side_subviews s block1 block2 n)
  unfolding get_side_by_side_subviews create_subview
  side_by_side_subviews_lem s block1 block2 row col n e h p q = rw e (
      Returns-bind _ (split_size block1 1 col n) _ (split_size_lem block1 1 col n h p q)
        λ parts m hp. (parts.0, parts.1, refl, refl, hp))

  -- getStackedSubviews of a mask with two sizes of index type, the first of them and the rows of the
  -- first block not negative in a run, returns a subview of the first block and one of the second, each
  -- from its first element on with steps of 1 and with all the columns, whose rows are the smaller of
  -- the mask's and the first block's rows, and the rest of the mask's.
  pub stacked_subviews_lem :
      (s : MaskState) (block1 block2 : Value) (row col : Ofr) (n : ℕ)
      → s.dims ≡ row ∷ col ∷ []
      → IsIndex row
      → pos 0 ≤ℤ I.value (dim n block1 0) []
      → pos 0 ≤ℤ ofr_value I row
      → Returns
          (λ r m.
            (a : Ofr) × (b : Ofr) × (r.0 ≡ corner block1 a col)
            × (r.1 ≡ corner block2 b col)
            × IsSplit (I.value (dim n block1 0) []) row a b)
          (get_stacked_subviews s block1 block2 n)
  unfolding get_stacked_subviews create_subview
  stacked_subviews_lem s block1 block2 row col n e h p q = rw e (
      Returns-bind _ (split_size block1 0 row n) _ (split_size_lem block1 0 row n h p q)
        λ parts m hp. (parts.0, parts.1, refl, refl, hp))
