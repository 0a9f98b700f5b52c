-- ===== src/Structured/Blocks/Sound.antt =====
-- tt.make_tensor_ptr and tt.advance on positions.
use spine_triton.Prelude.{
  ℕ, length, length-map, List, [], ◌∷◌, map, ℤ, pos, true, ◌≡◌, refl, sym, ap, ◌∙◌, arith,
}
use spine_triton.Ir.{Value, Interp, Returns, Returns-bind, M, ok}
use spine_triton.Ofr.{index_attr}
use spine_triton.Structured.State.{PtrState, is_block_ptr, get_rank}
use spine_triton.Structured.Rewrite.{
  MakeTensorPtr, static_sizes_of, index_offsets, create_tts_make_tensor_ptr_op,
}
use spine_triton.Structured.Blocks.{advance_dims, advance_state, rewrite_advance_op}
use spine_triton.Structured.Blocks.Positions.{
  AllAt, moved, length-moved, HoldPositions, advance_dims_lem, AllAt-length, index_offsets_lem,
}

static_sizes_lem :
    (ns : List ℕ) (n : ℕ)
    → Returns (λ zs m. zs ≡ map pos ns) (static_sizes_of (map (λ k. index_attr (pos k)) ns) n)
unfolding static_sizes_of
static_sizes_lem [] n = refl
static_sizes_lem (k ∷ ns) n =
    Returns-bind _ (static_sizes_of (map (λ i. index_attr (pos i)) ns) n) _ (static_sizes_lem ns n)
      λ zs m h. ap (λ r. pos k ∷ r) h

-- The state that keeps all but its offsets.
abbrev pub Keeps : PtrState → PtrState → Type 0
Keeps s t = t ≡ record s { offsets = t.offsets; origi_offsets = t.origi_offsets }

module _ (I : Interp) where
  -- A block pointer of extents `ns` at the positions `ps`, whose strides are values of index type.
  pub record IsBlock (ps : List ℤ) (ns : List ℕ) (s : PtrState) : Type 0 where
    pub is_block : is_block_ptr s ≡ true
    pub sizes : s.sizes ≡ map (λ k. index_attr (pos k)) ns
    pub sizes_rank : length ns ≡ length ps
    pub shape_rank : length s.shape ≡ length ps
    pub dims : AllAt I ps s.offsets s.origi_offsets s.strides

  -- The operation that is made of it.
  pub record IsMade (ps : List ℤ) (ns : List ℕ) (s : PtrState) (op : MakeTensorPtr) : Type 0 where
    pub base : op.base ≡ s.source
    pub static_sizes : op.static_sizes ≡ map pos ns
    pub strides : op.strides ≡ s.strides
    pub offsets : op.offsets ≡ s.offsets
    pub originals : HoldPositions I op.original_offsets ps
    pub shape : op.shape ≡ s.shape
    pub order : op.order ≡ s.order

  get_rank-IsBlock :
      (ps : List ℤ) (ns : List ℕ) (s : PtrState) (n : ℕ)
      → IsBlock ps ns s
      → get_rank s n ≡ ok (length s.offsets) n
  unfolding get_rank
  get_rank-IsBlock ps ns s n h =
      let a = AllAt-length I ps s.offsets s.origi_offsets s.strides h.dims in
      let b = ap length h.sizes ∙ length-map ns _ ∙ h.sizes_rank in
      ground (arith, a.0, a.2, b, h.shape_rank)

  make_lem :
      (ps : List ℤ) (ns : List ℕ) (s : PtrState) (n : ℕ)
      → IsBlock ps ns s
      → Returns (λ op m. IsMade ps ns s op) (create_tts_make_tensor_ptr_op s s.origi_offsets n)
  unfolding create_tts_make_tensor_ptr_op
  make_lem ps ns s n h =
      rw (get_rank-IsBlock ps ns s n h, h.sizes)
        (Returns-bind _ (static_sizes_of (map (λ k. index_attr (pos k)) ns) n) _
          (static_sizes_lem ns n)
          λ zs m hz.
            Returns-bind _ (index_offsets s.origi_offsets m) _
              (index_offsets_lem I ps s.offsets s.origi_offsets s.strides m h.dims)
              λ vs j hv. record {
                base = refl;
                static_sizes = hz;
                strides = refl;
                offsets = refl;
                originals = hv;
                shape = refl;
                order = refl;
              })

  pub advance_state_lem :
      (ps : List ℤ) (ns : List ℕ) (s : PtrState) (m : M PtrState) (vs : List Value) (n i : ℕ)
      → m n ≡ ok s i
      → IsBlock ps ns s
      → length vs ≡ length ps
      → Returns (λ t j. IsBlock (moved I ps vs) ns t × Keeps s t) (advance_state m vs n)
  unfolding advance_state
  advance_state_lem ps ns s m vs n i e h k =
      rw (e, h.is_block)
        (Returns-bind _ (advance_dims vs s.offsets s.origi_offsets s.strides i) _
          (advance_dims_lem I ps vs s.offsets s.origi_offsets s.strides i h.dims k)
          λ d j hd.
            let same = length-moved I ps vs k in
            (
              record {
                is_block = h.is_block;
                sizes = h.sizes;
                sizes_rank = h.sizes_rank ∙ sym same;
                shape_rank = h.shape_rank ∙ sym same;
                dims = hd;
              },
              refl,
            ))

  -- Where the visit of its pointer returns the state of a block pointer whose strides are values of
  -- index type, tt.advance with as many increments as that has dimensions is rewritten to a state and a tts.make_tptr at the positions
  -- plus the increments, with the extents, strides, shape, order and base that they had.
  pub rewrite_advance_op-Block :
      (ps : List ℤ) (ns : List ℕ) (s : PtrState) (m : M PtrState) (vs : List Value) (n i : ℕ)
      → m n ≡ ok s i
      → IsBlock ps ns s
      → length vs ≡ length ps
      → Returns
          (λ r j. IsBlock (moved I ps vs) ns r.0 × Keeps s r.0 × IsMade (moved I ps vs) ns r.0 r.1)
          (rewrite_advance_op m vs n)
  unfolding rewrite_advance_op
  rewrite_advance_op-Block ps ns s m vs n i e h k =
      Returns-bind _ (advance_state m vs n) _ (advance_state_lem ps ns s m vs n i e h k) λ t j ht.
        Returns-bind _ (create_tts_make_tensor_ptr_op t t.origi_offsets j) _
          (make_lem (moved I ps vs) ns t j ht.0) λ op c hm. (ht.0, ht.1, hm)
