-- ===== src/Structured/Blocks/Makes.antt =====
-- tt.make_tensor_ptr: the block pointer that visitOperandMakeTensorPtr makes, and the offsets that
-- rewriteMakeTensorPtrOp looks up.
use spine_triton.Prelude.{
  ℕ, suc, ◌==◌, length, length-map, List, [], ◌∷◌, map, ℤ, pos, ◌*ℤ◌, true, false, some, ◌≡◌, refl,
  sym, ap, ◌∙◌, arith, Congruent, Congruent-trans, *ℤ-Congruent_left,
}
use spine_triton.Ir.{
  Value, index_ty, Interp, Returns, Returns-bind, binary, muli, index_cast, same_value, ◌>>=◌, pure,
}
use spine_triton.Ofr.{Ofr, value, index_attr, ofr_value}
use spine_triton.Structured.State.{PtrState}
use spine_triton.Structured.Rewrite.{create_tts_make_tensor_ptr_op}
use spine_triton.Structured.Blocks.{
  TensorPtrOp, Dims, block_dims, visit_make_tensor_ptr, collect_offsets, rewrite_make_tensor_ptr_op,
}
use spine_triton.Structured.Blocks.Positions.{AllAt, cast_near, muli_near}
use spine_triton.Structured.Blocks.Sound.{IsBlock}

module _ (I : Interp) where
  abbrev pub values_of : List Value → List ℤ
  values_of vs = map (λ v. I.value v []) vs

  -- OpFoldResults that hold the values of the operands, up to a multiple of 2^64.
  abbrev pub HoldValues : List Ofr → List Value → Type 0
  HoldValues [] [] = Unit
  HoldValues (o ∷ os) (v ∷ vs) = Congruent (ofr_value I o) (I.value v []) × HoldValues os vs
  HoldValues _ _ = ⊥

  record AreDims (ns : List ℕ) (ss os es : List Value) (d : Dims) : Type 0 where
    at : AllAt I (values_of os) d.offsets d.origi_offsets d.strides
    sizes : d.sizes ≡ map (λ k. index_attr (pos k)) ns
    extents_rank : length d.shape ≡ length ns
    strides_hold : HoldValues d.strides ss
    shape_hold : HoldValues d.shape es

  scaled_near :
      (n i j : ℕ) (s o : Value)
      → Congruent
          (I.value (binary j muli (index_cast i index_ty o) (index_cast n index_ty s)) [])
          (I.value o [] *ℤ I.value (index_cast n index_ty s) [])
  scaled_near n i j s o =
      Congruent-trans (muli_near I j (index_cast i index_ty o) (index_cast n index_ty s) refl)
        (*ℤ-Congruent_left (I.value (index_cast n index_ty s) []) (cast_near I i o))

  block_dims_lem :
      (ns : List ℕ) (ss os es : List Value) (n : ℕ)
      → length ss ≡ length ns
      → length os ≡ length ns
      → length es ≡ length ns
      → Returns (λ d m. AreDims ns ss os es d) (block_dims ns ss os es n)
  unfolding block_dims
  block_dims_lem [] [] [] [] n a b c = record {
    at = tt;
    sizes = refl;
    extents_rank = refl;
    strides_hold = tt;
    shape_hold = tt;
  }
  block_dims_lem (k ∷ ns) (s ∷ ss) (o ∷ os) (e ∷ es) n a b c =
      Returns-bind _ (block_dims ns ss os es (suc (suc (suc (suc n))))) _
        (block_dims_lem ns ss os es (suc (suc (suc (suc n)))) (omega arith) (omega arith)
          (omega arith))
        λ d m h. record {
          at = (
            record {
              offset_index = (refl, tt);
              origi_index = (refl, tt);
              stride_index = refl;
              at_position = cast_near I (suc n) o;
              at_offset = scaled_near n (suc n) (suc (suc n)) s o;
            },
            h.at,
          );
          sizes = ap (λ r. index_attr (pos k) ∷ r) h.sizes;
          extents_rank = ap suc h.extents_rank;
          strides_hold = (cast_near I n s, h.strides_hold);
          shape_hold = (cast_near I (suc (suc (suc n))) e, h.shape_hold);
        }
  block_dims_lem [] (s ∷ ss) os es n a b c = absurd (omega arith)
  block_dims_lem [] [] (o ∷ os) es n a b c = absurd (omega arith)
  block_dims_lem [] [] [] (e ∷ es) n a b c = absurd (omega arith)
  block_dims_lem (k ∷ ns) [] os es n a b c = absurd (omega arith)
  block_dims_lem (k ∷ ns) (s ∷ ss) [] es n a b c = absurd (omega arith)
  block_dims_lem (k ∷ ns) (s ∷ ss) (o ∷ os) [] n a b c = absurd (omega arith)

  -- What tt.make_tensor_ptr describes.
  pub record IsMadeFrom (op : TensorPtrOp) (s : PtrState) : Type 0 where
    pub is_block : IsBlock I (values_of op.offsets) op.pointee s
    pub base : s.source ≡ some op.base
    pub order : s.order ≡ op.order
    pub strides : HoldValues s.strides op.strides
    pub shape : HoldValues s.shape op.shape

  -- tt.make_tensor_ptr with an order, and with as many strides, offsets and extents as its pointee has
  -- dimensions, is visited to a block pointer of the pointee's extents at the offsets, with its base
  -- and order, whose strides and shape hold its operands, up to a multiple of 2^64.
  pub visit_make_tensor_ptr-IsBlock :
      (op : TensorPtrOp) (n : ℕ)
      → (length op.order == 0) ≡ false
      → length op.strides ≡ length op.pointee
      → length op.offsets ≡ length op.pointee
      → length op.shape ≡ length op.pointee
      → Returns (λ s m. IsMadeFrom op s) (visit_make_tensor_ptr op n)
  unfolding visit_make_tensor_ptr
  visit_make_tensor_ptr-IsBlock op n e a b c = rw e (
      Returns-bind _ (block_dims op.pointee op.strides op.offsets op.shape n) _
        (block_dims_lem op.pointee op.strides op.offsets op.shape n a b c)
        λ d m h.
          let rank = sym b ∙ sym (length-map op.offsets _) in
          record {
            is_block = record {
              is_block = rw e refl;
              sizes = h.sizes;
              sizes_rank = rank;
              shape_rank = h.extents_rank ∙ rank;
              dims = h.at;
            };
            base = refl;
            order = refl;
            strides = h.strides_hold;
            shape = h.shape_hold;
          })

-- Of two tt.make_tensor_ptr operations on one base, the first one is rewritten with the second one's
-- offsets as its original offsets.
pub shared_base_offsets :
    (found : Value → List Ofr) (a b : TensorPtrOp) (n : ℕ)
    → same_value a.base b.base ≡ true
    → rewrite_make_tensor_ptr_op (collect_offsets found (a ∷ b ∷ [])) a n
      ≡ (visit_make_tensor_ptr a >>= λ s.
            create_tts_make_tensor_ptr_op s (map (λ o. value o) b.offsets) >>= λ op. pure (s, op))
          n
unfolding rewrite_make_tensor_ptr_op
shared_base_offsets found a b n h = rw h refl
