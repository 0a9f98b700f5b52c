-- ===== src/Ptr/Meaning.antt =====
-- What a pointer state stands for in a run: the address, in elements, of each element of the tensor.
use spine_triton.Prelude.{ℕ, List, [], ◌∷◌, ℤ, pos, ◌+ℤ◌, ◌*ℤ◌, All, length, ◌≡◌}
use spine_triton.Ir.{Interp}
use spine_triton.Ofr.{Ofr, IsIndex, ofr_value}
use spine_triton.Ptr.State.{PtrState}

-- The vectors have one entry for each axis, and these are of index type.
pub record IsPtrState (s : PtrState) (rank : ℕ) : Type 0 where
  pub offsets_index : All IsIndex s.offsets
  pub strides_index : All IsIndex s.strides
  pub offsets_rank : length s.offsets ≡ rank
  pub sizes_rank : length s.sizes ≡ rank
  pub strides_rank : length s.strides ≡ rank
  pub modulos_rank : length s.modulos ≡ rank

module _ (I : Interp) where
  abbrev pub total : List Ofr → ℤ
  total [] = pos 0
  total (o ∷ os) = ofr_value I o +ℤ total os

  -- The sum of the strides, each times its index.
  abbrev pub walk : List Ofr → List ℕ → ℤ
  walk (s ∷ ss) (i ∷ idx) = ofr_value I s *ℤ pos i +ℤ walk ss idx
  walk _ _ = pos 0

  abbrev pub displacement : PtrState → List ℕ → ℤ
  displacement s idx = total s.offsets +ℤ walk s.strides idx
