-- ===== src/Structured/Blocks/Positions.antt =====
-- The positions that a block pointer stands for: its original offsets, which its offsets hold times
-- the strides.
use spine_triton.Prelude.{
  ℕ, suc, length, Option, none, some, List, [], ◌∷◌, ℤ, ◌+ℤ◌, ◌*ℤ◌, wrap64, ◌≡◌, refl, ap, arith,
  int_laws, Congruent, Congruent-of_eq, Congruent-trans, +ℤ-Congruent, *ℤ-Congruent_left,
  *ℤ-+ℤ_right, wrap64-Congruent,
}
use spine_triton.Ir.{
  Value, type_of, index_ty, element_type, Interp, Returns, Returns-bind, binary, index_cast, addi,
  muli,
}
use spine_triton.Ofr.{
  Ofr, attr, value, int_attr, other_attr, IsIndex, ofr_value, Operand, constant_value,
}
use spine_triton.Structured.Rewrite.{index_offset, index_offsets, push}
use spine_triton.Structured.Blocks.{constant_or_value, advance_dim, advance_dims}

-- createTTSMakeTensorPtrOp and rewriteAdvanceOp read the strides of a block pointer as values.
abbrev pub IsStride : Ofr → Type 0
IsStride (attr a) = ⊥
IsStride (value v) = type_of v ≡ index_ty

module _ (I : Interp) where
  -- The offset, the original offset and the stride of a dimension at position `p`.
  pub record IsAt (p : ℤ) (offset origi stride : Ofr) : Type 0 where
    pub offset_index : IsIndex offset
    pub origi_index : IsIndex origi
    pub stride_index : IsStride stride
    pub at_position : Congruent (ofr_value I origi) p
    pub at_offset : Congruent (ofr_value I offset) (p *ℤ ofr_value I stride)

  abbrev pub AllAt : List ℤ → List Ofr → List Ofr → List Ofr → Type 0
  AllAt [] [] [] [] = Unit
  AllAt (p ∷ ps) (o ∷ os) (g ∷ gs) (s ∷ ss) = IsAt p o g s × AllAt ps os gs ss
  AllAt _ _ _ _ = ⊥

  -- The positions after an advance.
  abbrev pub moved : List ℤ → List Value → List ℤ
  moved (p ∷ ps) (v ∷ vs) = (p +ℤ I.value v []) ∷ moved ps vs
  moved _ _ = []

  pub length-moved :
      (ps : List ℤ) (vs : List Value) → length vs ≡ length ps → length (moved ps vs) ≡ length ps
  length-moved [] vs h = refl
  length-moved (p ∷ ps) [] h = absurd (omega arith)
  length-moved (p ∷ ps) (v ∷ vs) h = ap suc (length-moved ps vs (omega arith))

  constant_or_value_lem :
      (o : Ofr) (n : ℕ) → IsIndex o → Returns (λ v m. Operand I o v) (constant_or_value o n)
  unfolding constant_or_value
  constant_or_value_lem (value v) n h = record { is_index = h.0; same = refl }
  constant_or_value_lem (attr (int_attr z)) n h = record {
    is_index = refl;
    same = constant_value I n z h;
  }
  constant_or_value_lem (attr other_attr) n h = absurd h

  -- Index arithmetic, up to a multiple of 2^64.
  pub cast_near :
      (i : ℕ) (v : Value) → Congruent (I.value (index_cast i index_ty v) []) (I.value v [])
  unfolding wrap64
  cast_near i v = rw (I.index_cast_lem i index_ty v []) (wrap64-Congruent (I.value v []))

  pub muli_near :
      (i : ℕ) (l r : Value)
      → type_of l ≡ index_ty
      → Congruent (I.value (binary i muli l r) []) (I.value l [] *ℤ I.value r [])
  unfolding wrap64
  muli_near i l r h =
      rw (I.muli_lem i l r [], ap element_type h) (wrap64-Congruent (I.value l [] *ℤ I.value r []))

  pub addi_near :
      (i : ℕ) (l r : Value)
      → type_of l ≡ index_ty
      → Congruent (I.value (binary i addi l r) []) (I.value l [] +ℤ I.value r [])
  unfolding wrap64
  addi_near i l r h =
      rw (I.addi_lem i l r [], ap element_type h) (wrap64-Congruent (I.value l [] +ℤ I.value r []))

  -- The offset moves by the increment times the stride.
  moved_offset :
      (p c x o s : ℤ)
      → Congruent c x
      → Congruent o (p *ℤ s)
      → Congruent (c *ℤ s +ℤ o) ((p +ℤ x) *ℤ s)
  moved_offset p c x o s h k =
      Congruent-trans (+ℤ-Congruent (*ℤ-Congruent_left s h) k)
        (Congruent-of_eq (rw (*ℤ-+ℤ_right p x s) (omega int_laws)))

  pub advance_dim_lem :
      (p : ℤ) (v : Value) (o g s : Ofr) (n : ℕ)
      → IsAt p o g s
      → Returns (λ d m. IsAt (p +ℤ I.value v []) d.0 d.1 s) (advance_dim v o g s n)
  unfolding advance_dim
  advance_dim_lem p v o g (attr a) n h = absurd h.stride_index
  advance_dim_lem p v o g (value w) n h =
      Returns-bind _ (constant_or_value o n) _ (constant_or_value_lem o n h.offset_index) λ x i hx.
        Returns-bind _ (constant_or_value g (suc (suc (suc i)))) _
          (constant_or_value_lem g (suc (suc (suc i))) h.origi_index)
          λ y j hy. record {
            offset_index = (refl, tt);
            origi_index = (refl, tt);
            stride_index = h.stride_index;
            at_position = Congruent-trans (addi_near j (index_cast i index_ty v) y refl) (
                Congruent-trans
                  (+ℤ-Congruent (cast_near i v)
                    (Congruent-trans (Congruent-of_eq hy.same) h.at_position))
                  (Congruent-of_eq (omega int_laws)));
            at_offset =
                Congruent-trans
                  (addi_near (suc (suc i)) (binary (suc i) muli (index_cast i index_ty v) w) x refl)
                  (Congruent-trans
                    (+ℤ-Congruent (muli_near (suc i) (index_cast i index_ty v) w refl)
                      (Congruent-of_eq hx.same))
                    (moved_offset p _ _ _ (I.value w []) (cast_near i v) h.at_offset));
          }

  pub advance_dims_lem :
      (ps : List ℤ) (vs : List Value) (os gs ss : List Ofr) (n : ℕ)
      → AllAt ps os gs ss
      → length vs ≡ length ps
      → Returns (λ d m. AllAt (moved ps vs) d.0 d.1 ss) (advance_dims vs os gs ss n)
  unfolding advance_dims
  advance_dims_lem [] [] [] [] [] n h k = tt
  advance_dims_lem (p ∷ ps) (v ∷ vs) (o ∷ os) (g ∷ gs) (s ∷ ss) n h k =
      Returns-bind _ (advance_dim v o g s n) _ (advance_dim_lem p v o g s n h.0) λ d i hd.
        Returns-bind _ (advance_dims vs os gs ss i) _
          (advance_dims_lem ps vs os gs ss i h.1 (omega arith)) λ rest j hr. (hd, hr)
  advance_dims_lem [] [] [] [] (s ∷ ss) n h k = elim h [ ]
  advance_dims_lem [] [] [] (g ∷ gs) ss n h k = elim h [ ]
  advance_dims_lem [] [] (o ∷ os) gs ss n h k = elim h [ ]
  advance_dims_lem [] (v ∷ vs) os gs ss n h k = absurd (omega arith)
  advance_dims_lem (p ∷ ps) [] os gs ss n h k = absurd (omega arith)
  advance_dims_lem (p ∷ ps) (v ∷ vs) [] gs ss n h k = elim h [ ]
  advance_dims_lem (p ∷ ps) (v ∷ vs) (o ∷ os) [] ss n h k = elim h [ ]
  advance_dims_lem (p ∷ ps) (v ∷ vs) (o ∷ os) (g ∷ gs) [] n h k = elim h [ ]

  pub AllAt-length :
      (ps : List ℤ) (os gs ss : List Ofr)
      → AllAt ps os gs ss
      → (length os ≡ length ps) × (length gs ≡ length ps) × (length ss ≡ length ps)
  AllAt-length [] [] [] [] h = (refl, refl, refl)
  AllAt-length (p ∷ ps) (o ∷ os) (g ∷ gs) (s ∷ ss) h =
      let rest = AllAt-length ps os gs ss h.1 in (ap suc rest.0, ap suc rest.1, ap suc rest.2)
  AllAt-length [] [] [] (s ∷ ss) h = elim h [ ]
  AllAt-length [] [] (g ∷ gs) ss h = elim h [ ]
  AllAt-length [] (o ∷ os) gs ss h = elim h [ ]
  AllAt-length (p ∷ ps) [] gs ss h = elim h [ ]
  AllAt-length (p ∷ ps) (o ∷ os) [] ss h = elim h [ ]
  AllAt-length (p ∷ ps) (o ∷ os) (g ∷ gs) [] h = elim h [ ]

  -- Values that hold the positions, up to a multiple of 2^64.
  abbrev pub HoldPositions : List Value → List ℤ → Type 0
  HoldPositions [] [] = Unit
  HoldPositions (v ∷ vs) (p ∷ ps) =
      (type_of v ≡ index_ty × Congruent (I.value v []) p) × HoldPositions vs ps
  HoldPositions _ _ = ⊥

  abbrev Pushed : ℤ → Option Value → Type 0
  Pushed p none = ⊥
  Pushed p (some v) = type_of v ≡ index_ty × Congruent (I.value v []) p

  index_offset_lem :
      (p : ℤ) (g : Ofr) (n : ℕ)
      → IsIndex g
      → Congruent (ofr_value I g) p
      → Returns (λ v m. Pushed p v) (index_offset g n)
  unfolding index_offset
  index_offset_lem p (value v) n h k = rw h.0 (h.0, k)
  index_offset_lem p (attr (int_attr z)) n h k =
      (refl, Congruent-trans (Congruent-of_eq (constant_value I n z h)) k)
  index_offset_lem p (attr other_attr) n h k = absurd h

  push_lem :
      (p : ℤ) (v : Option Value) (vs : List Value) (ps : List ℤ)
      → Pushed p v
      → HoldPositions vs ps
      → HoldPositions (push v vs) (p ∷ ps)
  push_lem p none vs ps h k = absurd h
  push_lem p (some v) vs ps h k = (h, k)

  pub index_offsets_lem :
      (ps : List ℤ) (os gs ss : List Ofr) (n : ℕ)
      → AllAt ps os gs ss
      → Returns (λ vs m. HoldPositions vs ps) (index_offsets gs n)
  unfolding index_offsets
  index_offsets_lem [] [] [] [] n h = tt
  index_offsets_lem (p ∷ ps) (o ∷ os) (g ∷ gs) (s ∷ ss) n h =
      Returns-bind _ (index_offset g n) _ (index_offset_lem p g n h.0.origi_index h.0.at_position)
        λ v i hv.
          Returns-bind _ (index_offsets gs i) _ (index_offsets_lem ps os gs ss i h.1)
            λ vs j hs. push_lem p v vs ps hv hs
  index_offsets_lem [] [] [] (s ∷ ss) n h = elim h [ ]
  index_offsets_lem [] [] (g ∷ gs) ss n h = elim h [ ]
  index_offsets_lem [] (o ∷ os) gs ss n h = elim h [ ]
  index_offsets_lem (p ∷ ps) [] gs ss n h = elim h [ ]
  index_offsets_lem (p ∷ ps) (o ∷ os) [] ss n h = elim h [ ]
  index_offsets_lem (p ∷ ps) (o ∷ os) (g ∷ gs) [] n h = elim h [ ]
