-- ===== src/Ptr/Shapes.antt =====
-- Expansions and broadcasts: what their visitors return describes them.
use spine_triton.Prelude.{
  ℕ, zero, suc, ◌≤◌, ◌==◌, Bool, none, List, ◌∷◌, pos, ◌+ℤ◌, length, ◌≡◌, refl, sym, ap, ap₂, ◌∙◌,
  Congruent-of_eq, Congruent-trans, Congruent-sym, +ℤ-Congruent, length-map, arith,
}
use spine_triton.Ir.{Value, ElementType, tensor, Interp, stretch, drop_at, Returns, Returns-bind, M}
use spine_triton.Ofr.{index_attr}
use spine_triton.Mask.Coordinates.{
  InBounds-drop_at, InBounds-stretch, Stretches, length-Stretches, get_elem?-insert_at_self,
  map-insert_at,
}
use spine_triton.Mask.Parse.{insert_at}
use spine_triton.Ptr.State.{PtrState}
use spine_triton.Ptr.Visit.{visit_expand_dims, visit_broadcast}
use spine_triton.Ptr.Meaning.{walk, displacement}
use spine_triton.Ptr.States.{check-bind, same_ℕ}
use spine_triton.Ptr.Supported.{Describes, value_or_zero, offset_at}
use spine_triton.Ptr.Axes.{
  insert_at-IsIndex, any_value-insert_at, length-insert_at, insert_axis_lem, stretch-drop_at,
  stretch_twice, broadcast_sizes_lem, total-insert_at, walk-insert_at,
}

module _ {ℓ} {A : Type ℓ} where
  le_rank :
      (axis n : ℕ) (ns : List ℕ) (xs : List A)
      → axis ≤ length (n ∷ ns)
      → length xs ≡ length (n ∷ ns)
      → axis ≤ length xs
  le_rank axis n ns xs h r = omega arith

  rank_of :
      (axis n : ℕ) (ns : List ℕ) (d : A) (xs : List A)
      → length xs ≡ length (n ∷ ns)
      → length (insert_at axis d xs) ≡ length (insert_at axis 1 (n ∷ ns))
  rank_of axis n ns d xs r =
      length-insert_at axis d xs ∙ ap suc r ∙ sym (length-insert_at axis 1 (n ∷ ns))

module _ (I : Interp) where
  offset_at-insert_at :
      (axis n : ℕ) (ns : List ℕ) (s : PtrState) (idx : List ℕ)
      → offset_at I (insert_at axis 1 (n ∷ ns)) s idx ≡ displacement I s idx
  offset_at-insert_at zero n ns s idx = refl
  offset_at-insert_at (suc a) n ns s idx = refl

  -- An expansion.
  pub expand_lem :
      (v w : Value) (axis n : ℕ) (ns : List ℕ) (e : ElementType) (p u : Bool) (visited : M PtrState)
      (m : ℕ)
      → axis ≤ length (n ∷ ns)
      → Returns (λ s j. Describes I (n ∷ ns) p u v s) (visited m)
      → ((idx : List ℕ) → I.value w idx ≡ I.value v (drop_at axis idx))
      → Returns
          (λ t j. Describes I (insert_at axis 1 (n ∷ ns)) p u w t)
          (visit_expand_dims (tensor (insert_at axis 1 (n ∷ ns)) e) axis visited m)
  unfolding visit_expand_dims
  expand_lem v w axis n ns e p u visited m ha hv hw = Returns-bind Q (visited m) _ hv λ s m h.
      rw
        (
          get_elem?-insert_at_self axis 1 (n ∷ ns) ha,
          insert_axis_lem axis (index_attr (pos 0)) s.offsets m
              (le_rank axis n ns s.offsets ha h.well.offsets_rank),
          insert_axis_lem axis (index_attr (pos 1)) s.sizes m
              (le_rank axis n ns s.sizes ha h.well.sizes_rank),
          insert_axis_lem axis (index_attr (pos 0)) s.strides m
              (le_rank axis n ns s.strides ha h.well.strides_rank),
          insert_axis_lem axis none s.modulos m
              (le_rank axis n ns s.modulos ha h.well.modulos_rank),
        )
        (record {
          well = record {
            offsets_index = insert_at-IsIndex axis s.offsets h.well.offsets_index;
            strides_index = insert_at-IsIndex axis s.strides h.well.strides_index;
            offsets_rank = rank_of axis n ns (index_attr (pos 0)) s.offsets h.well.offsets_rank;
            sizes_rank = rank_of axis n ns (index_attr (pos 1)) s.sizes h.well.sizes_rank;
            strides_rank = rank_of axis n ns (index_attr (pos 0)) s.strides h.well.strides_rank;
            modulos_rank = rank_of axis n ns none s.modulos h.well.modulos_rank;
          };
          sizes_lem =
              ap (insert_at axis (index_attr (pos 1))) h.sizes_lem
              ∙ sym (map-insert_at _ axis 1 (n ∷ ns));
          plain = any_value-insert_at axis s.modulos h.plain;
          source_lem = h.source_lem;
          scalar_lem = h.scalar_lem;
          index = h.index;
          address = λ idx b. Congruent-trans (Congruent-of_eq (hw idx)) (
              Congruent-trans
                (h.address (drop_at axis idx) (InBounds-drop_at axis (n ∷ ns) idx ha b))
                (Congruent-of_eq (
                  ap (λ q. value_or_zero I s.source +ℤ q)
                    (sym (
                      offset_at-insert_at axis n ns _ idx
                      ∙ ap₂ (λ x y. x +ℤ y) (total-insert_at I axis s.offsets)
                          (walk-insert_at I axis s.strides idx
                            (le_rank axis n ns s.strides ha h.well.strides_rank)))))));
          same = λ q ex idx b.
              Congruent-trans (Congruent-of_eq (hw idx))
                (h.same q ex (drop_at axis idx) (InBounds-drop_at axis (n ∷ ns) idx ha b));
          flat = λ idx.
              Congruent-trans
                (Congruent-of_eq (
                  walk-insert_at I axis s.strides (stretch (insert_at axis 1 (n ∷ ns)) idx)
                    (le_rank axis n ns s.strides ha h.well.strides_rank)
                  ∙ ap (walk I s.strides) (stretch-drop_at axis (n ∷ ns) idx ha)))
                (Congruent-trans (h.flat (drop_at axis idx)) (
                  Congruent-of_eq (
                    sym (
                      walk-insert_at I axis s.strides idx
                        (le_rank axis n ns s.strides ha h.well.strides_rank)))));
        })
    where
      Q : PtrState → ℕ → Type 0
      Q t j = Describes I (insert_at axis 1 (n ∷ ns)) p u w t

  -- A broadcast.
  pub broadcast_lem :
      (v w : Value) (k n : ℕ) (ks ns : List ℕ) (e : ElementType) (p u : Bool) (visited : M PtrState)
      (m : ℕ)
      → Stretches (k ∷ ks) (n ∷ ns)
      → Returns (λ s j. Describes I (k ∷ ks) p u v s) (visited m)
      → ((idx : List ℕ) → I.value w idx ≡ I.value v (stretch (k ∷ ks) idx))
      → Returns
          (λ t j. Describes I (n ∷ ns) p u w t)
          (visit_broadcast (tensor (k ∷ ks) e) (tensor (n ∷ ns) e) visited m)
  unfolding visit_broadcast
  broadcast_lem v w k n ks ns e p u visited m st hv hw =
      check-bind Q (suc (length ks) == suc (length ns)) _ m
        (same_ℕ (suc (length ks)) (suc (length ns)) (length-Stretches (k ∷ ks) (n ∷ ns) st))
        (Returns-bind Q (visited m) _ hv λ s m h.
          rw (h.sizes_lem, broadcast_sizes_lem (k ∷ ks) (n ∷ ns) m st)
            (record {
              well = record {
                offsets_index = h.well.offsets_index;
                strides_index = h.well.strides_index;
                offsets_rank = h.well.offsets_rank ∙ length-Stretches (k ∷ ks) (n ∷ ns) st;
                sizes_rank = length-map (n ∷ ns) _;
                strides_rank = h.well.strides_rank ∙ length-Stretches (k ∷ ks) (n ∷ ns) st;
                modulos_rank = h.well.modulos_rank ∙ length-Stretches (k ∷ ks) (n ∷ ns) st;
              };
              sizes_lem = refl;
              plain = h.plain;
              source_lem = h.source_lem;
              scalar_lem = h.scalar_lem;
              index = h.index;
              address = λ idx b. Congruent-trans (Congruent-of_eq (hw idx)) (
                  Congruent-trans
                    (h.address (stretch (k ∷ ks) idx) (InBounds-stretch (k ∷ ks) (n ∷ ns) idx st b))
                    (+ℤ-Congruent (Congruent-of_eq refl)
                      (+ℤ-Congruent (Congruent-of_eq refl) (h.flat idx))));
              same = λ q ex idx b. Congruent-trans (Congruent-of_eq (hw idx)) (
                  h.same q ex (stretch (k ∷ ks) idx) (InBounds-stretch (k ∷ ks) (n ∷ ns) idx st b));
              flat = λ idx. Congruent-trans (Congruent-sym (h.flat (stretch (n ∷ ns) idx))) (
                  Congruent-trans
                    (Congruent-of_eq
                      (ap (walk I s.strides) (stretch_twice (k ∷ ks) (n ∷ ns) idx st)))
                    (h.flat idx));
            }))
    where
      Q : PtrState → ℕ → Type 0
      Q t j = Describes I (n ∷ ns) p u w t
