-- ===== src/Mask/Sound.antt =====
-- The mask analysis on every supported mask: it returns, and its sizes are the mask.
use spine_triton.Prelude.{
  ℤ, ℕ, zero, suc, ◌^◌, ◌≤◌, ◌<◌, ◌==◌, ltb, length, All, List, [], ◌∷◌, true, false, not, ◌||◌,
  if◌then◌else◌, pos, Bool-cases, inl, inr, ◌↔◌, ◌≡◌, refl, sym, ap, ◌∙◌, arith,
}
use spine_triton.Ir.{
  Value, scalar, tensor, i1, type_of, shape_of, element_type, binary, andi, splat, broadcast,
  expand_dims, is_set, drop_at, stretch, Interp, Returns, Returns-bind, pure,
}
use spine_triton.Ofr.{Ofr, index_attr}
use spine_triton.Mask.State.{MaskState, dims_only, min_states, min_state_scalar, min_dims, is_mask}
use spine_triton.Mask.Parse.{
  parse, parse_and, parse_splat, parse_expand_dims, parse_broadcast, select_dims, broadcast_dims,
  scalar_or, insert_at,
}
use spine_triton.Mask.Coordinates.{
  InBounds, InBounds-drop_at, Stretches, length-Stretches, InBounds-stretch,
  get_elem?-insert_at_self,
}
use spine_triton.Mask.Meaning.{IsMasked}
use spine_triton.Mask.Supported.{Masked, bounded, switched, both, expanded_mask, stretched_mask}
use spine_triton.Mask.Bounded.{parse_bounded}
use spine_triton.Mask.Meets.{
  length-KeepsUnits, min_dims_lem, inserted_index, inserted_units, inserted-Below,
}
use spine_triton.Mask.Boxes.{broadcast_dims_lem, select_dims_lem}

same_length : (m n : ℕ) → m ≡ n → (m == n) ≡ true
same_length m n e = ground arith

not_below : (k a : ℕ) → a ≤ k → ltb k a ≡ false
not_below k a h = ground arith

set_both :
    (a b : ℤ)
    → (is_set (if is_set a then b else pos 0) ≡ true) ↔ ((is_set a ≡ true) × (is_set b ≡ true))
set_both a b = ground arith

inserted_length : (a : ℕ) (d : Ofr) (ds : List Ofr) → 0 < length (insert_at a d ds)
inserted_length zero d ds = omega arith
inserted_length (suc a) d [] = omega arith
inserted_length (suc a) d (e ∷ ds) = omega arith

is_mask-dims_only : (ds : List Ofr) → 0 < length ds → is_mask (dims_only ds) ≡ true
is_mask-dims_only [] h = absurd (omega arith)
is_mask-dims_only (d ∷ ds) h = ground arith

module _ (I : Interp) where
  -- andi
  meet :
      (i n : ℕ) (shape : List ℕ) (l r : Value) (sl sr : MaskState)
      → IsMasked I l sl
      → IsMasked I r sr
      → type_of l ≡ tensor shape i1
      → type_of r ≡ tensor shape i1
      → Returns
          (λ s m. IsMasked I (binary i andi l r) s)
          ((if not (is_mask sl) || not (is_mask sr)
              then min_state_scalar sl sr
              else min_states sl sr)
            n)
  unfolding min_states
  meet i n shape l r sl sr ml mr tl tr =
      let ul = rw (ap shape_of tl) at ml.units in
      let ur = rw (ap shape_of tr) at mr.units in
      rw
        (
          ml.made,
          mr.made,
          is_mask-dims_only ml.sizes ml.some_axis,
          is_mask-dims_only mr.sizes mr.some_axis,
          same_length (length ml.sizes) (length mr.sizes)
              (length-KeepsUnits I shape ml.sizes ul ∙ sym (length-KeepsUnits I shape mr.sizes ur)),
        )
        (Returns-bind _ (min_dims ml.sizes mr.sizes n) _
          (min_dims_lem I shape ml.sizes mr.sizes n ul ur ml.all_index mr.all_index)
          λ ms m q. record {
            sizes = ms;
            made = refl;
            some_axis =
                rw
                  (length-KeepsUnits I shape ms q.units
                    ∙ sym (length-KeepsUnits I shape ml.sizes ul))
                  ml.some_axis;
            all_index = q.all_index;
            units = rw (ap shape_of tl) q.units;
            exact = λ idx b.
                let inside : InBounds shape idx = rw (ap shape_of tl) at b in
                let left = ml.exact idx b in
                let right = mr.exact idx (rw (ap shape_of tr) inside) in
                let box = q.exact idx inside in
                let value = I.andi_lem i l r idx (ap element_type tl) (ap element_type tr) in
                (
                  (λ h.
                      let (x, y) = (set_both (I.value l idx) (I.value r idx)).0 (rw value at h) in
                      box.1 (left.0 x, right.0 y)),
                  (λ h.
                      let (x, y) = box.0 h in
                      rw value
                        ((set_both (I.value l idx) (I.value r idx)).1 (left.1 x, right.1 y))),
                );
          })

  -- expand_dims
  expand :
      (i axis n : ℕ) (shape : List ℕ) (v : Value) (s : MaskState)
      → IsMasked I v s
      → type_of v ≡ tensor shape i1
      → axis ≤ length shape
      → Returns
          (λ st m. IsMasked I (expand_dims i (tensor (insert_at axis 1 shape) i1) axis v) st)
          (parse_expand_dims (tensor (insert_at axis 1 shape) i1) axis (pure s) n)
  unfolding parse_expand_dims
  expand i axis n shape v s ms t h =
      let u = rw (ap shape_of t) at ms.units in
      let rank = length-KeepsUnits I shape ms.sizes u in
      rw (ms.made, get_elem?-insert_at_self axis 1 shape h, rank, not_below (length shape) axis h)
        record {
          sizes = insert_at axis (index_attr (pos 1)) ms.sizes;
          made = refl;
          some_axis = inserted_length axis (index_attr (pos 1)) ms.sizes;
          all_index = inserted_index I axis ms.sizes ms.all_index;
          units = inserted_units I axis shape ms.sizes h u;
          exact = λ idx b.
              let rest =
                ms.exact (drop_at axis idx)
                  (rw (ap shape_of t) (InBounds-drop_at axis shape idx h b)) in
              let box = inserted-Below I axis shape ms.sizes idx h u b in
              let value =
                I.expand_dims_lem i (tensor (insert_at axis 1 shape) i1) axis v idx
                  (sym (ap element_type t)) in
              ((λ q. box.1 (rest.0 (rw value at q))), (λ q. rw value (rest.1 (box.0 q))));
        }

  -- broadcast
  stretch_mask :
      (i n : ℕ) (from to : List ℕ) (v : Value) (s : MaskState)
      → IsMasked I v s
      → type_of v ≡ tensor from i1
      → Stretches from to
      → All (λ k. k < 2 ^ 31) to
      → Returns
          (λ st m. IsMasked I (broadcast i (tensor to i1) v) st)
          (parse_broadcast (tensor from i1) (tensor to i1) (pure s) n)
  unfolding parse_broadcast
  stretch_mask i n from to v s ms t st k =
      let u = rw (ap shape_of t) at ms.units in
      let rank = length-KeepsUnits I from ms.sizes u in
      rw
        (
          ms.made,
          same_length (length from) (length to) (length-Stretches from to st),
          rank,
          not_below (length from) (length from) (omega arith),
        )
        (Returns-bind _ (broadcast_dims from to ms.sizes n) _
          (broadcast_dims_lem I from to ms.sizes n st u ms.all_index k)
          λ es m q. record {
            sizes = es;
            made = refl;
            some_axis =
                rw
                  (length-KeepsUnits I to es q.units ∙ sym (length-Stretches from to st) ∙ sym rank)
                  ms.some_axis;
            all_index = q.all_index;
            units = q.units;
            exact = λ idx b.
                let inside = InBounds-stretch from to idx st b in
                let rest = ms.exact (stretch from idx) (rw (ap shape_of t) inside) in
                let box = q.exact idx b in
                let value =
                  I.broadcast_lem i (tensor to i1) v idx (sym (ap element_type t))
                  ∙ ap (λ ns. I.value v (stretch ns idx)) (ap shape_of t) in
                ((λ h. box.1 (rest.0 (rw value at h))), (λ h. rw value (rest.1 (box.0 h))));
          })

  -- splat of an i1
  switch :
      (i n : ℕ) (shape : List ℕ) (v : Value)
      → type_of v ≡ scalar i1
      → All (λ k. (2 ≤ k) × (k < 2 ^ 31)) shape
      → 0 < length shape
      → Returns
          (λ s m. IsMasked I (splat i (tensor shape i1) v) s)
          (parse_splat v (tensor shape i1) (parse v) n)
  unfolding parse_splat
  switch i n shape v t k some_dim = rw t (
      Returns-bind _ (select_dims v shape n) _ (select_dims_lem I v shape n k) λ ds m q. record {
        sizes = ds;
        made = refl;
        some_axis = rw (length-KeepsUnits I shape ds q.units) some_dim;
        all_index = q.all_index;
        units = q.units;
        exact = λ idx b.
            let value = I.splat_lem i (tensor shape i1) v idx (sym (ap element_type t)) in
            (
              (λ h. q.all_on (rw value at h) idx b),
              (λ h. elim (Bool-cases (is_set (I.value v []))) [
                | inl e ↦ rw value e
                | inr e ↦ absurd (q.all_off e some_dim idx h)
              ]),
            );
      })

  -- On every supported mask the parser returns, without failure or fault, a state of sizes alone, and an
  -- element of the mask is set exactly if its index lies below those sizes on every axis.
  pub parse-Masked_sound :
      {v : Value} (n : ℕ) → Masked I v → Returns (λ s m. IsMasked I v s) (parse v n)
  unfolding parse parse_and parse_expand_dims parse_broadcast scalar_or
  parse-Masked_sound n (bounded i k shape e l r hl hr t small o) =
      parse_bounded I i k n shape e l r hl hr t small o
  parse-Masked_sound n (switched i x shape v t k h) = switch i n shape v t k h
  parse-Masked_sound n (both i shape l r hl hr tl tr) = rw tl (
      Returns-bind _ (parse l n) _ (parse-Masked_sound n hl) λ sl n₁ ml.
        Returns-bind _ (parse r n₁) _ (parse-Masked_sound n₁ hr)
          λ sr n₂ mr. meet i n₂ shape l r sl sr ml mr tl tr)
  parse-Masked_sound n (expanded_mask i axis shape v hv t h) =
      Returns-bind _ (parse v n) _ (parse-Masked_sound n hv)
        λ s n₁ ms. expand i axis n₁ shape v s ms t h
  parse-Masked_sound n (stretched_mask i from to v hv t st k) =
      let same = same_length (length from) (length to) (length-Stretches from to st) in
      rw (t, same)
        (Returns-bind _ (parse v n) _ (parse-Masked_sound n hv)
          λ s n₁ ms. rw same at (stretch_mask i n₁ from to v s ms t st k))
