-- ===== src/Mask/Ranges.antt =====
-- Ranges: their parsers return states that describe them.
use spine_triton.Prelude.{
  ℕ, ◌+◌, ◌-◌, ◌/◌, ◌%◌, ◌^◌, ◌≤◌, ◌<◌, ◌==◌, get_elem?, length, List, [], ◌∷◌, some, none, true,
  pos, ◌+ℤ◌, wrap64_self, wrap_self, In64, InRange, int_laws, +ℤ_comm, one_sided, length-map, ◌≡◌,
  refl, sym, ap, ◌∙◌, arith,
}
use mathlib.Core.Path.{subst}
use spine_triton.Ir.{
  Value, ElementType, tensor, type_of, element_of, shape_of, half_range, element_type, make_range,
  binary, addi, expand_dims, drop_at, Interp, Returns, Returns-bind, pure,
}
use spine_triton.Ofr.{Ofr, index_attr, IsIndex, ofr_value, add_ofrs, add_ofrs_sound}
use spine_triton.Mask.State.{MaskState, add_states, add_state_scalar}
use spine_triton.Mask.Parse.{
  parse, scalar_or, parse_add, parse_make_range, parse_expand_dims, shape_dims, insert_at,
}
use spine_triton.Mask.Coordinates.{
  InBounds, shifted, get_elem?-insert_at, get_elem?-drop_at, InBounds-drop_at, InBounds-insert_at,
  get_elem?-insert_at_self, map-insert_at,
}
use spine_triton.Mask.Meaning.{shape_at, IsUniform, IsRange}
use spine_triton.Mask.Supported.{Ranged, arange, add_right, add_left, expanded}
use spine_triton.Mask.Uniforms.{not_below, swap_last, half_at, parse-Uniform}

module _ (I : Interp) where
  stride_one :
      (s e k : ℕ)
      → 2 ≤ k
      → e ≡ s + k
      → e < 2 ^ 31
      → ((((e + 2 ^ 32 - s) % 2 ^ 32 + k - 1) / k) == 1) ≡ true
  stride_one s e k h p q = grind arith

  range_value :
      (i s e k j : ℕ)
      → j < k
      → e ≡ s + k
      → e < 2 ^ 31
      → I.value (make_range i s e k) (j ∷ []) ≡ pos s +ℤ pos j
  range_value i s e k j h p q =
      I.make_range_lem i s e k j h ∙ wrap_self (2 ^ 31) (pos (s + j)) (omega arith) ∙ omega int_laws

  parse_arange :
      (i s e k n : ℕ)
      → 2 ≤ k
      → e ≡ s + k
      → e < 2 ^ 31
      → Returns (λ st m. IsRange I (make_range i s e k) st) (parse_make_range s e k n)
  unfolding parse_make_range
  parse_arange i s e k n h p q = rw (stride_one s e k h p q) record {
    first = index_attr (pos s);
    last = index_attr (pos e);
    axis = 0;
    extent = k;
    made = refl;
    first_index = omega arith;
    last_index = omega arith;
    wide = refl;
    above_one = h;
    distance = omega int_laws;
    reached = λ j lt. (j ∷ [], (lt, tt), refl);
    holds = at;
  }
    where
      at :
          (idx : List ℕ) (j : ℕ)
          → InBounds (k ∷ []) idx
          → get_elem? idx 0 ≡ some j
          → I.value (make_range i s e k) idx ≡ pos s +ℤ pos j
      at [] j b g = absurd b
      at (l ∷ []) j b g = let same : l ≡ j = cc in rw (← same) (range_value i s e k l b.0 p q)
      at (l ∷ l' ∷ r) j b g = absurd b.1

  -- Neither end leaves the 64 bits when every element fits in 32.
  module _ (v w : Value) (s : MaskState) (o : Ofr) (r : IsRange I w s)
      (exact : (idx : List ℕ) → I.value v idx ≡ I.value w idx +ℤ ofr_value I o)
      (small : (idx : List ℕ) → InRange (2 ^ 31) (I.value v idx)) where
    element_small :
        (j : ℕ) → j < r.extent → InRange (2 ^ 31) (ofr_value I r.first +ℤ pos j +ℤ ofr_value I o)
    element_small j h =
        let (idx, inside, g) = r.reached j h in
        rw (exact idx, r.holds idx j inside g) at (small idx)

    first_fits : In64 (ofr_value I r.first +ℤ ofr_value I o)
    first_fits =
        let e = element_small 0 (omega (arith, r.above_one)) in
        let e0 : InRange (2 ^ 31) (ofr_value I r.first +ℤ pos 0 +ℤ ofr_value I o) = e in
        omega (int_laws, one_sided (ofr_value I r.first +ℤ ofr_value I o))

    last_fits : In64 (ofr_value I r.last +ℤ ofr_value I o)
    last_fits =
        let e : InRange (2 ^ 31) (ofr_value I r.first +ℤ pos (r.extent - 1) +ℤ ofr_value I o) =
          element_small (r.extent - 1) (omega (arith, r.above_one)) in
        let two : 2 ≤ r.extent = r.above_one in
        rw r.distance
          (omega (int_laws, one_sided (ofr_value I r.first +ℤ pos r.extent +ℤ ofr_value I o)))

  IsRange-shift :
      (v w : Value) (s : MaskState) (o : Ofr) (n : ℕ)
      → IsRange I w s
      → IsIndex o
      → shape_at v ≡ shape_at w
      → ((idx : List ℕ) → I.value v idx ≡ I.value w idx +ℤ ofr_value I o)
      → ((idx : List ℕ) → InRange (2 ^ 31) (I.value v idx))
      → Returns (λ st m. IsRange I v st) (add_state_scalar s o n)
  unfolding add_state_scalar
  IsRange-shift v w s o n r ho shapes exact small = rw r.made (
      Returns-bind _ (add_ofrs r.first o n) _ (add_ofrs_sound I r.first o n r.first_index ho)
        λ a n₁ ha.
          Returns-bind _ (add_ofrs r.last o n₁) _ (add_ofrs_sound I r.last o n₁ r.last_index ho)
            λ b n₂ hb. record {
              first = a;
              last = b;
              axis = r.axis;
              extent = r.extent;
              made =
                  ap
                    (λ ns. record {
                      start = some a;
                      end = some b;
                      dims = shape_dims ns;
                      scalar = none;
                    })
                    (sym shapes);
              first_index = ha.0;
              last_index = hb.0;
              wide = ap (λ ns. get_elem? ns r.axis) shapes ∙ r.wide;
              above_one = r.above_one;
              distance =
                  hb.1
                  ∙ wrap64_self _ (last_fits v w s o r exact small)
                  ∙ ap (λ z. z +ℤ ofr_value I o) r.distance
                  ∙ swap_last (ofr_value I r.first) (pos r.extent) (ofr_value I o)
                  ∙ ap (λ z. z +ℤ pos r.extent)
                      (sym (ha.1 ∙ wrap64_self _ (first_fits v w s o r exact small)));
              reached = λ j h.
                  let (idx, inside, g) = r.reached j h in
                  (idx, subst (λ ns. InBounds ns idx) (sym shapes) inside, g);
              holds = λ idx j inside g.
                  exact idx
                  ∙ ap (λ z. z +ℤ ofr_value I o)
                      (r.holds idx j (subst (λ ns. InBounds ns idx) shapes inside) g)
                  ∙ swap_last (ofr_value I r.first) (pos j) (ofr_value I o)
                  ∙ ap (λ z. z +ℤ pos j)
                      (sym (ha.1 ∙ wrap64_self _ (first_fits v w s o r exact small)));
            })

  IsRange-expand :
      (i axis : ℕ) (shape : List ℕ) (e : ElementType) (v : Value) (s : MaskState) (n : ℕ)
      → IsRange I v s
      → type_of v ≡ tensor shape e
      → axis ≤ length shape
      → Returns
          (λ st m. IsRange I (expand_dims i (tensor (insert_at axis 1 shape) e) axis v) st)
          (parse_expand_dims (tensor (insert_at axis 1 shape) e) axis (pure s) n)
  unfolding parse_expand_dims
  IsRange-expand i axis shape e v s n r t h =
      let sh : shape_at v ≡ shape = ap shape_of t in
      rw
        (
          r.made,
          get_elem?-insert_at_self axis 1 shape h,
          sh,
          length-map shape (λ k. index_attr (pos k)),
          not_below (length shape) axis h,
        )
        record {
          first = r.first;
          last = r.last;
          axis = shifted axis r.axis;
          extent = r.extent;
          made =
              ap
                (λ ds. record { start = some r.first; end = some r.last; dims = ds; scalar = none })
                (sym (map-insert_at (λ k. index_attr (pos k)) axis 1 shape));
          first_index = r.first_index;
          last_index = r.last_index;
          wide =
              get_elem?-insert_at axis r.axis 1 shape
                (ap (λ ns. get_elem? ns r.axis) (sym sh) ∙ r.wide);
          above_one = r.above_one;
          distance = r.distance;
          reached = λ j lt.
              let (idx, inside, g) = r.reached j lt in
              (
                insert_at axis 0 idx,
                InBounds-insert_at axis shape idx h (subst (λ ns. InBounds ns idx) sh inside),
                get_elem?-insert_at axis r.axis 0 idx g,
              );
          holds = λ idx j inside g.
              I.expand_dims_lem i (tensor (insert_at axis 1 shape) e) axis v idx
                (sym (ap element_type t))
              ∙ r.holds (drop_at axis idx) j
                  (subst (λ ns. InBounds ns (drop_at axis idx)) (sym sh)
                    (InBounds-drop_at axis shape idx h inside))
                  (get_elem?-drop_at axis r.axis idx g);
        }

  add_right_states :
      (l r : Value) (sl sr : MaskState) (n : ℕ) (rl : IsRange I l sl) (ur : IsUniform I r sr)
      → add_states sl sr n ≡ add_state_scalar sl ur.number n
  unfolding add_states
  add_right_states l r sl sr n rl ur = rw (ap (λ s. s.scalar) rl.made, ap (λ s. s.scalar) ur.made)

  add_left_states :
      (l r : Value) (sl sr : MaskState) (n : ℕ) (ul : IsUniform I l sl) (rr : IsRange I r sr)
      → add_states sl sr n ≡ add_state_scalar sr ul.number n
  unfolding add_states
  add_left_states l r sl sr n ul rr = rw (ap (λ s. s.scalar) ul.made, ap (λ s. s.scalar) rr.made)

  sum_small :
      (i : ℕ) (l r : Value) (idx : List ℕ)
      → half_range (element_of l) ≤ 2 ^ 31
      → InRange (2 ^ 31) (I.value (binary i addi l r) idx)
  sum_small i l r idx h =
      let fits : InRange (half_range (element_of l)) (I.value (binary i addi l r) idx) =
        I.value_fits (binary i addi l r) idx in
      (omega (arith, fits.0), omega (arith, fits.1))

  -- The parser of a range returns, and the state describes the range.
  pub parse-Ranged : {v : Value} (n : ℕ) → Ranged I v → Returns (λ s m. IsRange I v s) (parse v n)
  unfolding parse parse_add parse_expand_dims scalar_or
  parse-Ranged n (arange i s e k h p q) = parse_arange i s e k n h p q
  parse-Ranged n (add_right i shape e l r hl hr t small exact) = rw t (
      Returns-bind _ (parse l n) _ (parse-Ranged n hl) λ sl n₁ rl.
        Returns-bind _ (parse r n₁) _ (parse-Uniform I n₁ hr) λ sr n₂ ur.
          rw (add_right_states l r sl sr n₂ rl ur) (
            IsRange-shift (binary i addi l r) l sl ur.number n₂ rl ur.is_index refl
              (λ idx. exact idx ∙ ap (λ z. I.value l idx +ℤ z) (ur.holds idx))
              (λ idx. sum_small i l r idx (half_at l t small))))
  parse-Ranged n (add_left i shape e l r hl hr t t' small exact) = rw t (
      Returns-bind _ (parse l n) _ (parse-Uniform I n hl) λ sl n₁ ul.
        Returns-bind _ (parse r n₁) _ (parse-Ranged n₁ hr) λ sr n₂ rr.
          rw (add_left_states l r sl sr n₂ ul rr) (
            IsRange-shift (binary i addi l r) r sr ul.number n₂ rr ul.is_index
              (ap shape_of (t ∙ sym t'))
              (λ idx.
                exact idx
                ∙ ap (λ z. z +ℤ I.value r idx) (ul.holds idx)
                ∙ +ℤ_comm (ofr_value I ul.number) (I.value r idx))
              (λ idx. sum_small i l r idx (half_at l t small))))
  parse-Ranged n (expanded i axis shape e v hv t h) =
      Returns-bind _ (parse v n) _ (parse-Ranged n hv)
        λ s n₁ r. IsRange-expand i axis shape e v s n₁ r t h
