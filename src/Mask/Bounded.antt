-- ===== src/Mask/Bounded.antt =====
-- A range compared with a uniform tensor: the size that parseCmp computes for the range's axis.
use mathlib.Core.Path.{subst}
use native.Mathlib.Nat.{zero-add}
use spine_triton.Prelude.{
  ℕ, zero, suc, ◌-◌, ◌^◌, ◌≤◌, ◌<◌, get_elem?, set, length, All, List, [], ◌∷◌, some, Bool, true,
  false, pos, ◌+ℤ◌, ◌-ℤ◌, ◌<ℤ◌, ltb_ℤ, max_ℤ, wrap64, wrap64_self, InRange, int_laws, one_sided,
  length-map, ◌↔◌, ◌≡◌, refl, sym, ap, ap₂, ◌∙◌, arith,
}
use native.Mathlib.Decide.{ℕ_discrete}
use spine_triton.Ir.{
  Value, Ty, scalar, memref, with_element, i1, ElementType, tensor, type_of, shape_of, half_range,
  element_of, slt, cmpi, bit, is_set, Interp, Returns, Returns-map, Returns-bind, pure, then_do,
}
use spine_triton.Ofr.{
  Ofr, index_attr, IsIndex, ofr_value, Holds, min_ofrs, max_ofrs, min_ofrs_sound, max_ofrs_sound,
  sub_ofrs_sound,
}
use spine_triton.Mask.State.{MaskState, dims_only}
use spine_triton.Mask.Parse.{clamp_dim, cmp_states, shape_dims, parse, parse_cmp, scalar_or}
use spine_triton.Mask.Coordinates.{InBounds}
use spine_triton.Mask.Meaning.{shape_at, IsUniform, IsRange, IsMasked, Below, KeepsUnits}
use spine_triton.Mask.Supported.{OneWide, Uniform, Ranged}
use spine_triton.Mask.Uniforms.{half_at, parse-Uniform}
use spine_triton.Mask.Ranges.{parse-Ranged}
use spine_triton.Mask.Clamping.{find_axis, coordinate, ltb_ℤ_iff, clamped, clamp_exact, clamp_range}

ones_index :
    (ns : List ℕ) → ((a m : ℕ) → get_elem? ns a ≡ some m → m ≡ 1) → All IsIndex (shape_dims ns)
ones_index [] h = tt
ones_index (x ∷ xs) h =
    let one : x ≡ 1 = h 0 x refl in (rw one (omega arith), ones_index xs (λ a m e. h (suc a) m e))

length-set_dims : (ns : List ℕ) (k : ℕ) (d : Ofr) → length (set (shape_dims ns) k d) ≡ length ns
length-set_dims [] k d = refl
length-set_dims (x ∷ xs) zero d = ap suc (length-map xs (λ n. index_attr (pos n)))
length-set_dims (x ∷ xs) (suc k) d = ap suc (length-set_dims xs k d)

shape_of-with_element : (t : Ty) (e : ElementType) → shape_of (with_element t e) ≡ shape_of t
shape_of-with_element (scalar _) e = refl
shape_of-with_element (tensor s _) e = refl
shape_of-with_element (memref s _) e = refl

is_set-bit : (c : Bool) → is_set (bit c) ≡ c
is_set-bit true = refl
is_set-bit false = refl

some-length : (ns : List ℕ) (k : ℕ) {m : ℕ} → get_elem? ns k ≡ some m → 0 < length ns
some-length [] k h = cc
some-length (x ∷ xs) k h = omega arith

module _ (I : Interp) where
  same_units : (ns : List ℕ) → KeepsUnits I ns (shape_dims ns)
  same_units [] = tt
  same_units (x ∷ xs) = ((λ e. ap pos e), same_units xs)

  ones-Below : (ns idx : List ℕ) → InBounds ns idx → Below I (shape_dims ns) idx
  ones-Below [] [] b = tt
  ones-Below (x ∷ xs) (c ∷ idx) b = (omega (arith, b.0), ones-Below xs idx b.1)
  ones-Below [] (c ∷ idx) b = absurd b
  ones-Below (x ∷ xs) [] b = absurd b

  -- clampDim of a range and a uniform tensor.
  clamp_dim_lem :
      (l r : Value) (sl sr : MaskState) (n : ℕ) (rl : IsRange I l sl) (ur : IsUniform I r sr)
      → rl.extent < 2 ^ 62
      → Returns
          (λ d m. Holds I d (
            clamped (ofr_value I rl.first) (ofr_value I ur.number) (ofr_value I rl.last)
            -ℤ ofr_value I rl.first))
          (clamp_dim sl sr n)
  unfolding clamp_dim
  clamp_dim_lem l r sl sr n rl ur h =
      rw (ap (λ s. s.start) rl.made, ap (λ s. s.end) rl.made, ap (λ s. s.scalar) ur.made)
        (Returns-bind _ (min_ofrs rl.last ur.number n) _
          (min_ofrs_sound I rl.last ur.number n rl.last_index ur.is_index)
          λ low n₁ hl.
            Returns-bind _ (max_ofrs low rl.first n₁) _
              (max_ofrs_sound I low rl.first n₁ hl.0 rl.first_index)
              λ e n₂ he.
                Returns-map
                  {Q = λ d m. Holds I d (
                    clamped (ofr_value I rl.first) (ofr_value I ur.number) (ofr_value I rl.last)
                    -ℤ ofr_value I rl.first)}
                  _
                  (λ d m hd. (
                    hd.0,
                    hd.1
                        ∙ ap (λ z. wrap64 (z -ℤ ofr_value I rl.first))
                            (he.1 ∙ ap (λ z. max_ℤ z (ofr_value I rl.first)) hl.1)
                        ∙ wrap64_self _ (
                            clamp_range (ofr_value I rl.first) (ofr_value I ur.number)
                              (ofr_value I rl.last) rl.extent rl.distance h),
                  ))
                  (sub_ofrs_sound I e rl.first n₂ he.0 rl.first_index))

  -- The box of a range's mask: the axis of the range gets the new size, the other extents are 1.
  module _ (d : Ofr) (d_index : IsIndex d) where
    boxed_index :
        (ns : List ℕ) (k m : ℕ)
        → OneWide ns k
        → get_elem? ns k ≡ some m
        → All IsIndex (set (shape_dims ns) k d)
    boxed_index [] k m o g = tt
    boxed_index (x ∷ xs) zero m o g =
        (d_index, ones_index xs (λ a l e. o (suc a) l e (omega arith)))
    boxed_index (x ∷ xs) (suc k) m o g =
        let one : x ≡ 1 = o 0 x refl (omega arith) in
        (
          rw one (omega arith),
          boxed_index xs k m (λ a l e ne. o (suc a) l e (λ q. ne (omega arith))) g,
        )

    boxed_units :
        (ns : List ℕ) (k m : ℕ)
        → get_elem? ns k ≡ some m
        → 2 ≤ m
        → KeepsUnits I ns (set (shape_dims ns) k d)
    boxed_units [] k m g h = tt
    boxed_units (x ∷ xs) zero m g h =
        let same : x ≡ m = cc in ((λ e. absurd (omega arith)), same_units xs)
    boxed_units (x ∷ xs) (suc k) m g h = ((λ e. ap pos e), boxed_units xs k m g h)

    boxed-Below :
        (ns idx : List ℕ) (k m j : ℕ)
        → OneWide ns k
        → get_elem? ns k ≡ some m
        → InBounds ns idx
        → get_elem? idx k ≡ some j
        → Below I (set (shape_dims ns) k d) idx ↔ (pos j <ℤ ofr_value I d)
    boxed-Below [] idx k m j o g b i = cc
    boxed-Below (x ∷ xs) [] k m j o g b i = absurd b
    boxed-Below (x ∷ xs) (c ∷ idx) zero m j o g b i =
        let same : c ≡ j = cc in rw same ((λ p. p.0), (λ p. (p, ones-Below xs idx b.1)))
    boxed-Below (x ∷ xs) (c ∷ idx) (suc k) m j o g b i =
        let rest =
          boxed-Below xs idx k m j (λ a l e ne. o (suc a) l e (λ q. ne (omega arith))) g b.1 i in
        ((λ p. rest.0 p.1), (λ p. (omega (arith, b.0), rest.1 p)))

  -- The range's elements fit in 32 bits, so its extent is far below 2 ^ 62.
  extent_small :
      (l : Value) (s : MaskState) (r : IsRange I l s)
      → half_range (element_of l) ≤ 2 ^ 31
      → r.extent < 2 ^ 62
  extent_small l s r h =
      let two : 2 ≤ r.extent = r.above_one in
      let (x, x_in, gx) = r.reached 0 (omega (arith, two)) in
      let (y, y_in, gy) = r.reached (r.extent - 1) (omega (arith, two)) in
      let low : InRange (half_range (element_of l)) (ofr_value I r.first +ℤ pos 0) =
        rw (r.holds x 0 x_in gx) at (I.value_fits l x) in
      let high : InRange (half_range (element_of l)) (ofr_value I r.first +ℤ pos (r.extent - 1)) =
        rw (r.holds y (r.extent - 1) y_in gy) at (I.value_fits l y) in
      omega (int_laws, one_sided (ofr_value I r.first))

  cmp_step :
      (l r : Value) (sl sr : MaskState) (n : ℕ) (rl : IsRange I l sl) (ur : IsUniform I r sr)
      → OneWide (shape_at l) rl.axis
      → cmp_states slt sl sr n
        ≡ then_do
            (clamp_dim sl sr n)
            (λ d. pure (dims_only (set (shape_dims (shape_at l)) rl.axis d)))
  unfolding cmp_states
  cmp_step l r sl sr n rl ur o = rw (
    ap (λ s. s.scalar) rl.made,
    ap (λ s. s.dims) rl.made,
    find_axis (shape_at l) 0 rl.axis n rl.extent o rl.wide rl.above_one,
    zero-add rl.axis,
  )

  mask_of_range :
      (i : ℕ) (l r : Value) (sl sr : MaskState) (d : Ofr) (rl : IsRange I l sl)
      (ur : IsUniform I r sr)
      → OneWide (shape_at l) rl.axis
      → shape_at (cmpi i slt l r) ≡ shape_at l
      → Holds I d (
          clamped (ofr_value I rl.first) (ofr_value I ur.number) (ofr_value I rl.last)
          -ℤ ofr_value I rl.first)
      → IsMasked I (cmpi i slt l r) (dims_only (set (shape_dims (shape_at l)) rl.axis d))
  mask_of_range i l r sl sr d rl ur o sh hd = record {
    sizes = set (shape_dims (shape_at l)) rl.axis d;
    made = refl;
    some_axis =
        rw (length-set_dims (shape_at l) rl.axis d) (some-length (shape_at l) rl.axis rl.wide);
    all_index = boxed_index d hd.0 (shape_at l) rl.axis rl.extent o rl.wide;
    units = rw sh (boxed_units d hd.0 (shape_at l) rl.axis rl.extent rl.wide rl.above_one);
    exact = λ idx inside. exact_at idx (subst (λ ns. InBounds ns idx) sh inside);
  }
    where
      exact_at :
          (idx : List ℕ)
          → InBounds (shape_at l) idx
          → (is_set (I.value (cmpi i slt l r) idx) ≡ true)
            ↔ Below I (set (shape_dims (shape_at l)) rl.axis d) idx
      exact_at idx inside =
          let (j, g, lt) = coordinate (shape_at l) idx rl.axis rl.extent inside rl.wide in
          let below = boxed-Below d hd.0 (shape_at l) idx rl.axis rl.extent j o rl.wide inside g in
          let clamp =
            clamp_exact (ofr_value I rl.first) (ofr_value I ur.number) (ofr_value I rl.last)
              rl.extent j rl.distance lt in
          let value : I.value (cmpi i slt l r) idx
              ≡ bit (ltb_ℤ (ofr_value I rl.first +ℤ pos j) (ofr_value I ur.number)) =
            I.cmpi_lem i slt l r idx
            ∙ ap₂ (λ a b. bit (ltb_ℤ a b)) (rl.holds idx j inside g) (ur.holds idx) in
          let test = ltb_ℤ_iff (ofr_value I rl.first +ℤ pos j) (ofr_value I ur.number) in
          (
            λ h. below.1 (
                rw hd.1 (
                  clamp.0 (
                    test.0 (
                      sym
                        (is_set-bit (ltb_ℤ (ofr_value I rl.first +ℤ pos j) (ofr_value I ur.number)))
                      ∙ rw value at h)))),
            λ h. rw value (
                is_set-bit (ltb_ℤ (ofr_value I rl.first +ℤ pos j) (ofr_value I ur.number))
                ∙ test.1 (clamp.1 (rw hd.1 at (below.0 h)))),
          )

  same_axis : (ns : List ℕ) (a k m : ℕ) → OneWide ns k → get_elem? ns a ≡ some m → 2 ≤ m → a ≡ k
  same_axis ns a k m o g h = elim (ℕ_discrete a k) [
    | yes e ↦ e
    | no ne ↦ absurd (omega (arith, o a m g ne))
  ]

  -- parseCmp of a range and a uniform tensor returns, and the state describes the mask.
  pub parse_bounded :
      (i k n : ℕ) (shape : List ℕ) (e : ElementType) (l r : Value)
      → Ranged I l
      → Uniform I r
      → type_of l ≡ tensor shape e
      → half_range e ≤ 2 ^ 31
      → OneWide shape k
      → Returns (λ s m. IsMasked I (cmpi i slt l r) s) (parse (cmpi i slt l r) n)
  unfolding parse parse_cmp scalar_or
  parse_bounded i k n shape e l r hl hr t h o = rw t (
      Returns-bind _ (parse l n) _ (parse-Ranged I n hl) λ sl n₁ rl.
        Returns-bind _ (parse r n₁) _ (parse-Uniform I n₁ hr) λ sr n₂ ur.
          let sh : shape_at l ≡ shape = ap shape_of t in
          let o' : OneWide (shape_at l) rl.axis =
            subst (λ ns. OneWide ns rl.axis) (sym sh)
              (subst (OneWide shape)
                (sym (
                  same_axis shape rl.axis k rl.extent o
                    (ap (λ ns. get_elem? ns rl.axis) (sym sh) ∙ rl.wide) rl.above_one))
                o) in
          rw (cmp_step l r sl sr n₂ rl ur o') (
            Returns-bind _ (clamp_dim sl sr n₂) _
              (clamp_dim_lem l r sl sr n₂ rl ur (extent_small l sl rl (half_at l t h)))
              λ d m hd.
                mask_of_range i l r sl sr d rl ur o' (shape_of-with_element (type_of l) i1) hd))
