-- ===== src/Scan/Line/Sound.antt =====
-- The doubling loop of lower1DInput against the scan.
use spine_triton.Prelude.{
  ℕ, zero, suc, ◌-◌, ◌*◌, ◌≤◌, ◌<◌, Bool, true, false, ltb, List, [], ◌∷◌, map, length, ◌≡◌, sym,
  ◌∙◌, arith, length-map, inl, inr, Bool-cases,
}
use spine_triton.Scan.Region.{Block, Dialect, Mapping, Yields, Yields-bind}
use spine_triton.Scan.Meaning.{Meaning, lanes}
use spine_triton.Scan.Accumulate.{Fits}
use spine_triton.Scan.Combining.{CombinesBy}
use spine_triton.Scan.Line.{
  create_shuffle_dummies, line_round, line_loop, vector_size, first_extent, lower_1d_input,
}
use spine_triton.Scan.Line.Rounds.{Sized, Row, Row-map, after_round, line_round-Row}
use spine_triton.Scan.Prefix.{
  stretch_from, stretch_from_zero, mirrored, scanned, window, window-double,
}

module _ {V E : Type 0} {d : Dialect V} {m : Meaning d E} {block : Block} {width : ℕ}
    {f : List E → List E → List E} (c : CombinesBy m block width f) (pos : 0 < width) where
  abbrev HasWidth : List E → Type 0
  HasWidth t = length t ≡ width

  -- What the loop has made of the elements `x` when it is at a stride.
  abbrev at_stride : Bool → ℕ → (ℕ → List E) → ℕ → ℕ → List E
  at_stride reverse size x stride k =
      window f (λ j. x (mirrored f reverse size j)) stride (mirrored f reverse size k)

  at_stride-double :
      (reverse : Bool) (size stride k : ℕ) (x : ℕ → List E)
      → 0 < stride
      → k < size
      → ((k : ℕ) → k < size → HasWidth (x k))
      → after_round c size pos reverse stride (at_stride reverse size x stride) k
        ≡ at_stride reverse size x (stride * 2) k
  unfolding mirrored
  at_stride-double true size stride k x p h w = ground (
    arith,
    window-double f HasWidth c.sized c.assoc (λ j. x (size - 1 - j)) size
        (λ j b. w (size - 1 - j) (omega arith)) stride (size - 1 - k),
  )
  at_stride-double false size stride k x p h w =
      ground (arith, window-double f HasWidth c.sized c.assoc x size w stride k)

  at_stride_end :
      (reverse : Bool) (size stride k : ℕ) (x : ℕ → List E)
      → size ≤ stride
      → k < size
      → at_stride reverse size x stride k ≡ scanned f reverse size x k
  unfolding window scanned mirrored
  at_stride_end true size stride k x h b =
      ground (arith, stretch_from_zero f (λ j. x (size - 1 - j)) (size - 1 - k))
  at_stride_end false size stride k x h b = ground (arith, stretch_from_zero f x k)

  line_loop-Row :
      (fuel stride : ℕ) (reverse : Bool) (size : ℕ) (dummies res : List V) (inv : Mapping V)
      (x : ℕ → List E)
      → size - stride < fuel
      → 0 < stride
      → length dummies ≡ width
      → ((k : ℕ) → k < size → HasWidth (x k))
      → Row c size pos (at_stride reverse size x stride) (res, inv)
      → Yields
          (Row c size pos (scanned f reverse size x))
          (line_loop d fuel stride block reverse size dummies res inv)
  unfolding line_loop
  line_loop-Row zero stride reverse size dummies res inv x h p q w r = absurd (omega arith)
  line_loop-Row (suc fuel) stride reverse size dummies res inv x h p q w r =
      elim (Bool-cases (ltb stride size)) [
        | inr done ↦ rw done (
            Row-map c size pos _ _ (res, inv)
              (λ k b. at_stride_end reverse size stride k x (ground arith) b) r)
        | inl more ↦ rw more (
            Yields-bind (Row c size pos (scanned f reverse size x))
              (line_round d block reverse size stride dummies res inv) _
              (line_round-Row c size pos reverse stride dummies res inv _ (ground arith) q r)
              (λ a s.
                line_loop-Row fuel (stride * 2) reverse size dummies a.0 a.1 x (ground arith)
                  (omega arith) q w
                  (Row-map c size pos _ _ a (λ k b. at_stride-double reverse size stride k x p b w)
                    s)))
      ]

  at_stride_one :
      (reverse : Bool) (size k : ℕ) (x : ℕ → List E) → k < size → at_stride reverse size x 1 k ≡ x k
  unfolding window mirrored stretch_from
  at_stride_one true size k x h = ground (arith, back_again size k h)
    where
      back_again : (size k : ℕ) → k < size → size - 1 - (size - 1 - k) ≡ k
      back_again size k h = omega arith
  at_stride_one false size k x h = ground arith

  -- lower1DInput on vectors of one dimension, as many as an associative region takes: it returns,
  -- with as many vectors of that size, whose lane `k` is the fold of the lanes up to `k`, or of
  -- those from the last down to `k` in reverse, however many the lanes are.
  pub lower_1d_input_sound :
      (reverse : Bool) (size : ℕ) (inputs : List V) (inv : Mapping V)
      → length inputs ≡ width
      → Sized m size inputs
      → Fits m (size ∷ []) inv
      → Yields
          (Row c size pos (scanned f reverse size (λ k. lanes m (k ∷ []) inputs)))
          (lower_1d_input d block reverse inputs inv)
  unfolding lower_1d_input vector_size first_extent create_shuffle_dummies
  lower_1d_input_sound reverse size [] inv h a g = absurd (omega arith)
  lower_1d_input_sound reverse size (v ∷ vs) inv h a g = rw a.0 (
      line_loop-Row (suc size) 1 reverse size (map (λ v. d.zeros (1 ∷ [])) (v ∷ vs)) (v ∷ vs) inv
        (λ k. lanes m (k ∷ []) (v ∷ vs)) (omega arith) (omega arith)
        (length-map (v ∷ vs) (λ v. d.zeros (1 ∷ [])) ∙ h)
        (λ k b. length-map (v ∷ vs) (λ v. m.lane v (k ∷ [])) ∙ h)
        (record {
          counted = h;
          formed = a;
          valued = λ k b. sym (at_stride_one reverse size k (λ k. lanes m (k ∷ []) (v ∷ vs)) b);
          fitting = g;
        }))
