-- ===== src/Scan/Leading/Sound.antt =====
-- lowerLeadingDimension against the scan along the first dimension.
use native.Mathlib.Decide.{dec_lt}
use spine_triton.Prelude.{
  ℕ, zero, suc, ◌+◌, ◌<◌, Bool, true, false, if◌then◌else◌, List, [], ◌∷◌, map, length, All, ◌≡◌,
  ◌≢◌, refl, sym, ap, ap₂, ◌∙◌, arith, length-map,
}
use spine_triton.Scan.Region.{Block, Dialect, Mapping, Yields, Yields-bind, Yields-map, accumulate}
use spine_triton.Scan.Meaning.{Meaning, lanes, Within}
use spine_triton.Scan.Accumulate.{Fits}
use spine_triton.Scan.Combining.{CombinesBy, accumulate-Tuple}
use spine_triton.Scan.Subvectors.{
  extract_each-shapes, extract_each-lanes, length-extract_each, insert_each-Inserted,
}
use spine_triton.Scan.Prefix.{scan_forward, mirrored, scanned}
use spine_triton.Scan.Leading.{
  insert_each, extract_each, leading_loop, leading_from, front_of, lower_leading_dimension,
}

module _ {V E : Type 0} {d : Dialect V} {m : Meaning d E} {block : Block} {width : ℕ}
    {f : List E → List E → List E} (c : CombinesBy m block width f) (pos : 0 < width) where
  -- The element that the scan of `inputs` along its first dimension meets in its round `j`.
  abbrev met : Bool → ℕ → List V → List ℕ → ℕ → List E
  met reverse size inputs rest j = lanes m (mirrored f reverse size j ∷ rest) inputs

  -- As many vectors as the region takes accumulators, of a shape, scanned along the first
  -- dimension: in reverse from the last element on.
  pub record Scanned (reverse : Bool) (size : ℕ) (s cached : List ℕ) (inputs : List V)
      (r : List V × Mapping V) : Type 0 where
    pub counted : length r.0 ≡ width
    pub formed : All (λ v. d.shape v ≡ size ∷ s) r.0
    pub valued :
        (k : ℕ) (rest : List ℕ)
        → k < size
        → Within rest s
        → lanes m (k ∷ rest) r.0 ≡ scanned f reverse size (λ j. lanes m (j ∷ rest) inputs) k
    pub fitting : Fits m cached r.1

  -- The accumulators before round `i`.
  abbrev Reached : Bool → ℕ → List ℕ → List V → ℕ → List V → Type 0
  Reached reverse size s inputs zero acc = acc ≡ []
  Reached reverse size s inputs (suc i) acc =
      (length acc ≡ width)
      × All (λ v. d.shape v ≡ s) acc
      × ((rest : List ℕ) → lanes m rest acc ≡ scan_forward f (met reverse size inputs rest) i)

  -- What is in the results before round `i`.
  record Filled (reverse : Bool) (size : ℕ) (s : List ℕ) (inputs : List V) (i : ℕ) (res : List V)
      : Type 0 where
    counted : length res ≡ width
    formed : All (λ v. d.shape v ≡ size ∷ s) res
    filled :
        (j : ℕ) (rest : List ℕ)
        → j < i
        → lanes m (mirrored f reverse size j ∷ rest) res
          ≡ scan_forward f (met reverse size inputs rest) j

  accumulate-Reached :
      (reverse : Bool) (size : ℕ) (s : List ℕ) (inputs acc : List V) (inv : Mapping V) (i : ℕ)
      → length inputs ≡ width
      → All (λ v. d.shape v ≡ size ∷ s) inputs
      → Reached reverse size s inputs i acc
      → Fits m s inv
      → Yields
          (λ r. Reached reverse size s inputs (suc i) r.0 × Fits m s r.1)
          (accumulate d block (extract_each d inputs (mirrored f reverse size i ∷ [])) acc inv)
  unfolding accumulate scan_forward
  accumulate-Reached reverse size s inputs acc inv zero h a r g = rw r (
    (
      length-extract_each m inputs _ ∙ h,
      extract_each-shapes m inputs (mirrored f reverse size 0 ∷ []) (size ∷ []) s refl a,
      λ rest. extract_each-lanes m inputs _ rest,
    ),
    g,
  )
  accumulate-Reached reverse size s inputs acc inv (suc i) h a r g =
      Yields-map
        (accumulate d block (extract_each d inputs (mirrored f reverse size (suc i) ∷ [])) acc inv)
        (λ o p. (
          (
            p.sized,
            p.shaped,
            λ rest. p.valued rest ∙ ap₂ f (r.2 rest) (extract_each-lanes m inputs _ rest),
          ),
          p.fitting,
        ))
        (accumulate-Tuple c s _ acc inv pos (length-extract_each m inputs _ ∙ h) r.0
          (extract_each-shapes m inputs (mirrored f reverse size (suc i) ∷ []) (size ∷ []) s refl a)
          r.1 g)

  mirrored_ne :
      (reverse : Bool) (size i j : ℕ)
      → j < i
      → i < size
      → mirrored f reverse size i ≢ mirrored f reverse size j
  unfolding mirrored
  mirrored_ne true size i j h b = omega arith
  mirrored_ne false size i j h b = omega arith

  insert-Filled :
      (reverse : Bool) (size : ℕ) (s : List ℕ) (inputs acc res : List V) (i : ℕ)
      → i < size
      → Filled reverse size s inputs i res
      → Reached reverse size s inputs (suc i) acc
      → Yields
          (Filled reverse size s inputs (suc i))
          (insert_each d acc res (mirrored f reverse size i ∷ []))
  insert-Filled reverse size s inputs acc res i b w r =
      Yields-map (insert_each d acc res (mirrored f reverse size i ∷ []))
        (λ out p. record {
          counted = p.counted ∙ w.counted;
          formed = p.formed;
          filled = λ j rest h. elim (dec_lt j i) [
            | yes q ↦
                p.there (mirrored f reverse size j ∷ []) rest refl
                  (λ e. mirrored_ne reverse size i j q b (cc))
                ∙ w.filled j rest q
            | no q ↦ let e : j ≡ i = omega arith in rw e (p.here rest ∙ r.2 rest)
          ];
        })
        (insert_each-Inserted m acc res (mirrored f reverse size i ∷ []) (size ∷ s)
          (r.0 ∙ sym w.counted) w.formed)

  index_of_round :
      (reverse : Bool) (size n i : ℕ)
      → suc n + i ≡ size
      → (if reverse then n else i) ≡ mirrored f reverse size i
  unfolding mirrored
  index_of_round true size n i h = omega arith
  index_of_round false size n i h = refl

  leading_loop-Filled :
      (n i : ℕ) (reverse : Bool) (size : ℕ) (s : List ℕ) (inputs res acc : List V) (inv : Mapping V)
      → n + i ≡ size
      → length inputs ≡ width
      → All (λ v. d.shape v ≡ size ∷ s) inputs
      → Filled reverse size s inputs i res
      → Reached reverse size s inputs i acc
      → Fits m s inv
      → Yields
          (λ r. Filled reverse size s inputs size r.0 × Fits m s r.1)
          (leading_loop d n i block reverse inputs res acc inv)
  unfolding leading_loop
  leading_loop-Filled zero i reverse size s inputs res acc inv e h a w r g =
      let k : i ≡ size = omega arith in (rw k at w, g)
  leading_loop-Filled (suc n) i reverse size s inputs res acc inv e h a w r g =
      let Q : List V × Mapping V → Type 0 =
        λ r. Filled reverse size s inputs size r.0 × Fits m s r.1 in
      rw (index_of_round reverse size n i e) (
        Yields-bind Q
          (accumulate d block (extract_each d inputs (mirrored f reverse size i ∷ [])) acc inv) _
          (accumulate-Reached reverse size s inputs acc inv i h a r g)
          (λ o p.
            Yields-bind Q (insert_each d o.0 res (mirrored f reverse size i ∷ [])) _
              (insert-Filled reverse size s inputs o.0 res i (omega arith) w p.0)
              (λ out q.
                leading_loop-Filled n (suc i) reverse size s inputs out o.0 o.1 (omega arith) h a q
                  p.0 p.1)))

  mirrored_twice :
      (reverse : Bool) (size k : ℕ)
      → k < size
      → (mirrored f reverse size (mirrored f reverse size k) ≡ k)
        × (mirrored f reverse size k < size)
  unfolding mirrored
  mirrored_twice true size k h = omega arith
  mirrored_twice false size k h = (refl, h)

  zeros_shapes :
      (s : List ℕ) (results : List (List ℕ))
      → All (λ v. d.shape v ≡ s) (map (λ _. d.zeros s) results)
  zeros_shapes s [] = tt
  zeros_shapes s (t ∷ results) = (m.zeros_shape s, zeros_shapes s results)

  -- lowerLeadingDimension on vectors of a shape, as many as the region takes: it returns, with as
  -- many vectors, whose element at each place along the first dimension is the fold of the elements
  -- up to it, or of those from the last down to it in reverse.
  pub lower_leading_dimension_sound :
      (reverse : Bool) (size : ℕ) (s : List ℕ) (results : List (List ℕ)) (inputs : List V)
      (inv : Mapping V)
      → length inputs ≡ width
      → length results ≡ width
      → All (λ v. d.shape v ≡ size ∷ s) inputs
      → Fits m s inv
      → Yields
          (Scanned reverse size s s inputs)
          (lower_leading_dimension d block reverse results inputs inv)
  unfolding lower_leading_dimension leading_from front_of scanned
  lower_leading_dimension_sound reverse size s results [] inv h k a g = absurd (omega arith)
  lower_leading_dimension_sound reverse size s results (v ∷ vs) inv h k a g = rw a.0 (
      Yields-map
        (leading_loop d size 0 block reverse (v ∷ vs) (map (λ _. d.zeros (size ∷ s)) results) []
          inv)
        (λ r p. record {
          counted = p.0.counted;
          formed = p.0.formed;
          valued = λ k rest b w.
              let t = mirrored_twice reverse size k b in
              ap (λ n. lanes m (n ∷ rest) r.0) (sym t.0)
              ∙ p.0.filled (mirrored f reverse size k) rest t.1;
          fitting = p.1;
        })
        (leading_loop-Filled size 0 reverse size s (v ∷ vs) _ [] inv (omega arith) h a
          (record {
            counted = length-map results (λ _. d.zeros (size ∷ s)) ∙ k;
            formed = zeros_shapes (size ∷ s) results;
            filled = λ j rest b. absurd (omega arith);
          })
          refl g))
