-- ===== src/Scan/Whole.antt =====
-- matchAndRewrite against the scan along the axis, for every rank.
use spine_triton.Prelude.{
  ℕ, suc, ◌*◌, ◌<◌, ◌==◌, true, false, List, [], ◌∷◌, ◌++◌, Option, none, some, length,
  length-append, All, ◌≡◌, refl, ap, ◌∙◌, arith, length-map,
}
use spine_triton.Scan.Region.{Dialect, Mapping, Yields, Yields-map}
use spine_triton.Scan.Meaning.{Meaning, Indexing, lanes, Within, product, row_major}
use spine_triton.Scan.Accumulate.{Fits}
use spine_triton.Scan.Combining.{CombinesBy}
use spine_triton.Scan.Prefix.{scanned}
use spine_triton.Scan.Line.{lower_1d_input}
use spine_triton.Scan.Line.Rounds.{Row}
use spine_triton.Scan.Line.Sound.{lower_1d_input_sound}
use spine_triton.Scan.Leading.{front_of}
use spine_triton.Scan.Leading.Sound.{Scanned, lower_leading_dimension_sound}
use spine_triton.Scan.Dispatch.{
  ScanOp, Rewrite, unmatched, replaced, make_empty_results, sub_vectors, rewritten, trailing_of,
  non_trailing_of, lower_trailing_dimension, lower_non_trailing_dimension, match_and_rewrite, take,
}
use spine_triton.Scan.Enumerate.{
  linear-lt, scaled, take-row_major, pop_back-row_major, back-append, back-scaled, product-append,
}
use spine_triton.Scan.Sound.{Lowers, Placed, sub_vectors-Placed}

-- The shape to which values from outside the region are broadcast: that of the vectors which the
-- region is applied to.
abbrev pub operand_shape : ℕ → List ℕ → List ℕ
operand_shape size [] = size ∷ []
operand_shape size (n ∷ s) = n ∷ s

module _ {V E : Type 0} {d : Dialect V} {m : Meaning d E} (ix : Indexing d) (op : ScanOp)
    {width : ℕ} {f : List E → List E → List E} (c : CombinesBy m op.region width f)
    (pos : 0 < width) where
  -- The vectors that replace the operation hold, at each index, the fold along the axis.
  abbrev pub IsScan : ℕ → List ℕ → List ℕ → List V → Rewrite V → Type 0
  IsScan size s lead inputs unmatched = ⊥
  IsScan size s lead inputs (replaced vs inv) =
      (length vs ≡ width)
      × All (λ v. d.shape v ≡ lead ++ size ∷ s) vs
      × ((at : List ℕ) (k : ℕ) (rest : List ℕ)
          → Within at lead
          → k < size
          → Within rest s
          → lanes m (at ++ k ∷ rest) vs
            ≡ scanned f op.reverse size (λ i. lanes m (at ++ i ∷ rest) inputs) k)
      × Fits m (operand_shape size s) inv

  line_Lowers :
      (size : ℕ)
      → Lowers ix c pos op.reverse size [] (size ∷ []) (lower_1d_input d op.region op.reverse)
  line_Lowers size subs inv h a g =
      Yields-map (lower_1d_input d op.region op.reverse subs inv)
        (λ r p. record {
          counted = p.counted;
          formed = p.formed;
          valued = λ k rest b w. in_line subs r p k rest b w;
          fitting = p.fitting;
        })
        (lower_1d_input_sound c pos op.reverse size subs inv h a g)
    where
      in_line :
          (subs : List V) (r : List V × Mapping V)
          → Row c size pos (scanned f op.reverse size (λ k. lanes m (k ∷ []) subs)) r
          → (k : ℕ) (rest : List ℕ) → k < size
          → Within rest []
          → lanes m (k ∷ rest) r.0 ≡ scanned f op.reverse size (λ j. lanes m (j ∷ rest) subs) k
      in_line subs r p k [] b w = p.valued k b
      in_line subs r p k (n ∷ rest) b w = absurd w

  empty_shapes :
      (s : List ℕ) (results : List (List ℕ))
      → All (λ t. t ≡ s) results
      → All (λ v. d.shape v ≡ s) (make_empty_results d results)
  unfolding make_empty_results
  empty_shapes s [] a = tt
  empty_shapes s (t ∷ results) a = (m.zeros_shape t ∙ a.0, empty_shapes s results a.1)

  -- The loop over sub-vectors from its start, with what it is given by its callers.
  looped :
      (size : ℕ) (s lead : List ℕ) (lower : List V → Mapping V → Option (List V × Mapping V))
      (inputs : List V) (inv : Mapping V) (fuel : ℕ)
      → product lead < fuel
      → 0 < product (size ∷ s)
      → Lowers ix c pos op.reverse size s (operand_shape size s) lower
      → length inputs ≡ width
      → length op.results ≡ width
      → All (λ v. d.shape v ≡ lead ++ size ∷ s) inputs
      → All (λ t. t ≡ lead ++ size ∷ s) op.results
      → Fits m (operand_shape size s) inv
      → Yields (IsScan size s lead inputs) (
          rewritten d (
            sub_vectors d fuel 0
              (product (size ∷ s))
              (product lead * product (size ∷ s))
              (scaled lead (product (size ∷ s)))
              lower
              inputs
              (make_empty_results d op.results)
              inv))
  unfolding make_empty_results rewritten
  looped size s lead lower inputs inv fuel h p l i k a t g =
      let z : 0 * product (size ∷ s) ≡ 0 = omega arith in
      finish _ (
        rw z at (
          sub_vectors-Placed ix c pos fuel 0 op.reverse size s lead (operand_shape size s) lower
            inputs (make_empty_results d op.results) inv (omega arith) (omega arith) p l i a
            (record {
              counted = length-map op.results d.zeros ∙ k;
              formed = empty_shapes (lead ++ size ∷ s) op.results t;
              placed = λ at k rest w b kb rb. absurd (omega arith);
            })
            g))
    where
      finish :
          (o : Option (List V × Mapping V))
          → Yields
              (λ r.
                Placed ix c pos op.reverse size s lead inputs (product lead) r.0
                × Fits m (operand_shape size s) r.1)
              o
          → Yields (IsScan size s lead inputs) (rewritten d o)
      finish none y = absurd y
      finish (some (vs, inv)) y = (
        y.0.counted,
        y.0.formed,
        λ at k rest w kb rb. y.0.placed at k rest w (linear-lt at lead w) kb rb,
        y.1,
      )

  Scanned-IsScan :
      (size : ℕ) (s cached : List ℕ) (inputs : List V) (o : Option (List V × Mapping V))
      → operand_shape size s ≡ cached
      → Yields (Scanned c pos op.reverse size s cached inputs) o
      → Yields (IsScan size s [] inputs) (rewritten d o)
  unfolding rewritten
  Scanned-IsScan size s cached inputs none e y = absurd y
  Scanned-IsScan size s cached inputs (some (vs, inv)) e y =
      (y.counted, y.formed, whole, rw e y.fitting)
    where
      whole :
          (at : List ℕ) (k : ℕ) (rest : List ℕ)
          → Within at []
          → k < size
          → Within rest s
          → lanes m (at ++ k ∷ rest) vs
            ≡ scanned f op.reverse size (λ i. lanes m (at ++ i ∷ rest) inputs) k
      whole [] k rest w b v = y.valued k rest b v
      whole (j ∷ at) k rest w b v = absurd w

  enough : (p q : ℕ) → 0 < q → p < suc (p * q)
  enough p q h = grind arith

  -- matchAndRewrite on as many operands of one shape as the region takes, at an axis with any
  -- number of dimensions before and after it: it replaces the operation by as many vectors of that
  -- shape, and each element is the fold, along the axis, of the elements up to it, or of those from
  -- the last down to it if the scan is reversed. It asks that the extents of the axis and of the
  -- dimensions after it are positive, that the results have the operands' shape, and that earlier
  -- broadcasts of outer values have the shape that the region is applied to.
  pub match_and_rewrite_sound :
      (size : ℕ) (s lead : List ℕ) (inputs : List V) (inv : Mapping V)
      → op.axis ≡ length lead
      → op.rank ≡ length (lead ++ size ∷ s)
      → 0 < product (size ∷ s)
      → length inputs ≡ width
      → length op.results ≡ width
      → All (λ v. d.shape v ≡ lead ++ size ∷ s) inputs
      → All (λ t. t ≡ lead ++ size ∷ s) op.results
      → Fits m (operand_shape size s) inv
      → Yields (IsScan size s lead inputs) (match_and_rewrite d op (some inputs) inv)
  unfolding match_and_rewrite front_of lower_trailing_dimension lower_non_trailing_dimension
      trailing_of non_trailing_of
  match_and_rewrite_sound size s lead [] inv ax rk p i k a t g = absurd (omega arith)
  match_and_rewrite_sound size [] [] (v ∷ vs) inv ax rk p i k a t g =
      let last : (suc op.axis == op.rank) ≡ true = ground arith in
      rw (last, a.0)
        (Scanned-IsScan size [] (size ∷ []) (v ∷ vs) _ refl (line_Lowers size (v ∷ vs) inv i a g))
  match_and_rewrite_sound size [] (b ∷ lead) (v ∷ vs) inv ax rk p i k a t g =
      let last : (suc op.axis == op.rank) ≡ true = ground (arith, length-append lead (size ∷ [])) in
      let many : (length (b ∷ lead ++ size ∷ []) == 1) ≡ false =
        ground (arith, length-append lead (size ∷ [])) in
      let one : product (size ∷ []) ≡ size = omega arith in
      rw
        (
          last,
          a.0,
          many,
          back-append (b ∷ lead) size,
          ix.num_elements_lem v,
          a.0,
          ix.compute_strides_lem (b ∷ lead ++ size ∷ []),
          pop_back-row_major (b ∷ lead) size,
          product-append (b ∷ lead) (size ∷ []),
          one,
        )
        (rw one at (
          looped size [] (b ∷ lead) (lower_1d_input d op.region op.reverse) (v ∷ vs) inv
            (suc (product (b ∷ lead) * product (size ∷ []))) (enough _ _ p) p (line_Lowers size) i k
            a t g))
  match_and_rewrite_sound size (n ∷ s) [] (v ∷ vs) inv ax rk p i k a t g =
      let inner : (suc op.axis == op.rank) ≡ false = ground arith in
      let first : (op.axis == 0) ≡ true = ground arith in
      rw (inner, first)
        (Scanned-IsScan size (n ∷ s) (n ∷ s) (v ∷ vs) _ refl (
          lower_leading_dimension_sound c pos op.reverse size (n ∷ s) op.results (v ∷ vs) inv i k a
            g))
  match_and_rewrite_sound size (n ∷ s) (b ∷ lead) (v ∷ vs) inv ax rk p i k a t g =
      let inner : (suc op.axis == op.rank) ≡ false =
        ground (arith, length-append lead (size ∷ n ∷ s)) in
      let later : (op.axis == 0) ≡ false = ground arith in
      let some_strides : take op.axis (row_major (b ∷ lead ++ size ∷ n ∷ s))
          ≡ scaled (b ∷ lead) (product (size ∷ n ∷ s)) =
        ap (λ (x : ℕ). take x (row_major (b ∷ lead ++ size ∷ n ∷ s))) ax
        ∙ take-row_major (b ∷ lead) (size ∷ n ∷ s) in
      rw
        (
          inner,
          later,
          ix.num_elements_lem v,
          ix.compute_strides_lem (d.shape v),
          a.0,
          some_strides,
          back-scaled b lead (product (size ∷ n ∷ s)),
          product-append (b ∷ lead) (size ∷ n ∷ s),
        )
        (looped size (n ∷ s) (b ∷ lead) _ (v ∷ vs) inv _ (enough _ _ p) p
          (λ subs cache h e z.
            lower_leading_dimension_sound c pos op.reverse size (n ∷ s) op.results subs cache h k e
              z)
          i k a t g)
