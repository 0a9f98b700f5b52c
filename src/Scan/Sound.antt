-- ===== src/Scan/Sound.antt =====
-- The shapes and the parts of matchAndRewrite against the scan along the axis.
use spine_triton.Prelude.{
  ℕ, zero, suc, ◌+◌, ◌*◌, ◌≤◌, ◌<◌, ltb, ltb→lt, Bool, List, [], ◌∷◌, ◌++◌, Option, length, All,
  ◌≡◌, refl, sym, ap, ◌∙◌, arith, Bool-cases, inl, inr,
}
use mathlib.Core.Path.{fun_ext}
use native.Mathlib.Decide.{dec_lt}
use spine_triton.Scan.Region.{Block, Dialect, Mapping, Yields, Yields-bind, Yields-map}
use spine_triton.Scan.Meaning.{Meaning, Indexing, lanes, Within, product, coordinates}
use spine_triton.Scan.Accumulate.{Fits}
use spine_triton.Scan.Combining.{CombinesBy}
use spine_triton.Scan.Prefix.{scanned}
use spine_triton.Scan.Leading.{insert_each, extract_each}
use spine_triton.Scan.Subvectors.{
  extract_each-shapes, extract_each-lanes, length-extract_each, insert_each-Inserted,
}
use spine_triton.Scan.Leading.Sound.{Scanned}
use spine_triton.Scan.Dispatch.{sub_vectors}
use spine_triton.Scan.Enumerate.{linear, scaled, coordinates-linear, linear_surjective}

module _ {V E : Type 0} {d : Dialect V} {m : Meaning d E} (ix : Indexing d) {block : Block}
    {width : ℕ} {f : List E → List E → List E} (c : CombinesBy m block width f)
    (pos : 0 < width) where
  abbrev pub Lower : Type 0
  Lower = List V → Mapping V → Option (List V × Mapping V)

  -- A lowering of sub-vectors scans them along their first dimension.
  abbrev pub Lowers : Bool → ℕ → List ℕ → List ℕ → Lower → Type 0
  Lowers reverse size s cached lower =
      (subs : List V) (inv : Mapping V)
      → length subs ≡ width
      → All (λ v. d.shape v ≡ size ∷ s) subs
      → Fits m cached inv
      → Yields (Scanned c pos reverse size s cached subs) (lower subs inv)

  -- The sub-vectors whose position is below `j` are scanned.
  pub record Placed (reverse : Bool) (size : ℕ) (s lead : List ℕ) (inputs : List V) (j : ℕ)
      (res : List V) : Type 0 where
    pub counted : length res ≡ width
    pub formed : All (λ v. d.shape v ≡ lead ++ size ∷ s) res
    pub placed :
        (at : List ℕ) (k : ℕ) (rest : List ℕ)
        → Within at lead
        → linear at lead < j
        → k < size
        → Within rest s
        → lanes m (at ++ k ∷ rest) res
          ≡ scanned f reverse size (λ i. lanes m (at ++ i ∷ rest) inputs) k

  length_of_Within : (at lead : List ℕ) → Within at lead → length at ≡ length lead
  length_of_Within [] [] w = refl
  length_of_Within [] (n ∷ lead) w = absurd w
  length_of_Within (k ∷ at) [] w = absurd w
  length_of_Within (k ∷ at) (n ∷ lead) w = ap suc (length_of_Within at lead w.1)

  linear_injective :
      (at other lead : List ℕ)
      → Within at lead
      → Within other lead
      → linear at lead ≡ linear other lead
      → at ≡ other
  linear_injective at other lead w v e =
      sym (coordinates-linear at lead 1 (omega arith) w)
      ∙ ap (λ (j : ℕ). coordinates (j * 1) (scaled lead 1)) e
      ∙ coordinates-linear other lead 1 (omega arith) v

  -- One round: the sub-vectors at an index are scanned and put back.
  round-Placed :
      (reverse : Bool) (size : ℕ) (s lead cached : List ℕ) (inputs res : List V) (at : List ℕ)
      (r : List V × Mapping V)
      → Within at lead
      → Placed reverse size s lead inputs (linear at lead) res
      → Scanned c pos reverse size s cached (extract_each d inputs at) r
      → Yields (Placed reverse size s lead inputs (suc (linear at lead))) (insert_each d r.0 res at)
  round-Placed reverse size s lead cached inputs res at r w p q =
      Yields-map (insert_each d r.0 res at)
        (λ out o. record {
          counted = o.counted ∙ p.counted;
          formed = o.formed;
          placed = λ other k rest v b kb rb. elim (dec_lt (linear other lead) (linear at lead)) [
            | yes less ↦
                o.there other (k ∷ rest)
                  (length_of_Within at lead w ∙ sym (length_of_Within other lead v))
                  (λ e. omega (arith, ap (λ x. linear x lead) e))
                ∙ p.placed other k rest v less kb rb
            | no more ↦
                let e : at ≡ other = linear_injective at other lead w v (omega arith) in
                rw (← e) (
                  o.here (k ∷ rest)
                  ∙ q.valued k rest kb rb
                  ∙ ap (λ t. scanned f reverse size t k)
                      (fun_ext λ i. extract_each-lanes m inputs at (i ∷ rest)))
          ];
        })
        (insert_each-Inserted m r.0 res at (lead ++ size ∷ s) (q.counted ∙ sym p.counted) p.formed)

  below_total : (j n inner : ℕ) → j * inner < n * inner → j < n
  below_total j n inner h = grind arith

  at_total : (j n inner : ℕ) → 0 < inner → n * inner ≤ j * inner → n ≤ j
  at_total j n inner p h = grind arith

  pub sub_vectors-Placed :
      (fuel j : ℕ) (reverse : Bool) (size : ℕ) (s lead cached : List ℕ) (lower : Lower)
      (inputs res : List V) (inv : Mapping V)
      → product lead < fuel + j
      → j ≤ product lead
      → 0 < product (size ∷ s)
      → Lowers reverse size s cached lower
      → length inputs ≡ width
      → All (λ v. d.shape v ≡ lead ++ size ∷ s) inputs
      → Placed reverse size s lead inputs j res
      → Fits m cached inv
      → Yields
          (λ r. Placed reverse size s lead inputs (product lead) r.0 × Fits m cached r.1)
          (sub_vectors d fuel
            (j * product (size ∷ s))
            (product (size ∷ s))
            (product lead * product (size ∷ s))
            (scaled lead (product (size ∷ s)))
            lower
            inputs
            res
            inv)
  unfolding sub_vectors
  sub_vectors-Placed zero j reverse size s lead cached lower inputs res inv h b p l i a w g =
      absurd (omega arith)
  sub_vectors-Placed (suc fuel) j reverse size s lead cached lower inputs res inv h b p l i a w g =
      let inner : ℕ = product (size ∷ s) in
      let Q : List V × Mapping V → Type 0 =
        λ r. Placed reverse size s lead inputs (product lead) r.0 × Fits m cached r.1 in
      elim (Bool-cases (ltb (j * inner) (product lead * inner))) [
        | inr done ↦
            let e : product lead ≡ j =
              omega (arith, at_total j (product lead) inner p (ground arith)) in
            rw done (rw e (w, g))
        | inl more ↦
            let less : j < product lead = below_total j (product lead) inner (ltb→lt _ _ more) in
            let (at, v, e) = linear_surjective j lead less in
            let here : d.delinearize (j * inner) (scaled lead inner) ≡ at =
              ix.delinearize_lem (j * inner) (scaled lead inner)
              ∙ ap (λ (x : ℕ). coordinates (x * inner) (scaled lead inner)) (sym e)
              ∙ coordinates-linear at lead inner p v in
            let next : j * inner + inner ≡ suc j * inner = omega arith in
            rw (more, here)
              (Yields-bind Q (lower (extract_each d inputs at) inv) _
                (l (extract_each d inputs at) inv (length-extract_each m inputs at ∙ i)
                  (extract_each-shapes m inputs at lead (size ∷ s) (length_of_Within at lead v) a)
                  g)
                (λ r q.
                  Yields-bind Q (insert_each d r.0 res at) _
                    (round-Placed reverse size s lead cached inputs res at r v (rw e w) q)
                    (λ out o. rw next (
                      sub_vectors-Placed fuel (suc j) reverse size s lead cached lower inputs out
                        r.1 (omega arith) (omega arith) p l i a (rw e at o) q.fitting))))
      ]
