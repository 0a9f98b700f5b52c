-- ===== src/Scan/Subvectors.antt =====
-- The loops that take sub-vectors out and put them back, and lowerLeadingDimension's loop.
use spine_triton.Prelude.{
  ℕ, suc, List, [], ◌∷◌, ◌++◌, length, All, ◌≡◌, ◌≢◌, refl, ap, ap₂, ◌∙◌, arith, length-map,
}
use spine_triton.Scan.Region.{Dialect, Yields, Yields-bind}
use spine_triton.Scan.Meaning.{Meaning, lanes}
use spine_triton.Scan.Leading.{insert_each, extract_each}

module _ {V E : Type 0} {d : Dialect V} (m : Meaning d E) where
  pub extract_each-shapes :
      (inputs : List V) (at extents s : List ℕ)
      → length at ≡ length extents
      → All (λ v. d.shape v ≡ extents ++ s) inputs
      → All (λ v. d.shape v ≡ s) (extract_each d inputs at)
  unfolding extract_each
  extract_each-shapes [] at extents s h a = tt
  extract_each-shapes (v ∷ vs) at extents s h a =
      (m.extract_shape v at extents s h a.0, extract_each-shapes vs at extents s h a.1)

  pub extract_each-lanes :
      (inputs : List V) (at rest : List ℕ)
      → lanes m rest (extract_each d inputs at) ≡ lanes m (at ++ rest) inputs
  unfolding extract_each
  extract_each-lanes [] at rest = refl
  extract_each-lanes (v ∷ vs) at rest =
      ap₂ ◌∷◌ (m.extract_lane v at rest) (extract_each-lanes vs at rest)

  pub length-extract_each :
      (inputs : List V) (at : List ℕ) → length (extract_each d inputs at) ≡ length inputs
  unfolding extract_each
  length-extract_each inputs at = length-map inputs (λ v. d.extract v at)

  pub record Inserted (news olds : List V) (at s : List ℕ) (out : List V) : Type 0 where
    pub counted : length out ≡ length olds
    pub formed : All (λ v. d.shape v ≡ s) out
    pub here : (rest : List ℕ) → lanes m (at ++ rest) out ≡ lanes m rest news
    pub there :
        (other rest : List ℕ)
        → length at ≡ length other
        → at ≢ other
        → lanes m (other ++ rest) out ≡ lanes m (other ++ rest) olds

  pub insert_each-Inserted :
      (news olds : List V) (at s : List ℕ)
      → length news ≡ length olds
      → All (λ v. d.shape v ≡ s) olds
      → Yields (Inserted news olds at s) (insert_each d news olds at)
  unfolding insert_each
  insert_each-Inserted [] [] at s h a = record {
    counted = refl;
    formed = tt;
    here = λ rest. refl;
    there = λ other rest p q. refl;
  }
  insert_each-Inserted (n ∷ news) [] at s h a = absurd (omega arith)
  insert_each-Inserted [] (o ∷ olds) at s h a = absurd (omega arith)
  insert_each-Inserted (n ∷ news) (o ∷ olds) at s h a =
      Yields-bind (Inserted (n ∷ news) (o ∷ olds) at s) (insert_each d news olds at) _
        (insert_each-Inserted news olds at s (omega arith) a.1)
        (λ out r. record {
          counted = ap suc r.counted;
          formed = (m.insert_shape n o at ∙ a.0, r.formed);
          here = λ rest. ap₂ ◌∷◌ (m.insert_lane n o at rest) (r.here rest);
          there = λ other rest p q.
              ap₂ ◌∷◌ (m.insert_other n o at other rest p q) (r.there other rest p q);
        })
