-- ===== src/Scan/Combining.antt =====
-- What accumulate makes of the inputs and the accumulators, and the cache of broadcast invariants.
use mathlib.Core.Option
use mathlib.Core.Option.{some-injective}
use spine_triton.Prelude.{
  ℕ, zero, suc, ◌+◌, ◌<◌, List, [], ◌∷◌, Option, none, some, length, get_elem?, All, ◌≡◌, refl, sym,
  ap, ◌∙◌, arith, Option-cases, length-map, inl, inr,
}
use spine_triton.Scan.Region.{
  Block, Dialect, Mapping, Yields, look_up, map_pair, map_arguments, lookup_mapped_value,
  clone_operations, accumulate,
}
use spine_triton.Scan.Meaning.{Meaning, combine, lanes}
use spine_triton.Scan.Accumulate.{mapping_lanes, map_arguments-lanes, MapsTo, Fits, cons-MapsTo}
use spine_triton.Scan.Cloning.{Computes, Computes-eq, clone-Computes}

module _ {V : Type 0} (d : Dialect V) where
  -- A value from outside the region that an earlier call broadcast to one shape is found again with
  -- that shape, whatever shape a later call asks for and whatever other values were broadcast.
  pub lookup_mapped_value_keeps_shape :
      (m m' inv : Mapping V) (id : ℕ) (s t : List ℕ)
      → look_up m id ≡ none
      → look_up m' id ≡ none
      → (lookup_mapped_value d m' id t (lookup_mapped_value d m id s inv).1).0
        ≡ (lookup_mapped_value d m id s inv).0
  unfolding lookup_mapped_value look_up
  lookup_mapped_value_keeps_shape m m' inv id s t h k = elim (Option-cases (look_up inv id)) [
    | inl e ↦ rw (h, e, k) (ground arith)
    | inr (v, e) ↦ rw (h, e, k, e) refl
  ]

module _ {V E : Type 0} {d : Dialect V} (m : Meaning d E) (s : List ℕ) where
  get_elem?-All :
      (vs : List V) (i : ℕ) (v : V)
      → All (λ v. d.shape v ≡ s) vs
      → get_elem? vs i ≡ some v
      → d.shape v ≡ s
  get_elem?-All [] i v a e = cc
  get_elem?-All (w ∷ vs) zero v a e = let k : w ≡ v = cc in rw (← k) a.0
  get_elem?-All (w ∷ vs) (suc i) v a e = get_elem?-All vs i v a.1 e

  map_arguments-MapsTo :
      (n i : ℕ) (args : List ℕ) (acc inputs : List V) (env out : Mapping V)
      → All (λ v. d.shape v ≡ s) acc
      → All (λ v. d.shape v ≡ s) inputs
      → MapsTo m s env
      → map_arguments n i args acc inputs env ≡ some out
      → MapsTo m s out
  unfolding map_arguments map_pair
  map_arguments-MapsTo zero i args acc inputs env out a b h e = let k : env ≡ out = cc in rw (← k) h
  map_arguments-MapsTo (suc n) i args acc inputs env out a b h e =
      elim (Option-cases (get_elem? args i)) [
        | inl x ↦ cc (rw x at e)
        | inr (p, x) ↦ elim (Option-cases (get_elem? args (length acc + i))) [
          | inl y ↦ cc (rw (x, y) at e)
          | inr (q, y) ↦ elim (Option-cases (get_elem? acc i)) [
            | inl z ↦ cc (rw (x, y, z) at e)
            | inr (v, z) ↦ elim (Option-cases (get_elem? inputs i)) [
              | inl w ↦ cc (rw (x, y, z, w) at e)
              | inr (u, w) ↦
                  map_arguments-MapsTo n (suc i) args acc inputs _ out a b
                    (cons-MapsTo m s q u _ (get_elem?-All inputs i u b w)
                      (cons-MapsTo m s p v env (get_elem?-All acc i v a z) h))
                    (rw (x, y, z, w) at e)
            ]
          ]
        ]
      ]

  []-MapsTo : MapsTo m s []
  unfolding look_up
  []-MapsTo id v e = cc

  -- On vectors of one shape, and with a cache that fits the shape, the call faults exactly where
  -- `combine` has no value on the elements; else every lane of its result is what the region makes
  -- of that lane of the accumulators and of the inputs, the results have the shape, and the cache
  -- fits it still.
  pub accumulate-Computes :
      (block : Block) (v a : V) (vs rest : List V) (inv : Mapping V)
      → All (λ v. d.shape v ≡ s) (v ∷ vs)
      → All (λ v. d.shape v ≡ s) (a ∷ rest)
      → Fits m s inv
      → Computes m s
          (λ idx. combine m block (lanes m idx (a ∷ rest)) (lanes m idx (v ∷ vs)))
          (accumulate d block (v ∷ vs) (a ∷ rest) inv)
  unfolding accumulate combine
  accumulate-Computes block v a vs rest inv p q f = elim (Option-cases arguments) [
    | inl e ↦ rw e (λ idx. rw (step idx, e) refl)
    | inr (env, e) ↦
        rw (e, p.0)
          (Computes-eq m s _ _ (clone_operations d block.operations env s inv)
            (λ idx. rw (step idx, e) refl)
            (clone-Computes m s block.operations env inv
              (map_arguments-MapsTo _ 0 block.arguments (a ∷ rest) (v ∷ vs) [] env q p []-MapsTo e)
              f))
  ]
    where
      arguments : Option (Mapping V)
      arguments = map_arguments (length (a ∷ rest)) 0 block.arguments (a ∷ rest) (v ∷ vs) []

      step :
          (idx : List ℕ)
          → map_arguments
              (length (lanes m idx (a ∷ rest)))
              0
              block.arguments
              (lanes m idx (a ∷ rest))
              (lanes m idx (v ∷ vs))
              []
            ≡ Option.map
                (mapping_lanes m idx)
                (map_arguments (length (a ∷ rest)) 0 block.arguments (a ∷ rest) (v ∷ vs) [])
      step idx =
          rw (length-map rest (λ v. m.lane v idx))
            (map_arguments-lanes m idx (length (a ∷ rest)) 0 block.arguments (a ∷ rest) (v ∷ vs) [])

-- The region computes an associative function on tuples of a width, and never faults on them: what
-- the verifier of tt.scan and its documentation ask of the region.
pub record CombinesBy {V E : Type 0} {d : Dialect V} (m : Meaning d E) (block : Block) (width : ℕ)
    (f : List E → List E → List E) : Type 0 where
  pub defined :
      (a b : List E) → length a ≡ width → length b ≡ width → combine m block a b ≡ some (f a b)
  pub sized : (a b : List E) → length a ≡ width → length b ≡ width → length (f a b) ≡ width
  pub assoc :
      (a b c : List E)
      → length a ≡ width
      → length b ≡ width
      → length c ≡ width
      → f (f a b) c ≡ f a (f b c)

module _ {V E : Type 0} {d : Dialect V} {m : Meaning d E} {block : Block} {width : ℕ}
    {f : List E → List E → List E} (c : CombinesBy m block width f) (s : List ℕ) where
  -- As many vectors of the shape as the region takes accumulators, with the given lanes.
  pub record Tuple (tuple : List ℕ → List E) (r : List V × Mapping V) : Type 0 where
    pub sized : length r.0 ≡ width
    pub shaped : All (λ v. d.shape v ≡ s) r.0
    pub valued : (idx : List ℕ) → lanes m idx r.0 ≡ tuple idx
    pub fitting : Fits m s r.1

  Computes-Tuple :
      (t : List ℕ → List E) (o : Option (List V × Mapping V))
      → ((idx : List ℕ) → length (t idx) ≡ width)
      → Computes m s (λ idx. some (t idx)) o
      → Yields (Tuple t) o
  Computes-Tuple t none w h = cc (h [])
  Computes-Tuple t (some (vs, inv)) w h = record {
    sized = sym (length-map vs (λ v. m.lane v [])) ∙ ap length (sym (given [])) ∙ w [];
    shaped = h.0;
    valued = λ idx. sym (given idx);
    fitting = h.2;
  }
    where
      given : (idx : List ℕ) → t idx ≡ lanes m idx vs
      given idx = some-injective _ _ (h.1 idx)

  pub accumulate-Tuple :
      (vs acc : List V) (inv : Mapping V)
      → 0 < width
      → length vs ≡ width
      → length acc ≡ width
      → All (λ v. d.shape v ≡ s) vs
      → All (λ v. d.shape v ≡ s) acc
      → Fits m s inv
      → Yields (Tuple (λ idx. f (lanes m idx acc) (lanes m idx vs))) (accumulate d block vs acc inv)
  accumulate-Tuple [] acc inv w p q a b h = absurd (omega arith)
  accumulate-Tuple (v ∷ vs) [] inv w p q a b h = absurd (omega arith)
  accumulate-Tuple (v ∷ vs) (u ∷ acc) inv w p q a b h =
      Computes-Tuple _ _
        (λ idx.
          c.sized _ _ (length-map (u ∷ acc) (λ v. m.lane v idx) ∙ q)
            (length-map (v ∷ vs) (λ v. m.lane v idx) ∙ p))
        (Computes-eq m s _ _ _
          (λ idx.
            c.defined _ _ (length-map (u ∷ acc) (λ v. m.lane v idx) ∙ q)
              (length-map (v ∷ vs) (λ v. m.lane v idx) ∙ p))
          (accumulate-Computes m s block v u vs acc inv a b h))
