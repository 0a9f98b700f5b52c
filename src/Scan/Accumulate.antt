-- ===== src/Scan/Accumulate.antt =====
-- accumulate against the region's meaning on elements.
use mathlib.Core.Option
use spine_triton.Prelude.{
  ℕ, zero, suc, ◌+◌, ◌==◌, List, [], ◌∷◌, Option, none, some, length, get_elem?, All, ◌≡◌, refl,
  arith, Bool-cases, length-map, inl, inr,
}
use spine_triton.Scan.Region.{
  Dialect, Mapping, ◌>>=◌, look_up, look_up_all, map_pair, map_arguments, map_results,
}
use spine_triton.Scan.Meaning.{Meaning, lanes}

module _ {V E : Type 0} {d : Dialect V} (m : Meaning d E) where
  abbrev pub mapping_lanes : List ℕ → Mapping V → Mapping E
  mapping_lanes idx [] = []
  mapping_lanes idx ((k, v) ∷ env) = (k, m.lane v idx) ∷ mapping_lanes idx env

  get_elem?-lanes :
      (idx : List ℕ) (vs : List V) (i : ℕ)
      → get_elem? (lanes m idx vs) i ≡ Option.map (λ v. m.lane v idx) (get_elem? vs i)
  get_elem?-lanes idx [] i = refl
  get_elem?-lanes idx (v ∷ vs) zero = refl
  get_elem?-lanes idx (v ∷ vs) (suc i) = get_elem?-lanes idx vs i

  pub look_up-lanes :
      (idx : List ℕ) (env : Mapping V) (id : ℕ)
      → look_up (mapping_lanes idx env) id ≡ Option.map (λ v. m.lane v idx) (look_up env id)
  unfolding look_up
  look_up-lanes idx [] id = refl
  look_up-lanes idx ((k, v) ∷ env) id = elim (Bool-cases (k == id)) [
    | inl e ↦ rw e refl
    | inr e ↦ rw e (look_up-lanes idx env id)
  ]

  pub look_up_all-lanes :
      (idx : List ℕ) (env : Mapping V) (ids : List ℕ)
      → look_up_all (mapping_lanes idx env) ids ≡ Option.map (lanes m idx) (look_up_all env ids)
  unfolding look_up_all
  look_up_all-lanes idx env [] = refl
  look_up_all-lanes idx env (id ∷ ids) =
      ground (arith, look_up-lanes idx env id, look_up_all-lanes idx env ids)

  pub map_results-lanes :
      (idx : List ℕ) (ids : List ℕ) (vs : List V) (env : Mapping V)
      → mapping_lanes idx (map_results ids vs env)
        ≡ map_results ids (lanes m idx vs) (mapping_lanes idx env)
  unfolding map_results
  map_results-lanes idx [] vs env = refl
  map_results-lanes idx (id ∷ ids) [] env = refl
  map_results-lanes idx (id ∷ ids) (v ∷ vs) env = map_results-lanes idx ids vs ((id, v) ∷ env)

  pub map_arguments-lanes :
      (idx : List ℕ) (n i : ℕ) (args : List ℕ) (acc inputs : List V) (env : Mapping V)
      → map_arguments n i args (lanes m idx acc) (lanes m idx inputs) (mapping_lanes idx env)
        ≡ Option.map (mapping_lanes idx) (map_arguments n i args acc inputs env)
  unfolding map_arguments map_pair
  map_arguments-lanes idx zero i args acc inputs env = refl
  map_arguments-lanes idx (suc n) i args acc inputs env =
      rw
        (
          length-map acc (λ v. m.lane v idx),
          get_elem?-lanes idx acc i,
          get_elem?-lanes idx inputs i,
        )
        (by_parts
          (λ p q a b. map_arguments-lanes idx n (suc i) args acc inputs ((q, b) ∷ (p, a) ∷ env))
          (get_elem? args i) (get_elem? args (length acc + i)) (get_elem? acc i)
          (get_elem? inputs i))
    where
      by_parts :
          ((p q : ℕ) (a b : V)
            → map_arguments n
                (suc i)
                args
                (lanes m idx acc)
                (lanes m idx inputs)
                ((q, m.lane b idx) ∷ (p, m.lane a idx) ∷ mapping_lanes idx env)
              ≡ Option.map
                  (mapping_lanes idx)
                  (map_arguments n (suc i) args acc inputs ((q, b) ∷ (p, a) ∷ env)))
          → (p q : Option ℕ) (a b : Option V)
          → (p >>= λ p. q >>= λ q. Option.map (λ v. m.lane v idx) a >>= λ a.
              Option.map (λ v. m.lane v idx) b >>= λ b.
              map_arguments n
                (suc i)
                args
                (lanes m idx acc)
                (lanes m idx inputs)
                (map_pair p q (mapping_lanes idx env) a b))
            ≡ Option.map (mapping_lanes idx) (
                p >>= λ p. q >>= λ q. a >>= λ a.
                b >>= λ b. map_arguments n (suc i) args acc inputs (map_pair p q env a b))
      by_parts ih none q a b = refl
      by_parts ih (some p) none a b = refl
      by_parts ih (some p) (some q) none b = refl
      by_parts ih (some p) (some q) (some a) none = refl
      by_parts ih (some p) (some q) (some a) (some b) = ih p q a b

  -- Every vector of the mapping has the shape.
  abbrev pub MapsTo : List ℕ → Mapping V → Type 0
  MapsTo s env = (id : ℕ) (v : V) → look_up env id ≡ some v → d.shape v ≡ s

  -- The cache of invariants holds their broadcasts, to the shape.
  pub record Fits (s : List ℕ) (inv : Mapping V) : Type 0 where
    pub shaped : (id : ℕ) (v : V) → look_up inv id ≡ some v → d.shape v ≡ s
    pub valued :
        (id : ℕ) (v : V) (idx : List ℕ) → look_up inv id ≡ some v → m.lane v idx ≡ m.outer id

  pub []-Fits : (s : List ℕ) → Fits s []
  unfolding look_up
  []-Fits s = record { shaped = λ id v h. cc; valued = λ id v idx h. cc }

  pub cons-MapsTo :
      (s : List ℕ) (k : ℕ) (w : V) (env : Mapping V)
      → d.shape w ≡ s
      → MapsTo s env
      → MapsTo s ((k, w) ∷ env)
  unfolding look_up
  cons-MapsTo s k w env e h id v p = ground (arith, h id v)

  pub broadcast-Fits :
      (s : List ℕ) (k : ℕ) (inv : Mapping V) → Fits s inv → Fits s ((k, d.broadcast s k) ∷ inv)
  unfolding look_up
  broadcast-Fits s k inv f = record {
    shaped = cons-MapsTo s k (d.broadcast s k) inv (m.broadcast_shape s k) f.shaped;
    valued = λ id v idx p. ground (arith, f.valued id v idx, m.broadcast_lane s k idx);
  }

  pub map_results-MapsTo :
      (s ids : List ℕ) (vs : List V) (env : Mapping V)
      → All (λ v. d.shape v ≡ s) vs
      → MapsTo s env
      → MapsTo s (map_results ids vs env)
  unfolding map_results
  map_results-MapsTo s [] vs env a h = h
  map_results-MapsTo s (id ∷ ids) [] env a h = h
  map_results-MapsTo s (id ∷ ids) (v ∷ vs) env a h =
      map_results-MapsTo s ids vs ((id, v) ∷ env) a.1 (cons-MapsTo s id v env a.0 h)
