-- ===== src/Scan/Cloning.antt =====
-- The clone of the combine region against the region on every element.
use spine_triton.Prelude.{
  ℕ, List, [], ◌∷◌, Option, none, some, length, All, ◌≡◌, refl, sym, ap, ap₂, ◌∙◌, Option-cases,
  inl, inr,
}
use spine_triton.Scan.Region.{
  BlockOp, returns, operation, Dialect, Mapping, look_up, look_up_all, map_results,
  lookup_mapped_value, operand_values, clone_operations,
}
use spine_triton.Scan.Meaning.{Meaning, value_or, operand_elements, evaluate, lanes}
use spine_triton.Scan.Accumulate.{
  mapping_lanes, look_up-lanes, look_up_all-lanes, map_results-lanes, MapsTo, Fits, broadcast-Fits,
  map_results-MapsTo,
}

module _ {V E : Type 0} {d : Dialect V} (m : Meaning d E) (s : List ℕ) where
  -- A vector of the shape whose lanes are given, and a cache that fits.
  pub record Element (lane : List ℕ → E) (r : V × Mapping V) : Type 0 where
    pub shaped : d.shape r.0 ≡ s
    pub valued : (idx : List ℕ) → m.lane r.0 idx ≡ lane idx
    pub fitting : Fits m s r.1

  pub record Elements (tuple : List ℕ → List E) (r : List V × Mapping V) : Type 0 where
    pub shaped : All (λ v. d.shape v ≡ s) r.0
    pub valued : (idx : List ℕ) → lanes m idx r.0 ≡ tuple idx
    pub fitting : Fits m s r.1

  -- The call faults exactly where the region on elements does, and else returns what it computes.
  abbrev pub Computes : (List ℕ → Option (List E)) → Option (List V × Mapping V) → Type 0
  Computes tuple none = (idx : List ℕ) → tuple idx ≡ none
  Computes tuple (some (vs, inv)) =
      All (λ v. d.shape v ≡ s) vs
      × ((idx : List ℕ) → tuple idx ≡ some (lanes m idx vs))
      × Fits m s inv

  pub Computes-eq :
      (t u : List ℕ → Option (List E)) (o : Option (List V × Mapping V))
      → ((idx : List ℕ) → t idx ≡ u idx)
      → Computes t o
      → Computes u o
  Computes-eq t u none e c = λ idx. sym (e idx) ∙ c idx
  Computes-eq t u (some (vs, inv)) e c = (c.0, λ idx. sym (e idx) ∙ c.1 idx, c.2)

  operand-Element :
      (env : Mapping V) (id : ℕ) (inv : Mapping V)
      → MapsTo m s env
      → Fits m s inv
      → Element
          (λ idx. value_or m (m.outer id) (look_up (mapping_lanes m idx env) id))
          (lookup_mapped_value d env id s inv)
  unfolding lookup_mapped_value
  operand-Element env id inv h f = elim (Option-cases (look_up env id)) [
    | inr (v, e) ↦ rw e (record {
      shaped = h id v e;
      valued = λ idx. rw (look_up-lanes m idx env id, e) refl;
      fitting = f;
    })
    | inl e ↦ elim (Option-cases (look_up inv id)) [
      | inr (v, k) ↦
          rw (e, k)
            (record {
              shaped = f.shaped id v k;
              valued = λ idx. rw (look_up-lanes m idx env id, e) (f.valued id v idx k);
              fitting = f;
            })
      | inl k ↦
          rw (e, k)
            (record {
              shaped = m.broadcast_shape s id;
              valued = λ idx. rw (look_up-lanes m idx env id, e) (m.broadcast_lane s id idx);
              fitting = broadcast-Fits m s id inv f;
            })
    ]
  ]

  operands-Elements :
      (env : Mapping V) (ids : List ℕ) (inv : Mapping V)
      → MapsTo m s env
      → Fits m s inv
      → Elements
          (λ idx. operand_elements m (mapping_lanes m idx env) ids)
          (operand_values d env ids s inv)
  unfolding operand_elements operand_values
  operands-Elements env [] inv h f = record { shaped = tt; valued = λ idx. refl; fitting = f }
  operands-Elements env (id ∷ ids) inv h f =
      let one = operand-Element env id inv h f in
      let rest = operands-Elements env ids (lookup_mapped_value d env id s inv).1 h one.fitting in
      record {
        shaped = (one.shaped, rest.shaped);
        valued = λ idx. ap₂ ◌∷◌ (one.valued idx) (rest.valued idx);
        fitting = rest.fitting;
      }

  look_up_all-shaped :
      (env : Mapping V) (ids : List ℕ) (vs : List V)
      → MapsTo m s env
      → look_up_all env ids ≡ some vs
      → All (λ v. d.shape v ≡ s) vs
  unfolding look_up_all
  look_up_all-shaped env [] vs h e = let k : vs ≡ [] = cc in rw k tt
  look_up_all-shaped env (id ∷ ids) vs h e = elim (Option-cases (look_up env id)) [
    | inl p ↦ cc
    | inr (v, p) ↦ elim (Option-cases (look_up_all env ids)) [
      | inl q ↦ cc
      | inr (rest, q) ↦
          let k : vs ≡ v ∷ rest = cc in rw k (h id v p, look_up_all-shaped env ids rest h q)
    ]
  ]

  pub clone-Computes :
      (ops : List BlockOp) (env inv : Mapping V)
      → MapsTo m s env
      → Fits m s inv
      → Computes
          (λ idx. evaluate m ops (mapping_lanes m idx env))
          (clone_operations d ops env s inv)
  unfolding evaluate clone_operations
  clone-Computes [] env inv h f = λ idx. refl
  clone-Computes (returns ids ∷ ops) env inv h f = elim (Option-cases (look_up_all env ids)) [
    | inl e ↦ rw e (λ idx. rw (look_up_all-lanes m idx env ids, e) refl)
    | inr (vs, e) ↦
        rw e (
          look_up_all-shaped env ids vs h e,
          λ idx. rw (look_up_all-lanes m idx env ids, e) refl,
          f,
        )
  ]
  clone-Computes (operation name ids results ∷ ops) env inv h f =
      let given = operands-Elements env ids inv h f in
      let vs = (operand_values d env ids s inv).0 in
      let news = d.create name vs (length results) s in
      Computes-eq _ _ _
        (λ idx. ap (evaluate m ops) (
          map_results-lanes m idx results news env
          ∙ ap (λ es. map_results results es (mapping_lanes m idx env))
              (m.create_lanes name vs (length results) s given.shaped idx
                ∙ ap (λ es. m.scalar name es (length results)) (given.valued idx))))
        (clone-Computes ops (map_results results news env) _
          (map_results-MapsTo m s results news env (m.create_shapes name vs (length results) s) h)
          given.fitting)
