-- ===== src/Scan/Value/Sound.antt =====
-- accumulate against what the region stands for.
use mathlib.Core.List.{append-nil}
use mathlib.Core.Path.{subst}
use spine_triton.Prelude.{
  ℕ, zero, suc, ◌+◌, ◌<◌, ◌==◌, length, length-map, get_elem?, List, [], ◌∷◌, ◌++◌, Option, none,
  some, All, Bool-cases, inl, inr, false, ◌≡◌, refl, sym, ap, ◌∙◌, arith,
}
use spine_triton.Scan.Region.{
  BlockOp, returns, operation, Block, Dialect, Mapping, Yields, look_up, look_up_all, map_arguments,
  accumulate,
}
use spine_triton.Scan.Meaning.{Meaning, operand_elements, evaluate, combine, lanes}
use spine_triton.Scan.Accumulate.{Fits}
use spine_triton.Scan.Cloning.{Computes}
use spine_triton.Scan.Combining.{accumulate-Computes}
use spine_triton.Scan.Value.{
  bind, HasDistinctResults, Owns, ReturnsOwn, IsRegion, returned, region_value,
}
use spine_triton.Scan.Value.Bindings.{
  look_up-after, look_up-map_results, pair_up, map_arguments-pair_up, look_up-pair_up,
}

at_index : {B : Type 0} (xs : List B) (i j : ℕ) → i ≡ j → get_elem? xs i ≡ get_elem? xs j
at_index xs i j e = ap (get_elem? xs) e

get_elem?-left :
    {B : Type 0} (xs ys : List B) (j : ℕ) → j < length xs → get_elem? (xs ++ ys) j ≡ get_elem? xs j
get_elem?-left [] ys j h = absurd (omega arith)
get_elem?-left (x ∷ xs) ys zero h = refl
get_elem?-left (x ∷ xs) ys (suc j) h = get_elem?-left xs ys j (omega arith)

get_elem?-right :
    {B : Type 0} (xs ys : List B) (j : ℕ) → get_elem? (xs ++ ys) (length xs + j) ≡ get_elem? ys j
get_elem?-right [] ys j = at_index ys (0 + j) j (omega arith)
get_elem?-right (x ∷ xs) ys j =
    at_index (x ∷ (xs ++ ys)) (suc (length xs) + j) (suc (length xs + j)) (omega arith)
    ∙ get_elem?-right xs ys j

module _ {A : Type 0} where
  -- Every identity has a value.
  abbrev Holds : List ℕ → Mapping A → Type 0
  Holds own env = (id : ℕ) → Owns own id → (a : A) × (look_up env id ≡ some a)

  Holds-bind :
      (ids own : List ℕ) (xs : List A) (env : Mapping A)
      → length xs ≡ length ids
      → Holds own env
      → Holds (ids ++ own) (bind ids xs ++ env)
  unfolding look_up
  Holds-bind [] own [] env l h id o = h id o
  Holds-bind [] own (x ∷ xs) env l h id o = absurd (omega arith)
  Holds-bind (k ∷ ids) own [] env l h id o = absurd (omega arith)
  Holds-bind (k ∷ ids) own (x ∷ xs) env l h id o = elim (Bool-cases (k == id)) [
    | inl e ↦ (x, rw e refl)
    | inr e ↦ rw e (Holds-bind ids own xs env (omega arith) h id (owned e o))
  ]
    where
      owned : (k == id) ≡ false → Owns (k ∷ ids ++ own) id → Owns (ids ++ own) id
      owned e (inl p) = cc
      owned e (inr p) = p

  abbrev Agree : Mapping A → Mapping A → Type 0
  Agree a b = (id : ℕ) → look_up a id ≡ look_up b id

-- Vectors of the shape that hold the region's values, and a cache that fits the shape.
abbrev pub Gives :
    {V E : Type 0} {d : Dialect V} (m : Meaning d E) (s accs ins : List ℕ) (block : Block)
    (acc inputs : List V)
    → List V × Mapping V
    → Type 0
Gives {d = d} m s accs ins block acc inputs r =
    All (λ v. d.shape v ≡ s) r.0
    × ((idx : List ℕ)
        → region_value m accs ins block.operations (lanes m idx acc) (lanes m idx inputs)
          ≡ some (lanes m idx r.0))
    × Fits m s r.1

module _ {V E : Type 0} {d : Dialect V} (m : Meaning d E) where
  operand_elements-Agree :
      (a b : Mapping E) (ids : List ℕ)
      → Agree a b
      → operand_elements m a ids ≡ operand_elements m b ids
  unfolding operand_elements
  operand_elements-Agree a b [] h = refl
  operand_elements-Agree a b (id ∷ ids) h = rw (h id, operand_elements-Agree a b ids h) refl

  look_up_all-Holds :
      (own : List ℕ) (a b : Mapping E) (ids : List ℕ)
      → Agree a b
      → Holds own b
      → All (Owns own) ids
      → look_up_all a ids ≡ some (operand_elements m b ids)
  unfolding operand_elements look_up_all
  look_up_all-Holds own a b [] h k o = refl
  look_up_all-Holds own a b (id ∷ ids) h k o =
      let (e, p) = k id o.0 in rw (h id, p, look_up_all-Holds own a b ids h k o.1) refl

  module _ (sized : (name : ℕ) (es : List E) (n : ℕ) → length (m.scalar name es n) ≡ n) where
    evaluate-returned :
        (ops : List BlockOp) (own : List ℕ) (a b : Mapping E)
        → HasDistinctResults ops
        → ReturnsOwn own ops
        → Agree a b
        → Holds own b
        → (es : List E) × (evaluate m ops a ≡ some es) × (returned m ops b ≡ some es)
    unfolding evaluate returned
    evaluate-returned [] own a b u r h k = absurd r
    evaluate-returned (returns ids ∷ ops) own a b u r h k =
        (operand_elements m b ids, look_up_all-Holds own a b ids h k r, refl)
    evaluate-returned (operation name ids results ∷ ops) own a b u r h k =
        rw (operand_elements-Agree a b ids h) (
          evaluate-returned ops (results ++ own) _ _ u.1 r
            (λ id.
              look_up-map_results results values a id u.0
              ∙ look_up-after (bind results values) a b id (h id))
            (Holds-bind results own values b (sized name _ _) k))
      where
        values : List E
        values = m.scalar name (operand_elements m b ids) (length results)

    combine-region_value :
        (block : Block) (accs ins : List ℕ) (acc inputs : List E)
        → IsRegion block (length acc) accs ins
        → length inputs ≡ length acc
        → (es : List E) × (combine m block acc inputs ≡ some es)
          × (region_value m accs ins block.operations acc inputs ≡ some es)
    unfolding combine
    combine-region_value block accs ins acc inputs r l =
        rw mapped (
          evaluate-returned block.operations (accs ++ ins) _ _ r.results_distinct r.own agree holds)
      where
        given : Mapping E
        given = bind accs acc ++ bind ins inputs

        mapped :
            map_arguments (length acc) 0 block.arguments acc inputs []
            ≡ some (pair_up accs ins acc inputs [])
        mapped =
            rw (r.made, ← r.accs_width)
              (map_arguments-pair_up accs ins (accs ++ ins) acc inputs acc inputs 0 []
                (r.ins_width ∙ sym r.accs_width) (sym r.accs_width) (l ∙ sym r.accs_width)
                (λ j h.
                  at_index (accs ++ ins) (0 + j) j (omega arith) ∙ get_elem?-left accs ins j h)
                (λ j h.
                  at_index (accs ++ ins) (length acc + 0 + j) (length accs + j)
                    (omega (arith, r.accs_width))
                  ∙ get_elem?-right accs ins j)
                (λ j h. at_index acc (0 + j) j (omega arith))
                (λ j h. at_index inputs (0 + j) j (omega arith)))

        agree : Agree (pair_up accs ins acc inputs []) given
        agree id =
            look_up-pair_up accs ins acc inputs [] id (r.ins_width ∙ sym r.accs_width)
              (sym r.accs_width) (l ∙ sym r.accs_width) r.accs_distinct r.ins_distinct r.apart
            ∙ rw (append-nil (bind ins inputs)) refl

        holds : Holds (accs ++ ins) given
        holds = Holds-bind accs ins acc (bind ins inputs) (sym r.accs_width) (
            subst (λ own. Holds own (bind ins inputs)) (append-nil ins)
              (subst (λ env. Holds (ins ++ []) env) (append-nil (bind ins inputs))
                (Holds-bind ins [] inputs [] (l ∙ sym r.ins_width) (λ id o. absurd o))))

    -- Where the region is one for as many accumulators as there are, with distinct arguments and
    -- results, returns values that it defines, and each operation has as many results as it declares,
    -- accumulate of at least one accumulator and as many inputs, vectors of one shape, with a cache
    -- that fits the shape, does not fault: the first arguments are bound to the accumulators, the
    -- others to the inputs, in each lane of the results stands what the region returns then, the
    -- results have the shape, and the cache fits it still.
    pub accumulate-region_value :
        (s : List ℕ) (block : Block) (accs ins : List ℕ) (v a : V) (vs rest : List V)
        (inv : Mapping V)
        → IsRegion block (length (a ∷ rest)) accs ins
        → length vs ≡ length rest
        → All (λ v. d.shape v ≡ s) (v ∷ vs)
        → All (λ v. d.shape v ≡ s) (a ∷ rest)
        → Fits m s inv
        → Yields
            (Gives m s accs ins block (a ∷ rest) (v ∷ vs))
            (accumulate d block (v ∷ vs) (a ∷ rest) inv)
    accumulate-region_value s block accs ins v a vs rest inv r l p q f =
        valued _ (accumulate-Computes m s block v a vs rest inv p q f)
      where
        on_lanes :
            (idx : List ℕ)
            → (es : List E) × (combine m block (lanes m idx (a ∷ rest)) (lanes m idx (v ∷ vs))
                ≡ some es)
              × (region_value m accs ins block.operations
                    (lanes m idx (a ∷ rest))
                    (lanes m idx (v ∷ vs))
                  ≡ some es)
        on_lanes idx =
            combine-region_value block accs ins (lanes m idx (a ∷ rest)) (lanes m idx (v ∷ vs))
              (rw (length-map (a ∷ rest) (λ v. m.lane v idx)) r)
              (length-map (v ∷ vs) (λ v. m.lane v idx)
                ∙ ap suc l
                ∙ sym (length-map (a ∷ rest) (λ v. m.lane v idx)))

        valued :
            (o : Option (List V × Mapping V))
            → Computes m s
                (λ idx. combine m block (lanes m idx (a ∷ rest)) (lanes m idx (v ∷ vs)))
                o
            → Yields (Gives m s accs ins block (a ∷ rest) (v ∷ vs)) o
        valued none c = let (es, e, h) = on_lanes [] in cc (sym e ∙ c [])
        valued (some (us, inv')) c =
            (c.0, λ idx. let (es, e, h) = on_lanes idx in h ∙ sym e ∙ c.1 idx, c.2)
