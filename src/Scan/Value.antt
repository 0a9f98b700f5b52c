-- ===== src/Scan/Value.antt =====
-- What the combine region of a tt.scan stands for on elements, by the documentation of the operation:
-- its first arguments are the accumulators, the others the inputs, and a value that the region does
-- not define comes from outside.
pub mod Bindings
pub mod Sound
use spine_triton.Prelude.{
  ℕ, length, ◌==◌, List, [], ◌∷◌, ◌++◌, Option, none, some, All, true, false, ◌≡◌, ◌⊎◌,
}
use spine_triton.Scan.Region.{BlockOp, returns, operation, Block, Dialect, Mapping}
use spine_triton.Scan.Meaning.{Meaning, operand_elements}

module _ {A : Type 0} where
  -- Each identity with its value.
  abbrev pub bind : List ℕ → List A → Mapping A
  bind (id ∷ ids) (a ∷ xs) = (id, a) ∷ bind ids xs
  bind _ _ = []

abbrev pub Absent : ℕ → List ℕ → Type 0
Absent id ids = All (λ k. (k == id) ≡ false) ids

abbrev pub Distinct : List ℕ → Type 0
Distinct [] = Unit
Distinct (id ∷ ids) = Absent id ids × Distinct ids

-- No operation defines one value twice.
abbrev pub HasDistinctResults : List BlockOp → Type 0
HasDistinctResults [] = Unit
HasDistinctResults (returns ids ∷ ops) = HasDistinctResults ops
HasDistinctResults (operation name ids results ∷ ops) = Distinct results × HasDistinctResults ops

abbrev pub Owns : List ℕ → ℕ → Type 0
Owns [] id = ⊥
Owns (k ∷ own) id = ((k == id) ≡ true) ⊎ Owns own id

-- The region has a return, which returns values that the region defines.
abbrev pub ReturnsOwn : List ℕ → List BlockOp → Type 0
ReturnsOwn own [] = ⊥
ReturnsOwn own (returns ids ∷ ops) = All (Owns own) ids
ReturnsOwn own (operation name ids results ∷ ops) = ReturnsOwn (results ++ own) ops

-- A region for `width` accumulators.
pub record IsRegion (block : Block) (width : ℕ) (accs ins : List ℕ) : Type 0 where
  pub made : block.arguments ≡ accs ++ ins
  pub accs_width : length accs ≡ width
  pub ins_width : length ins ≡ width
  pub accs_distinct : Distinct accs
  pub ins_distinct : Distinct ins
  pub apart : All (λ p. Absent p ins) accs
  pub results_distinct : HasDistinctResults block.operations
  pub own : ReturnsOwn (accs ++ ins) block.operations

module _ {V E : Type 0} {d : Dialect V} (m : Meaning d E) where
  unfoldable pub returned : List BlockOp → Mapping E → Option (List E)
  returned [] env = none
  returned (returns ids ∷ ops) env = some (operand_elements m env ids)
  returned (operation name ids results ∷ ops) env =
      returned ops
        (bind results (m.scalar name (operand_elements m env ids) (length results)) ++ env)

  -- What the region makes of a tuple of accumulators and one of inputs.
  abbrev pub region_value : List ℕ → List ℕ → List BlockOp → List E → List E → Option (List E)
  region_value accs ins ops acc inputs = returned ops (bind accs acc ++ bind ins inputs)
