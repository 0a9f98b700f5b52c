-- ===== src/Scan/Leading.antt =====
-- ScanOpConversion::lowerLeadingDimension: lib/Conversion/TritonToLinalgExperimental/
-- ConvertScanOpPass.cpp.
pub mod Sound
use spine_triton.Prelude.{ℕ, zero, suc, Bool, if◌then◌else◌, List, [], ◌∷◌, Option, none, some, map}
use spine_triton.Scan.Region.{Block, Dialect, Mapping, ◌>>=◌, accumulate}

unfoldable pub front_of : {V : Type 0} → List V → Option V
front_of [] = none
front_of (v ∷ vs) = some v

module _ {V : Type 0} (d : Dialect V) where
  -- The loop over `res` that inserts; a missing new value is a fault.
  unfoldable pub insert_each : List V → List V → List ℕ → Option (List V)
  insert_each news [] at = some []
  insert_each [] (r ∷ rs) at = none
  insert_each (v ∷ vs) (r ∷ rs) at = insert_each vs rs at >>= λ rest. some (d.insert v r at ∷ rest)

  unfoldable pub extract_each : List V → List ℕ → List V
  extract_each inputs at = map (λ v. d.extract v at) inputs

  -- The loop over the leading dimension: the rounds left and, forward, the index; in reverse the
  -- index is one below the rounds left.
  unfoldable pub leading_loop :
      ℕ → ℕ → Block → Bool → List V → List V → List V → Mapping V → Option (List V × Mapping V)
  leading_loop zero i block reverse inputs res acc inv = some (res, inv)
  leading_loop (suc n) i block reverse inputs res acc inv =
      let at : List ℕ = (if reverse then n else i) ∷ [] in
      accumulate d block (extract_each inputs at) acc inv >>= λ r.
      insert_each r.0 res at >>= λ out. leading_loop n (suc i) block reverse inputs out r.0 r.1

  unfoldable pub leading_from :
      List ℕ → Block → Bool → List V → List V → Mapping V → Option (List V × Mapping V)
  leading_from [] block reverse inputs res inv = none
  leading_from (n ∷ s) block reverse inputs res inv =
      leading_loop n 0 block reverse inputs res [] inv

  -- `results` is what stands for the result types, one entry for each.
  unfoldable pub lower_leading_dimension :
      Block → Bool → List (List ℕ) → List V → Mapping V → Option (List V × Mapping V)
  unfolding leading_from leading_loop insert_each extract_each front_of
  lower_leading_dimension block reverse results inputs inv = front_of inputs >>= λ v.
      leading_from (d.shape v) block reverse inputs (map (λ _. d.zeros (d.shape v)) results) inv
