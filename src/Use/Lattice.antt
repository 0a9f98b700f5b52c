-- ===== src/Use/Lattice.antt =====
-- include/triton-shared/Analysis/UseAnalysis.h: the uses of a value and how one joins another. The
-- states of the analysis are a map from values, which are numbers, to uses.
use spine_triton.Prelude.{ℕ, Bool, true, false, ◌==◌, List, [], ◌∷◌, if◌then◌else◌}

pub data UseType : Type 0 where
  undefined data_use meta_use mix_use : UseType

-- meetUseType: the new use of `type`, and whether it changed.
unfoldable pub meet_use_type : UseType → UseType → UseType × Bool
meet_use_type type undefined = (type, false)
meet_use_type undefined other = (other, true)
meet_use_type data_use data_use = (data_use, false)
meet_use_type data_use other = (mix_use, true)
meet_use_type meta_use meta_use = (meta_use, false)
meet_use_type meta_use other = (mix_use, true)
meet_use_type mix_use other = (mix_use, false)

abbrev pub Uses : Type 0
Uses = ℕ → UseType

abbrev pub assign : Uses → ℕ → UseType → Uses
assign uses v u w = if w == v then u else uses w

-- propagateUse. The solver visits the operations that read a changed state again.
unfoldable pub propagate_use : ℕ → UseType → Uses → Uses
propagate_use v u uses = assign uses v (meet_use_type (uses v) u).0

unfoldable pub propagate_results : ℕ → List ℕ → Uses → Uses
unfolding propagate_use
propagate_results v [] uses = uses
propagate_results v (r ∷ rs) uses = propagate_results v rs (propagate_use v (uses r) uses)
