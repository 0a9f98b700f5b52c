-- ===== src/Use/Tagging.antt =====
-- lib/Analysis/UseAnalysis.cpp, runUseAnalysis: the tag of an operation from the uses of its results,
-- and the clone that its meta users read. The attributes set under LLVM_DEBUG are not modelled.
use spine_triton.Prelude.{
  ℕ, Bool, true, false, not, ◌&&◌, ◌||◌, ◌==◌, get_elem?, Option, none, some, List, [], ◌∷◌, map,
  if◌then◌else◌,
}
use spine_triton.Ir.{Ty, is_shaped}
use spine_triton.Use.Lattice.{UseType, undefined, data_use, meta_use, mix_use, Uses}
use spine_triton.Use.Transfer.{Kind, load, store, dot, other_operation, Operation, result_ids}

abbrev pub use_eq : UseType → UseType → Bool
use_eq undefined undefined = true
use_eq data_use data_use = true
use_eq meta_use meta_use = true
use_eq mix_use mix_use = true
use_eq _ _ = false

abbrev pub first_use : UseType → UseType → UseType
first_use undefined this = this
first_use found this = found

-- The loop over the results, from the use found so far; it breaks at a mix.
unfoldable pub operation_use : UseType → List UseType → UseType
operation_use found [] = found
operation_use found (undefined ∷ us) = operation_use found us
operation_use found (this ∷ us) =
    let rest = operation_use (first_use found this) us in
    if use_eq this mix_use || not (use_eq this (first_use found this)) then mix_use else rest

abbrev pub is_operand : ℕ → List ℕ → ℕ → Bool
is_operand r operands i = elim (get_elem? operands i) [ none ↦ false | some v ↦ v == r ]

unfoldable pub all_meta : Uses → List (ℕ × Ty) → Bool
all_meta uses [] = true
all_meta uses (r ∷ rs) = use_eq (uses r.0) meta_use && all_meta uses rs

unfoldable pub reads_as_meta : Uses → ℕ → Kind → List ℕ → List (ℕ × Ty) → Bool
unfolding all_meta
reads_as_meta uses r (load mask other) operands results =
    is_operand r operands 0
    || (mask && is_operand r operands 1)
    || (other && is_operand r operands (if mask then 2 else 1))
reads_as_meta uses r (store mask) operands results =
    is_operand r operands 0 || (mask && is_operand r operands 2)
reads_as_meta uses r (dot constant_splat) operands results = constant_splat
reads_as_meta uses r other_operation operands results = all_meta uses results

abbrev pub mem : ℕ → List ℕ → Bool
mem r [] = false
mem r (v ∷ vs) = (v == r) || mem r vs

-- A user of one of the results that is inserted in metaUsers.
unfoldable pub is_meta_user : Uses → List ℕ → Operation → Bool
unfolding reads_as_meta
is_meta_user uses [] user = false
is_meta_user uses (r ∷ rs) user =
    (mem r user.operands && reads_as_meta uses r user.kind user.operands user.results)
    || is_meta_user uses rs user

-- operand.set(clone->getResult(res_i)), for the results and those of the clone.
unfoldable pub redirect_operand : List ℕ → List ℕ → ℕ → ℕ
redirect_operand (r ∷ rs) (c ∷ cs) v = if v == r then c else redirect_operand rs cs v
redirect_operand _ _ v = v

unfoldable pub redirect : Uses → List ℕ → List ℕ → Operation → Operation
unfolding is_meta_user redirect_operand
redirect uses rs clones user =
    if is_meta_user uses rs user
    then record user { operands = map (redirect_operand rs clones) user.operands }
    else user

pub data Tagged : Type 0 where
  untagged : Tagged
  tagged_meta : Tagged
  -- The clone is tagged MetaUse; these are the users after it, the meta users redirected.
  cloned : List Operation → Tagged

abbrev pub all_shaped : List (ℕ × Ty) → Bool
all_shaped [] = true
all_shaped (r ∷ rs) = is_shaped r.1 && all_shaped rs

abbrev pub any_meta_user : Uses → List ℕ → List Operation → Bool
any_meta_user uses rs [] = false
any_meta_user uses rs (user ∷ users) = is_meta_user uses rs user || any_meta_user uses rs users

-- What the walk does with an operation whose use is mixed, given the results of the clone.
unfoldable pub tag_mixed : Uses → List ℕ → List (ℕ × Ty) → List Operation → Tagged
unfolding redirect
tag_mixed uses clones results users =
    if all_shaped results && any_meta_user uses (result_ids results) users
    then cloned (map (redirect uses (result_ids results) clones) users)
    else untagged

-- assert(op->getNumResults() == 1) for a meta use: `none`.
unfoldable pub tag_meta : List (ℕ × Ty) → Option Tagged
tag_meta (r ∷ []) = some (if is_shaped r.1 then tagged_meta else untagged)
tag_meta _ = none

unfoldable pub tag_by : UseType → Uses → List ℕ → List (ℕ × Ty) → List Operation → Option Tagged
unfolding tag_mixed tag_meta
tag_by undefined uses clones results users = some untagged
tag_by data_use uses clones results users = some untagged
tag_by meta_use uses clones results users = tag_meta results
tag_by mix_use uses clones results users = some (tag_mixed uses clones results users)

unfoldable pub tag_operation : Uses → List ℕ → Operation → List Operation → Option Tagged
unfolding operation_use tag_by
tag_operation uses clones op users =
    tag_by (operation_use undefined (map (λ r. uses r.0) op.results)) uses clones op.results users
