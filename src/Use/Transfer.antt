-- ===== src/Use/Transfer.antt =====
-- lib/Analysis/UseAnalysis.cpp, visitOperation: what an operation makes of the uses of its operands.
use spine_triton.Prelude.{
  ℕ, get_elem?, Bool, true, false, ◌&&◌, ◌==◌, Option, none, some, List, [], ◌∷◌, map,
  if◌then◌else◌,
}
use spine_triton.Ir.{Ty, pointer, ElementType, is_shaped, element_type}
use spine_triton.Use.Lattice.{UseType, meta_use, data_use, Uses, propagate_use, propagate_results}

-- tt.load with a mask and an other or without, tt.store with a mask or without, tt.dot whose third
-- operand is a splat of an arith.constant or is not, and any other operation.
pub data Kind : Type 0 where
  load : Bool → Bool → Kind
  store : Bool → Kind
  dot : Bool → Kind
  other_operation : Kind

-- The results have their types beside them.
pub record Operation : Type 0 where
  pub kind : Kind
  pub operands : List ℕ
  pub results : List (ℕ × Ty)

abbrev pub result_ids : List (ℕ × Ty) → List ℕ
result_ids rs = map (λ r. r.0) rs

-- An operand out of bounds is `none`.
abbrev pub apply_at : Option ℕ → (ℕ → Uses → Uses) → Uses → Option Uses
apply_at none f uses = none
apply_at (some v) f uses = some (f v uses)

abbrev pub at_operand : List ℕ → ℕ → (ℕ → Uses → Uses) → Option Uses → Option Uses
at_operand operands i f none = none
at_operand operands i f (some uses) = apply_at (get_elem? operands i) f uses

unfoldable pub use_all : UseType → List ℕ → Uses → Uses
use_all u [] uses = uses
use_all u (v ∷ vs) uses = use_all u vs (propagate_use v u uses)

unfoldable pub results_to_all : List ℕ → List ℕ → Uses → Uses
results_to_all rs [] uses = uses
results_to_all rs (v ∷ vs) uses = results_to_all rs vs (propagate_results v rs uses)

abbrev pub is_pointer : ElementType → Bool
is_pointer pointer = true
is_pointer _ = false

-- The only result is a tensor of pointers.
unfoldable pub produces_pointers : List (ℕ × Ty) → Bool
produces_pointers (r ∷ []) = is_shaped r.1 && is_pointer (element_type r.1)
produces_pointers _ = false

abbrev pub as_meta : ℕ → Uses → Uses
as_meta v uses = propagate_use v meta_use uses

abbrev pub as_data : ℕ → Uses → Uses
as_data v uses = propagate_use v data_use uses

-- assert(mask != other), where both are given.
abbrev pub differ : Option ℕ → Option ℕ → Option Uses → Option Uses
differ (some a) (some b) uses = if a == b then none else uses
differ _ _ uses = none

abbrev pub distinct : List ℕ → ℕ → ℕ → Option Uses → Option Uses
distinct operands i j uses = differ (get_elem? operands i) (get_elem? operands j) uses

unfoldable pub visit_kind : Kind → List ℕ → List ℕ → Uses → Option Uses
visit_kind (load false false) operands rs uses = at_operand operands 0 as_meta (some uses)
visit_kind (load true false) operands rs uses =
    at_operand operands 1 as_meta (at_operand operands 0 as_meta (some uses))
visit_kind (load mask true) operands rs uses = at_operand operands 2 as_meta (
    if mask
    then at_operand operands 1 as_meta
        (distinct operands 1 2 (at_operand operands 0 as_meta (some uses)))
    else at_operand operands 0 as_meta (some uses))
visit_kind (store false) operands rs uses =
    at_operand operands 1 as_data (at_operand operands 0 as_meta (some uses))
visit_kind (store true) operands rs uses = at_operand operands 2 as_meta (
    distinct operands 1 2
      (at_operand operands 1 as_data (at_operand operands 0 as_meta (some uses))))
visit_kind (dot constant_splat) operands rs uses =
    at_operand operands 2 (if constant_splat then as_meta else as_data) (
      at_operand operands 1 (λ v. propagate_results v rs)
        (at_operand operands 0 (λ v. propagate_results v rs) (some uses)))
visit_kind other_operation operands rs uses = some (results_to_all rs operands uses)

unfoldable pub visit_operation : Operation → Uses → Option Uses
unfolding visit_kind
visit_operation op uses =
    visit_kind op.kind op.operands (result_ids op.results)
      (if produces_pointers op.results then use_all meta_use op.operands uses else uses)
