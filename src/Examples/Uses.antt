-- ===== src/Examples/Uses.antt =====
-- lib/Analysis/UseAnalysis.cpp at an addition whose result is the base of a load, and at one that a dot
-- reads.
use spine_triton.Prelude.{true, false, some, [], ◌∷◌, ◌≡◌, ◌≢◌, ◌↔◌, refl}
use spine_triton.Ir.{tensor, floating}
use spine_triton.Use.Lattice.{undefined, data_use, meta_use, mix_use, Uses, meet_use_type, UseType}
use spine_triton.Use.Transfer.{load, dot, other_operation, Operation, visit_operation}
use spine_triton.Use.Tagging.{operation_use, tag_operation, cloned, redirect_operand}
use spine_triton.Use.Order.{◌⊑◌, join, meet_use_type_lem}
use spine_triton.Use.Sound.{BelowOption, RaisesTo, visit_operation_monotone}
use spine_triton.Use.Tags.{join_all, operation_use_lem, dot_data_redirected}

abbrev none_used : Uses
none_used v = undefined

abbrev all_data : Uses
all_data v = data_use

abbrev masked_load : Operation
masked_load = record {
  kind = load true false;
  operands = 1 ∷ 2 ∷ [];
  results = (3, tensor (8 ∷ []) floating) ∷ [];
}

visit_operation_monotone_example :
    BelowOption (visit_operation masked_load none_used) (visit_operation masked_load all_data)
    × RaisesTo none_used (visit_operation masked_load none_used)
visit_operation_monotone_example = visit_operation_monotone masked_load none_used all_data (λ v. tt)

meet_use_type_lem_example :
    (data_use ⊑ join data_use meta_use)
    × (meta_use ⊑ join data_use meta_use)
    × ((w : UseType) → data_use ⊑ w → meta_use ⊑ w → join data_use meta_use ⊑ w)
    × (((meet_use_type data_use meta_use).1 ≡ true) ↔ (join data_use meta_use ≢ data_use))
meet_use_type_lem_example = meet_use_type_lem data_use meta_use

operation_use_lem_example :
    operation_use undefined (undefined ∷ data_use ∷ meta_use ∷ [])
    ≡ join_all undefined (undefined ∷ data_use ∷ meta_use ∷ [])
operation_use_lem_example = operation_use_lem (undefined ∷ data_use ∷ meta_use ∷ [])

abbrev all_mixed : Uses
all_mixed v = mix_use

dot_data_redirected_example :
    tag_operation all_mixed
      (9 ∷ [])
      (record {
        kind = other_operation;
        operands = 1 ∷ [];
        results = (2, tensor (8 ∷ 8 ∷ []) floating) ∷ [];
      })
      (record { kind = dot true; operands = 2 ∷ 3 ∷ 4 ∷ []; results = [] } ∷ [])
    ≡ some (
        cloned (
          record {
            kind = dot true;
            operands =
                9
                ∷ redirect_operand (2 ∷ []) (9 ∷ []) 3
                ∷ redirect_operand (2 ∷ []) (9 ∷ []) 4
                ∷ [];
            results = [];
          }
          ∷ []))
dot_data_redirected_example =
    dot_data_redirected all_mixed 2 3 4 9 (tensor (8 ∷ 8 ∷ []) floating) (1 ∷ []) [] refl refl
