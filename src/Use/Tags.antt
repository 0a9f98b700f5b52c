-- ===== src/Use/Tags.antt =====
-- The use of an operation as the join over its results, and an operand of a dot that the cloning takes
-- for metadata.
use spine_triton.Prelude.{ℕ, true, ◌==◌, ==_iff, List, [], ◌∷◌, some, ◌≡◌, refl, sym}
use spine_triton.Ir.{Ty, is_shaped}
use spine_triton.Use.Lattice.{UseType, undefined, data_use, meta_use, mix_use, meet_use_type, Uses}
use spine_triton.Use.Transfer.{dot, other_operation}
use spine_triton.Use.Tagging.{
  operation_use, tag_operation, tag_by, tag_mixed, redirect, redirect_operand, is_meta_user,
  reads_as_meta, cloned,
}
use spine_triton.Use.Order.{join}

abbrev pub join_all : UseType → List UseType → UseType
join_all u [] = u
join_all u (v ∷ vs) = join_all (join u v) vs

mix_absorbs : (us : List UseType) → join_all mix_use us ≡ mix_use
unfolding join meet_use_type
mix_absorbs [] = refl
mix_absorbs (undefined ∷ us) = mix_absorbs us
mix_absorbs (data_use ∷ us) = mix_absorbs us
mix_absorbs (meta_use ∷ us) = mix_absorbs us
mix_absorbs (mix_use ∷ us) = mix_absorbs us

from_found : (found : UseType) (us : List UseType) → operation_use found us ≡ join_all found us
unfolding operation_use join meet_use_type
from_found found [] = refl
from_found found (undefined ∷ us) = from_found found us
from_found undefined (data_use ∷ us) = from_found data_use us
from_found undefined (meta_use ∷ us) = from_found meta_use us
from_found undefined (mix_use ∷ us) = sym (mix_absorbs us)
from_found data_use (data_use ∷ us) = from_found data_use us
from_found data_use (meta_use ∷ us) = sym (mix_absorbs us)
from_found data_use (mix_use ∷ us) = sym (mix_absorbs us)
from_found meta_use (data_use ∷ us) = sym (mix_absorbs us)
from_found meta_use (meta_use ∷ us) = from_found meta_use us
from_found meta_use (mix_use ∷ us) = sym (mix_absorbs us)
from_found mix_use (data_use ∷ us) = sym (mix_absorbs us)
from_found mix_use (meta_use ∷ us) = sym (mix_absorbs us)
from_found mix_use (mix_use ∷ us) = sym (mix_absorbs us)

-- The loop over the results of an operation, with its early exits, finds the join of their uses.
pub operation_use_lem : (us : List UseType) → operation_use undefined us ≡ join_all undefined us
operation_use_lem us = from_found undefined us

-- An operation with one shaped result of mixed use, read by a tt.dot as its first operand, whose third
-- operand is a splat constant, is cloned, and the dot's data operand becomes the clone, which is tagged
-- as metadata.
pub dot_data_redirected :
    (uses : Uses) (v a b clone : ℕ) (ty : Ty) (args : List ℕ) (results : List (ℕ × Ty))
    → uses v ≡ mix_use
    → is_shaped ty ≡ true
    → tag_operation uses
        (clone ∷ [])
        (record { kind = other_operation; operands = args; results = (v, ty) ∷ [] })
        (record { kind = dot true; operands = v ∷ a ∷ b ∷ []; results = results } ∷ [])
      ≡ some (
          cloned (
            record {
              kind = dot true;
              operands =
                  clone
                  ∷ redirect_operand (v ∷ []) (clone ∷ []) a
                  ∷ redirect_operand (v ∷ []) (clone ∷ []) b
                  ∷ [];
              results = results;
            }
            ∷ []))
unfolding tag_operation tag_by tag_mixed redirect redirect_operand is_meta_user reads_as_meta
    operation_use
dot_data_redirected uses v a b clone ty args results h shaped =
    let same : (v == v) ≡ true = (==_iff v v).1 refl in rw (h, shaped, same) refl
