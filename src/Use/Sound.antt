-- ===== src/Use/Sound.antt =====
-- visitOperation only raises uses, and keeps their order: the solver's steps have one least result.
use mathlib.Core.Path.{subst}
use spine_triton.Prelude.{
  ℕ, true, false, Bool-cases, ◌==◌, get_elem?, Option, none, some, List, [], ◌∷◌, ◌≡◌, inl, inr,
  sym, ==_iff,
}
use spine_triton.Use.Lattice.{UseType, data_use, meta_use, Uses, propagate_use, propagate_results}
use spine_triton.Use.Transfer.{
  Kind, load, store, dot, other_operation, Operation, result_ids, apply_at, at_operand, use_all,
  results_to_all, produces_pointers, as_meta, as_data, differ, visit_kind, visit_operation,
}
use spine_triton.Use.Order.{◌⊑◌, ⊑_refl, ⊑_trans, join, join_least, left_below, right_below}

abbrev pub Below : Uses → Uses → Type 0
Below a b = (v : ℕ) → a v ⊑ b v

-- Both visits end at an assertion, or neither, and the results are ordered.
abbrev pub BelowOption : Option Uses → Option Uses → Type 0
BelowOption none none = Unit
BelowOption (some a) (some b) = Below a b
BelowOption _ _ = ⊥

abbrev pub RaisesTo : Uses → Option Uses → Type 0
RaisesTo a none = Unit
RaisesTo a (some b) = Below a b

abbrev IsMonotone : (Uses → Uses) → Type 0
IsMonotone f = (a b : Uses) → Below a b → Below (f a) (f b)

abbrev IsRaising : (Uses → Uses) → Type 0
IsRaising f = (a : Uses) → Below a (f a)

join_monotone : (u v u' v' : UseType) → u ⊑ u' → v ⊑ v' → join u v ⊑ join u' v'
join_monotone u v u' v' h k =
    join_least u v _ (⊑_trans u u' _ h (left_below u' v')) (⊑_trans v v' _ k (right_below u' v'))

propagate_monotone :
    (v : ℕ) (u u' : UseType) (a b : Uses)
    → u ⊑ u'
    → Below a b
    → Below (propagate_use v u a) (propagate_use v u' b)
unfolding propagate_use join
propagate_monotone v u u' a b h k w = elim (Bool-cases (w == v)) [
  | inl e ↦ rw e (join_monotone (a v) u (b v) u' (k v) h)
  | inr e ↦ rw e (k w)
]

propagate_raises : (v : ℕ) (u : UseType) (a : Uses) → Below a (propagate_use v u a)
unfolding propagate_use join
propagate_raises v u a w = elim (Bool-cases (w == v)) [
  | inl e ↦
      let same : w ≡ v = (==_iff w v).0 e in
      rw e (subst (λ x. a x ⊑ join (a v) u) (sym same) (left_below (a v) u))
  | inr e ↦ rw e (⊑_refl (a w))
]

results-IsMonotone : (v : ℕ) (rs : List ℕ) → IsMonotone (propagate_results v rs)
unfolding propagate_results
results-IsMonotone v [] a b h = h
results-IsMonotone v (r ∷ rs) a b h =
    results-IsMonotone v rs (propagate_use v (a r) a) (propagate_use v (b r) b)
      (propagate_monotone v (a r) (b r) a b (h r) h)

results-IsRaising : (v : ℕ) (rs : List ℕ) → IsRaising (propagate_results v rs)
unfolding propagate_results
results-IsRaising v [] a w = ⊑_refl (a w)
results-IsRaising v (r ∷ rs) a w =
    ⊑_trans (a w) _ _ (propagate_raises v (a r) a w)
      (results-IsRaising v rs (propagate_use v (a r) a) w)

to_all-IsMonotone : (rs vs : List ℕ) → IsMonotone (results_to_all rs vs)
unfolding results_to_all
to_all-IsMonotone rs [] a b h = h
to_all-IsMonotone rs (v ∷ vs) a b h =
    to_all-IsMonotone rs vs (propagate_results v rs a) (propagate_results v rs b)
      (results-IsMonotone v rs a b h)

to_all-IsRaising : (rs vs : List ℕ) → IsRaising (results_to_all rs vs)
unfolding results_to_all
to_all-IsRaising rs [] a w = ⊑_refl (a w)
to_all-IsRaising rs (v ∷ vs) a w =
    ⊑_trans (a w) _ _ (results-IsRaising v rs a w)
      (to_all-IsRaising rs vs (propagate_results v rs a) w)

use_all-IsMonotone : (u : UseType) (vs : List ℕ) → IsMonotone (use_all u vs)
unfolding use_all
use_all-IsMonotone u [] a b h = h
use_all-IsMonotone u (v ∷ vs) a b h =
    use_all-IsMonotone u vs (propagate_use v u a) (propagate_use v u b)
      (propagate_monotone v u u a b (⊑_refl u) h)

use_all-IsRaising : (u : UseType) (vs : List ℕ) → IsRaising (use_all u vs)
unfolding use_all
use_all-IsRaising u [] a w = ⊑_refl (a w)
use_all-IsRaising u (v ∷ vs) a w =
    ⊑_trans (a w) _ _ (propagate_raises v u a w) (use_all-IsRaising u vs (propagate_use v u a) w)

-- One step at an operand, in a chain of steps that may end.
module _ (f : ℕ → Uses → Uses) where
  at_monotone :
      ((v : ℕ) → IsMonotone (f v))
      → (operands : List ℕ) (i : ℕ) (a b : Option Uses) → BelowOption a b
      → BelowOption (at_operand operands i f a) (at_operand operands i f b)
  at_monotone m operands i none none h = tt
  at_monotone m operands i (some a) (some b) h = by_operand (get_elem? operands i)
    where
      by_operand : (o : Option ℕ) → BelowOption (apply_at o f a) (apply_at o f b)
      by_operand none = tt
      by_operand (some v) = m v a b h
  at_monotone m operands i none (some b) h = absurd h
  at_monotone m operands i (some a) none h = absurd h

  at_raises :
      ((v : ℕ) → IsRaising (f v))
      → (operands : List ℕ) (i : ℕ) (uses : Uses) (a : Option Uses) → RaisesTo uses a
      → RaisesTo uses (at_operand operands i f a)
  at_raises m operands i uses none h = tt
  at_raises m operands i uses (some a) h = by_operand (get_elem? operands i)
    where
      by_operand : (o : Option ℕ) → RaisesTo uses (apply_at o f a)
      by_operand none = tt
      by_operand (some v) = λ w. ⊑_trans (uses w) (a w) _ (h w) (m v a w)

as_meta-IsMonotone : (v : ℕ) → IsMonotone (as_meta v)
as_meta-IsMonotone v a b h = propagate_monotone v meta_use meta_use a b tt h

as_data-IsMonotone : (v : ℕ) → IsMonotone (as_data v)
as_data-IsMonotone v a b h = propagate_monotone v data_use data_use a b tt h

meta-IsRaising : (v : ℕ) → IsRaising (as_meta v)
meta-IsRaising v = propagate_raises v meta_use

data-IsRaising : (v : ℕ) → IsRaising (as_data v)
data-IsRaising v = propagate_raises v data_use

differ_monotone :
    (x y : Option ℕ) (a b : Option Uses)
    → BelowOption a b
    → BelowOption (differ x y a) (differ x y b)
differ_monotone none y a b h = tt
differ_monotone (some x) none a b h = tt
differ_monotone (some x) (some y) a b h = elim (Bool-cases (x == y)) [
  | inl e ↦ rw e tt
  | inr e ↦ rw e h
]

differ_raises :
    (x y : Option ℕ) (uses : Uses) (a : Option Uses)
    → RaisesTo uses a
    → RaisesTo uses (differ x y a)
differ_raises none y uses a h = tt
differ_raises (some x) none uses a h = tt
differ_raises (some x) (some y) uses a h = elim (Bool-cases (x == y)) [
  | inl e ↦ rw e tt
  | inr e ↦ rw e h
]

dot_step :
    (ops rs : List ℕ) (a b : Uses)
    → Below a b
    → BelowOption
        (at_operand ops 1
          (λ v. propagate_results v rs)
          (at_operand ops 0 (λ v. propagate_results v rs) (some a)))
        (at_operand ops 1
          (λ v. propagate_results v rs)
          (at_operand ops 0 (λ v. propagate_results v rs) (some b)))
dot_step ops rs a b h =
    at_monotone (λ v. propagate_results v rs) (λ v. results-IsMonotone v rs) ops 1 _ _
      (at_monotone (λ v. propagate_results v rs) (λ v. results-IsMonotone v rs) ops 0 (some a)
        (some b) h)

dot_raise :
    (ops rs : List ℕ) (u a : Uses)
    → Below u a
    → RaisesTo u (
        at_operand ops 1
          (λ v. propagate_results v rs)
          (at_operand ops 0 (λ v. propagate_results v rs) (some a)))
dot_raise ops rs u a h =
    at_raises (λ v. propagate_results v rs) (λ v. results-IsRaising v rs) ops 1 u _
      (at_raises (λ v. propagate_results v rs) (λ v. results-IsRaising v rs) ops 0 u (some a) h)

kind_monotone :
    (k : Kind) (operands rs : List ℕ) (a b : Uses)
    → Below a b
    → BelowOption (visit_kind k operands rs a) (visit_kind k operands rs b)
unfolding visit_kind
kind_monotone (load false false) ops rs a b h =
    at_monotone as_meta as_meta-IsMonotone ops 0 (some a) (some b) h
kind_monotone (load true false) ops rs a b h =
    at_monotone as_meta as_meta-IsMonotone ops 1 _ _
      (at_monotone as_meta as_meta-IsMonotone ops 0 (some a) (some b) h)
kind_monotone (load true true) ops rs a b h = at_monotone as_meta as_meta-IsMonotone ops 2 _ _ (
    at_monotone as_meta as_meta-IsMonotone ops 1 _ _ (
      differ_monotone (get_elem? ops 1) (get_elem? ops 2) _ _
        (at_monotone as_meta as_meta-IsMonotone ops 0 (some a) (some b) h)))
kind_monotone (load false true) ops rs a b h =
    at_monotone as_meta as_meta-IsMonotone ops 2 _ _
      (at_monotone as_meta as_meta-IsMonotone ops 0 (some a) (some b) h)
kind_monotone (store false) ops rs a b h =
    at_monotone as_data as_data-IsMonotone ops 1 _ _
      (at_monotone as_meta as_meta-IsMonotone ops 0 (some a) (some b) h)
kind_monotone (store true) ops rs a b h = at_monotone as_meta as_meta-IsMonotone ops 2 _ _ (
    differ_monotone (get_elem? ops 1) (get_elem? ops 2) _ _ (
      at_monotone as_data as_data-IsMonotone ops 1 _ _
        (at_monotone as_meta as_meta-IsMonotone ops 0 (some a) (some b) h)))
kind_monotone (dot true) ops rs a b h =
    at_monotone as_meta as_meta-IsMonotone ops 2 _ _ (dot_step ops rs a b h)
kind_monotone (dot false) ops rs a b h =
    at_monotone as_data as_data-IsMonotone ops 2 _ _ (dot_step ops rs a b h)
kind_monotone other_operation ops rs a b h = to_all-IsMonotone rs ops a b h

kind_raises :
    (k : Kind) (operands rs : List ℕ) (uses a : Uses)
    → Below uses a
    → RaisesTo uses (visit_kind k operands rs a)
unfolding visit_kind
kind_raises (load false false) ops rs u a h = at_raises as_meta meta-IsRaising ops 0 u (some a) h
kind_raises (load true false) ops rs u a h =
    at_raises as_meta meta-IsRaising ops 1 u _ (at_raises as_meta meta-IsRaising ops 0 u (some a) h)
kind_raises (load true true) ops rs u a h = at_raises as_meta meta-IsRaising ops 2 u _ (
    at_raises as_meta meta-IsRaising ops 1 u _ (
      differ_raises (get_elem? ops 1) (get_elem? ops 2) u _
        (at_raises as_meta meta-IsRaising ops 0 u (some a) h)))
kind_raises (load false true) ops rs u a h =
    at_raises as_meta meta-IsRaising ops 2 u _ (at_raises as_meta meta-IsRaising ops 0 u (some a) h)
kind_raises (store false) ops rs u a h =
    at_raises as_data data-IsRaising ops 1 u _ (at_raises as_meta meta-IsRaising ops 0 u (some a) h)
kind_raises (store true) ops rs u a h = at_raises as_meta meta-IsRaising ops 2 u _ (
    differ_raises (get_elem? ops 1) (get_elem? ops 2) u _ (
      at_raises as_data data-IsRaising ops 1 u _
        (at_raises as_meta meta-IsRaising ops 0 u (some a) h)))
kind_raises (dot true) ops rs u a h =
    at_raises as_meta meta-IsRaising ops 2 u _ (dot_raise ops rs u a h)
kind_raises (dot false) ops rs u a h =
    at_raises as_data data-IsRaising ops 2 u _ (dot_raise ops rs u a h)
kind_raises other_operation ops rs u a h =
    λ w. ⊑_trans (u w) (a w) _ (h w) (to_all-IsRaising rs ops a w)

-- visitOperation never lowers the use of a value; from smaller uses it gets smaller uses, and it ends
-- at an assertion from both or from neither.
pub visit_operation_monotone :
    (op : Operation) (a b : Uses)
    → Below a b
    → BelowOption (visit_operation op a) (visit_operation op b) × RaisesTo a (visit_operation op a)
unfolding visit_operation
visit_operation_monotone op a b h = elim (Bool-cases (produces_pointers op.results)) [
  | inl e ↦ rw e (
    kind_monotone op.kind op.operands (result_ids op.results) _ _
        (use_all-IsMonotone meta_use op.operands a b h),
    kind_raises op.kind op.operands (result_ids op.results) a _
        (use_all-IsRaising meta_use op.operands a),
  )
  | inr e ↦ rw e (
    kind_monotone op.kind op.operands (result_ids op.results) a b h,
    kind_raises op.kind op.operands (result_ids op.results) a a (λ w. ⊑_refl (a w)),
  )
]
