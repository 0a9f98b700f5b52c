-- ===== src/Collapse/Groups.antt =====
-- The dimensions and the extents of the groups that CollapseBroadCast's loop makes.
use spine_triton.Prelude.{
  ℕ, zero, suc, ◌*◌, length, Bool, true, false, Option, some, List, [], ◌∷◌, ◌++◌, ◌≡◌, refl, sym,
  ap, ◌∙◌, ◌⊎◌, arith,
}
use spine_triton.Collapse.{Group, extend, starts_group, broadcast_groups}

abbrev pub product : List ℕ → ℕ
product [] = 1
product (n ∷ ns) = n * product ns

abbrev pub inputs : List Group → ℕ
inputs [] = 1
inputs (g ∷ gs) = g.input * inputs gs

abbrev pub outputs : List Group → ℕ
outputs [] = 1
outputs (g ∷ gs) = g.output * outputs gs

abbrev pub all_dims : List Group → List ℕ
all_dims [] = []
all_dims (g ∷ gs) = g.dims ++ all_dims gs

abbrev pub upward : ℕ → ℕ → List ℕ
upward zero i = []
upward (suc n) i = i ∷ upward n (suc i)

-- Each dimension is broadcast or kept.
abbrev pub IsBroadcast : List ℕ → List ℕ → Type 0
IsBroadcast [] [] = Unit
IsBroadcast (n ∷ ns) (m ∷ ms) = ((n ≡ 1) ⊎ (n ≡ m)) × IsBroadcast ns ms
IsBroadcast _ _ = ⊥

abbrev pub IsBroadcastGroup : Group → Type 0
IsBroadcastGroup g = (g.input ≡ 1) ⊎ (g.input ≡ g.output)

append_assoc : (a b c : List ℕ) → (a ++ b) ++ c ≡ a ++ (b ++ c)
append_assoc [] b c = refl
append_assoc (x ∷ a) b c = ap (λ r. x ∷ r) (append_assoc a b c)

append_nil : (a : List ℕ) → a ++ [] ≡ a
append_nil [] = refl
append_nil (x ∷ a) = ap (λ r. x ∷ r) (append_nil a)

inputs-extend :
    (b : Bool) (i n m : ℕ) (gs : List Group) → inputs (extend b i n m gs) ≡ inputs gs * n
unfolding extend
inputs-extend b i n m [] = omega arith
inputs-extend true i n m (g ∷ []) = grind arith
inputs-extend false i n m (g ∷ []) = grind arith
inputs-extend b i n m (g ∷ h ∷ gs) = rw (inputs-extend b i n m (h ∷ gs)) (grind arith)

outputs-extend :
    (b : Bool) (i n m : ℕ) (gs : List Group) → outputs (extend b i n m gs) ≡ outputs gs * m
unfolding extend
outputs-extend b i n m [] = omega arith
outputs-extend true i n m (g ∷ []) = grind arith
outputs-extend false i n m (g ∷ []) = grind arith
outputs-extend b i n m (g ∷ h ∷ gs) = rw (outputs-extend b i n m (h ∷ gs)) (grind arith)

all_dims-extend :
    (b : Bool) (i n m : ℕ) (gs : List Group)
    → all_dims (extend b i n m gs) ≡ all_dims gs ++ (i ∷ [])
unfolding extend
all_dims-extend b i n m [] = refl
all_dims-extend true i n m (g ∷ []) = rw (append_nil g.dims) refl
all_dims-extend false i n m (g ∷ []) = rw (append_nil g.dims, append_nil (g.dims ++ (i ∷ []))) refl
all_dims-extend b i n m (g ∷ h ∷ gs) =
    rw (all_dims-extend b i n m (h ∷ gs)) (sym (append_assoc g.dims (all_dims (h ∷ gs)) (i ∷ [])))

-- The groups after the loop, from those before it.
pub groups_lem :
    (i : ℕ) (before : Option ℕ) (ns ms : List ℕ) (gs : List Group)
    → length ms ≡ length ns
    → (inputs (broadcast_groups i before ns ms gs) ≡ inputs gs * product ns)
      × (outputs (broadcast_groups i before ns ms gs) ≡ outputs gs * product ms)
      × (all_dims (broadcast_groups i before ns ms gs) ≡ all_dims gs ++ upward (length ns) i)
unfolding broadcast_groups
groups_lem i before [] [] gs h = (omega arith, omega arith, sym (append_nil (all_dims gs)))
groups_lem i before (n ∷ ns) (m ∷ ms) gs h =
    let b = starts_group before n in
    let rest = groups_lem (suc i) (some n) ns ms (extend b i n m gs) (omega arith) in
    (
      rest.0 ∙ rw (inputs-extend b i n m gs) (grind arith),
      rest.1 ∙ rw (outputs-extend b i n m gs) (grind arith),
      rest.2
          ∙ rw (all_dims-extend b i n m gs)
              (append_assoc (all_dims gs) (i ∷ []) (upward (length ns) (suc i))),
    )
groups_lem i before [] (m ∷ ms) gs h = absurd (omega arith)
groups_lem i before (n ∷ ns) [] gs h = absurd (omega arith)
