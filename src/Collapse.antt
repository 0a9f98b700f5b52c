-- ===== src/Collapse.antt =====
-- lib/Conversion/TritonToLinalgExperimental/CollapseShape.cpp: how CollapseBroadCast groups
-- the dimensions that it collapses, on static shapes.
pub mod Groups
pub mod Sound
use spine_triton.Prelude.{
  ℕ, zero, suc, ◌+◌, ◌-◌, ◌*◌, ◌==◌, length, get_elem?, Bool, true, false, not, ◌&&◌, ◌||◌, Option,
  none, some, List, [], ◌∷◌, ◌++◌, map, if◌then◌else◌,
}

-- The dimensions of an entry of the reassociation map, and its collapsed extents.
pub record Group : Type 0 where
  pub dims : List ℕ
  pub input : ℕ
  pub output : ℕ

abbrev pub join_group : ℕ → ℕ → ℕ → Group → Group
join_group i n m g = record {
  dims = g.dims ++ (i ∷ []);
  input = g.input * n;
  output = g.output * m;
}

-- `dim++` if the dimension starts an entry, and the first dimension makes one.
unfoldable pub extend : Bool → ℕ → ℕ → ℕ → List Group → List Group
extend starts i n m [] = join_group i n m (record { dims = []; input = 1; output = 1 }) ∷ []
extend true i n m (g ∷ []) = g ∷ join_group i n m (record { dims = []; input = 1; output = 1 }) ∷ []
extend false i n m (g ∷ []) = join_group i n m g ∷ []
extend starts i n m (g ∷ h ∷ gs) = g ∷ extend starts i n m (h ∷ gs)

-- Whether a dimension of extent `n` is not grouped with the one before it.
abbrev pub starts_group : Option ℕ → ℕ → Bool
starts_group none n = false
starts_group (some p) n = not ((n == 1 && p == 1) || (not (n == 1) && not (p == 1)))

-- The loop from dimension `i` on, after one of extent `before`.
unfoldable pub broadcast_groups : ℕ → Option ℕ → List ℕ → List ℕ → List Group → List Group
unfolding extend
broadcast_groups i before (n ∷ ns) (m ∷ ms) gs =
    broadcast_groups (suc i) (some n) ns ms (extend (starts_group before n) i n m gs)
broadcast_groups i before _ _ gs = gs

-- The groups of a broadcast from one shape to another, or nothing where the pattern does not apply.
unfoldable pub collapse_broadcast : List ℕ → List ℕ → Option (List Group)
unfolding broadcast_groups
collapse_broadcast source result =
    let groups = broadcast_groups 0 none source result [] in
    if length source == 0 || length source == 1
    then none
    else (if length groups == length source then none else some groups)
