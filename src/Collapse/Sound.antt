-- ===== src/Collapse/Sound.antt =====
-- CollapseBroadCast: the groups as broadcasts.
use spine_triton.Prelude.{
  ℕ, suc, ◌*◌, ◌==◌, length, Bool, true, false, not, ◌&&◌, ◌||◌, none, some, List, [], ◌∷◌, All,
  ◌≡◌, refl, sym, ap, ◌∙◌, ◌⊎◌, inl, inr, arith, Bool-cases, if◌then◌else◌,
}
use spine_triton.Collapse.{
  Group, join_group, extend, starts_group, broadcast_groups, collapse_broadcast,
}
use spine_triton.Collapse.Groups.{
  product, inputs, outputs, all_dims, upward, IsBroadcast, IsBroadcastGroup, groups_lem,
}

-- A dimension, and a group of them, of extent 1 or kept.
abbrev Extent : Bool → ℕ → ℕ → Type 0
Extent true n m = n ≡ 1
Extent false n m = n ≡ m

Extent-of_either : (n m : ℕ) → (n ≡ 1) ⊎ (n ≡ m) → Extent (n == 1) n m
Extent-of_either n m h = elim (Bool-cases (n == 1)) [
  | inl e ↦ rw e (ground arith)
  | inr e ↦ rw e (ground arith)
]

joined :
    (b : Bool) (i n m : ℕ) (g : Group)
    → Extent b g.input g.output
    → Extent b n m
    → Extent b (join_group i n m g).input (join_group i n m g).output
joined true i n m g h k = rw (h, k) refl
joined false i n m g h k = rw (h, k) refl

alone : (b : Bool) (n m : ℕ) → Extent b n m → Extent b (1 * n) (1 * m)
alone true n m h = rw h refl
alone false n m h = rw h refl

group_of : (b : Bool) (g : Group) → Extent b g.input g.output → IsBroadcastGroup g
group_of true g h = inl h
group_of false g h = inr h

-- The groups that the loop has made, the last one after a dimension of extent 1 or not.
abbrev Fits : Bool → List Group → Type 0
Fits b [] = ⊥
Fits b (g ∷ []) = Extent b g.input g.output
Fits b (g ∷ h ∷ gs) = IsBroadcastGroup g × Fits b (h ∷ gs)

Fits-cons :
    (b : Bool) (g : Group) (gs : List Group) → IsBroadcastGroup g → Fits b gs → Fits b (g ∷ gs)
Fits-cons b g [] h k = absurd k
Fits-cons b g (e ∷ gs) h k = (h, k)

extend-Fits :
    (before b : Bool) (i n m : ℕ) (gs : List Group)
    → Fits before gs
    → Extent b n m
    → Fits b (extend (not ((b && before) || (not b && not before))) i n m gs)
unfolding extend
extend-Fits before b i n m [] h k = absurd h
extend-Fits true true i n m (g ∷ []) h k = joined true i n m g h k
extend-Fits false false i n m (g ∷ []) h k = joined false i n m g h k
extend-Fits true false i n m (g ∷ []) h k = (group_of true g h, alone false n m k)
extend-Fits false true i n m (g ∷ []) h k = (group_of false g h, alone true n m k)
extend-Fits before b i n m (g ∷ h ∷ gs) e k =
    Fits-cons b g (extend _ i n m (h ∷ gs)) e.0 (extend-Fits before b i n m (h ∷ gs) e.1 k)

All-of_Fits : (b : Bool) (gs : List Group) → Fits b gs → All IsBroadcastGroup gs
All-of_Fits b [] h = absurd h
All-of_Fits b (g ∷ []) h = (group_of b g h, tt)
All-of_Fits b (g ∷ e ∷ gs) h = (h.0, All-of_Fits b (e ∷ gs) h.1)

broadcast_groups-All :
    (i p : ℕ) (ns ms : List ℕ) (gs : List Group)
    → Fits (p == 1) gs
    → IsBroadcast ns ms
    → All IsBroadcastGroup (broadcast_groups i (some p) ns ms gs)
unfolding broadcast_groups
broadcast_groups-All i p [] ms gs h k = All-of_Fits (p == 1) gs h
broadcast_groups-All i p (n ∷ ns) (m ∷ ms) gs h k =
    broadcast_groups-All (suc i) n ns ms (extend (starts_group (some p) n) i n m gs)
      (extend-Fits (p == 1) (n == 1) i n m gs h (Extent-of_either n m k.0)) k.1
broadcast_groups-All i p (n ∷ ns) [] gs h k = elim k [ ]

if_some :
    {A : Type 0} (a b : Bool) (x y : A)
    → (if a then none else (if b then none else some x)) ≡ some y
    → x ≡ y
if_some true b x y h = cc
if_some false true x y h = cc
if_some false false x y h = cc

-- The groups are the dimensions in order, with the products of the extents, and each is broadcast
-- or kept.
pub record IsCollapsed (source result : List ℕ) (groups : List Group) : Type 0 where
  pub in_order : all_dims groups ≡ upward (length source) 0
  pub input_size : inputs groups ≡ product source
  pub output_size : outputs groups ≡ product result
  pub broadcast : All IsBroadcastGroup groups

IsBroadcast-length : (ns ms : List ℕ) → IsBroadcast ns ms → length ms ≡ length ns
IsBroadcast-length [] [] h = refl
IsBroadcast-length (n ∷ ns) (m ∷ ms) h = ap suc (IsBroadcast-length ns ms h.1)
IsBroadcast-length [] (m ∷ ms) h = elim h [ ]
IsBroadcast-length (n ∷ ns) [] h = elim h [ ]

start-All :
    (ns ms : List ℕ) → IsBroadcast ns ms → All IsBroadcastGroup (broadcast_groups 0 none ns ms [])
unfolding broadcast_groups extend
start-All [] ms h = tt
start-All (n ∷ ns) (m ∷ ms) h =
    broadcast_groups-All 1 n ns ms
      (join_group 0 n m (record { dims = []; input = 1; output = 1 }) ∷ [])
      (alone (n == 1) n m (Extent-of_either n m h.0)) h.1
start-All (n ∷ ns) [] h = elim h [ ]

-- Where CollapseBroadCast applies to a broadcast of static shapes, its groups are the dimensions in
-- order, their extents are products with the number of elements that the shapes have, and each group
-- has one element in the source or as many as in the result.
pub collapse_broadcast-IsCollapsed :
    (source result : List ℕ) (groups : List Group)
    → IsBroadcast source result
    → collapse_broadcast source result ≡ some groups
    → IsCollapsed source result groups
unfolding collapse_broadcast
collapse_broadcast-IsCollapsed source result groups h e =
    let same = if_some (length source == 0 || length source == 1) _ _ groups e in
    let sums = groups_lem 0 none source result [] (IsBroadcast-length source result h) in
    record {
      in_order = ap all_dims (sym same) ∙ sums.2;
      input_size = ap inputs (sym same) ∙ sums.0 ∙ omega arith;
      output_size = ap outputs (sym same) ∙ sums.1 ∙ omega arith;
      broadcast = rw (sym same) (start-All source result h);
    }
