-- ===== src/Examples/Collapses.antt =====
-- lib/Conversion/TritonToLinalgExperimental/CollapseShape.cpp at a broadcast of 1 by 1 by 2 by 3
-- elements to 4 by 5 by 2 by 3, which is collapsed to one of 1 by 6 to 20 by 6.
use spine_triton.Prelude.{ℕ, some, List, [], ◌∷◌, ◌≡◌, refl, inl, inr}
use spine_triton.Collapse.{Group, extend, broadcast_groups, collapse_broadcast}
use spine_triton.Collapse.Sound.{IsCollapsed, collapse_broadcast-IsCollapsed}

abbrev source : List ℕ
source = 1 ∷ 1 ∷ 2 ∷ 3 ∷ []

abbrev result : List ℕ
result = 4 ∷ 5 ∷ 2 ∷ 3 ∷ []

abbrev groups : List Group
groups =
    record { dims = 0 ∷ 1 ∷ []; input = 1; output = 20 }
    ∷ record { dims = 2 ∷ 3 ∷ []; input = 6; output = 6 }
    ∷ []

collapsed : collapse_broadcast source result ≡ some groups
unfolding collapse_broadcast broadcast_groups extend
collapsed = refl

collapse_broadcast-IsCollapsed_example : IsCollapsed source result groups
collapse_broadcast-IsCollapsed_example =
    collapse_broadcast-IsCollapsed source result groups
      (inl refl, (inl refl, (inr refl, (inr refl, tt)))) collapsed
