-- ===== src/Use/Order.antt =====
-- The uses as a semilattice: undefined below data and meta, which are below mixed.
use spine_triton.Prelude.{true, ◌≡◌, ◌≢◌, ◌↔◌, arith}
use spine_triton.Use.Lattice.{UseType, undefined, data_use, meta_use, mix_use, meet_use_type}

infix 50 ◌⊑◌
abbrev pub ◌⊑◌ : UseType → UseType → Type 0
undefined ⊑ u = Unit
data_use ⊑ data_use = Unit
meta_use ⊑ meta_use = Unit
u ⊑ mix_use = Unit
_ ⊑ _ = ⊥

unfoldable pub join : UseType → UseType → UseType
unfolding meet_use_type
join u v = (meet_use_type u v).0

pub ⊑_refl : (u : UseType) → u ⊑ u
⊑_refl undefined = tt
⊑_refl data_use = tt
⊑_refl meta_use = tt
⊑_refl mix_use = tt

pub ⊑_trans : (u v w : UseType) → u ⊑ v → v ⊑ w → u ⊑ w
⊑_trans u v w h k = ground arith

pub left_below : (u v : UseType) → u ⊑ join u v
unfolding join meet_use_type
left_below u v = ground arith

pub right_below : (u v : UseType) → v ⊑ join u v
unfolding join meet_use_type
right_below u v = ground arith

pub join_least : (u v w : UseType) → u ⊑ w → v ⊑ w → join u v ⊑ w
unfolding join meet_use_type
join_least u v w h k = ground arith

changes : (u v : UseType) → (meet_use_type u v).1 ≡ true → join u v ≡ u → ⊥
unfolding join meet_use_type
changes u v h k = ground arith

keeps : (u v : UseType) → join u v ≢ u → (meet_use_type u v).1 ≡ true
unfolding join meet_use_type
keeps u v h = ground arith

-- meetUseType gives the least use above both, and reports a change exactly if it is not the old one.
pub meet_use_type_lem :
    (u v : UseType)
    → (u ⊑ join u v)
      × (v ⊑ join u v)
      × ((w : UseType) → u ⊑ w → v ⊑ w → join u v ⊑ w)
      × (((meet_use_type u v).1 ≡ true) ↔ (join u v ≢ u))
unfolding join meet_use_type
meet_use_type_lem u v = (left_below u v, right_below u v, join_least u v, (changes u v, keeps u v))
