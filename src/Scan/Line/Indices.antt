-- ===== src/Scan/Line/Indices.antt =====
-- Which element each lane of a round reads, and which lanes the round changes.
use spine_triton.Prelude.{
  ℕ, zero, suc, ◌+◌, ◌-◌, ◌≤◌, ◌<◌, ◌==◌, Bool, true, false, ◌&&◌, if◌then◌else◌, ltb, leb, List,
  [], ◌∷◌, some, length, get_elem?, set, replicate, length-replicate, get_elem?-replicate, ◌≡◌,
  refl, ap, ◌∙◌, arith,
}
use spine_triton.Scan.Line.{fill_forward, fill_reverse, shuffle_indices, fill_false, mask_values}

module _ {ℓ} {A : Type ℓ} where
  length-set : (xs : List A) (i : ℕ) (v : A) → length (set xs i v) ≡ length xs
  length-set [] i v = refl
  length-set (x ∷ xs) zero v = refl
  length-set (x ∷ xs) (suc i) v = ap suc (length-set xs i v)

  get_elem?-set :
      (xs : List A) (i k : ℕ) (v : A)
      → i < length xs
      → get_elem? (set xs i v) k ≡ (if k == i then some v else get_elem? xs k)
  get_elem?-set [] i k v h = absurd (omega arith)
  get_elem?-set (x ∷ xs) zero zero v h = refl
  get_elem?-set (x ∷ xs) zero (suc k) v h = ground arith
  get_elem?-set (x ∷ xs) (suc i) zero v h = ground arith
  get_elem?-set (x ∷ xs) (suc i) (suc k) v h = ground (arith, get_elem?-set xs i k v)

length-fill_forward : (n i s : ℕ) (xs : List ℕ) → length (fill_forward n i s xs) ≡ length xs
unfolding fill_forward
length-fill_forward zero i s xs = refl
length-fill_forward (suc n) i s xs = length-fill_forward n (suc i) s _ ∙ length-set xs i (i - s)

length-fill_reverse : (n s : ℕ) (xs : List ℕ) → length (fill_reverse n s xs) ≡ length xs
unfolding fill_reverse
length-fill_reverse zero s xs = refl
length-fill_reverse (suc n) s xs = length-fill_reverse n s _ ∙ length-set xs n (n + s)

pub length-shuffle_indices :
    (reverse : Bool) (size stride : ℕ) → length (shuffle_indices reverse size stride) ≡ size
unfolding shuffle_indices
length-shuffle_indices true size stride =
    length-fill_reverse (size - stride) stride _ ∙ length-replicate size 0
length-shuffle_indices false size stride =
    length-fill_forward (size - stride) stride stride _ ∙ length-replicate size 0

fill_forward_lem :
    (n i s k : ℕ) (xs : List ℕ)
    → i + n ≤ length xs
    → get_elem? (fill_forward n i s xs) k
      ≡ (if leb i k && ltb k (i + n) then some (k - s) else get_elem? xs k)
unfolding fill_forward
fill_forward_lem zero i s k xs h = ground arith
fill_forward_lem (suc n) i s k xs h = ground (
  arith,
  fill_forward_lem n (suc i) s k (set xs i (i - s)),
  length-set xs i (i - s),
  get_elem?-set xs i k (i - s),
)

fill_reverse_lem :
    (n s k : ℕ) (xs : List ℕ)
    → n ≤ length xs
    → get_elem? (fill_reverse n s xs) k ≡ (if ltb k n then some (k + s) else get_elem? xs k)
unfolding fill_reverse
fill_reverse_lem zero s k xs h = ground arith
fill_reverse_lem (suc n) s k xs h = ground (
  arith,
  fill_reverse_lem n s k (set xs n (n + s)),
  length-set xs n (n + s),
  get_elem?-set xs n k (n + s),
)

fill_false_lem :
    (n i k : ℕ) (xs : List Bool)
    → i + n ≤ length xs
    → get_elem? (fill_false n i xs) k
      ≡ (if leb i k && ltb k (i + n) then some false else get_elem? xs k)
unfolding fill_false
fill_false_lem zero i k xs h = ground arith
fill_false_lem (suc n) i k xs h = ground (
  arith,
  fill_false_lem n (suc i) k (set xs i false),
  length-set xs i false,
  get_elem?-set xs i k false,
)

-- Whether a lane takes part in a round, and the lane that it then reads.
abbrev pub takes_part : Bool → ℕ → ℕ → ℕ → Bool
takes_part true size stride k = ltb (k + stride) size
takes_part false size stride k = leb stride k

abbrev pub partner : Bool → ℕ → ℕ → ℕ
partner true stride k = k + stride
partner false stride k = k - stride

pub shuffle_indices_lem :
    (reverse : Bool) (size stride k : ℕ)
    → stride < size
    → k < size
    → get_elem? (shuffle_indices reverse size stride) k
      ≡ some (if takes_part reverse size stride k then partner reverse stride k else 0)
unfolding shuffle_indices
shuffle_indices_lem true size stride k h b = ground (
  arith,
  fill_reverse_lem (size - stride) stride k (replicate size 0),
  length-replicate {A = ℕ} size 0,
  get_elem?-replicate {A = ℕ} size k 0,
)
shuffle_indices_lem false size stride k h b = ground (
  arith,
  fill_forward_lem (size - stride) stride stride k (replicate size 0),
  length-replicate {A = ℕ} size 0,
  get_elem?-replicate {A = ℕ} size k 0,
)

pub mask_values_lem :
    (reverse : Bool) (size stride k : ℕ)
    → stride < size
    → k < size
    → get_elem? (mask_values reverse size stride) k ≡ some (takes_part reverse size stride k)
unfolding mask_values
mask_values_lem true size stride k h b = ground (
  arith,
  fill_false_lem stride (size - stride) k (replicate size true),
  length-replicate size true,
  get_elem?-replicate size k true,
)
mask_values_lem false size stride k h b = ground (
  arith,
  fill_false_lem stride 0 k (replicate size true),
  length-replicate size true,
  get_elem?-replicate size k true,
)
