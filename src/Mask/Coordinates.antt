-- ===== src/Mask/Coordinates.antt =====
-- Index tuples of a shape: the element that an expanded or a broadcast tensor reads, and one axis of it.
use spine_triton.Prelude.{
  ℕ, zero, suc, ◌≤◌, ◌<◌, ◌==◌, length, get_elem?, if◌then◌else◌, map, List, [], ◌∷◌, some, ◌≡◌,
  refl, ap, ◌⊎◌, arith,
}
use spine_triton.Ir.{drop_at, stretch}
use spine_triton.Mask.Parse.{insert_at}

abbrev pub InBounds : List ℕ → List ℕ → Type 0
InBounds [] [] = Unit
InBounds (n ∷ ns) (i ∷ idx) = (i < n) × InBounds ns idx
InBounds _ _ = ⊥

-- Where an axis goes when one is inserted before or behind it.
abbrev pub shifted : ℕ → ℕ → ℕ
shifted zero k = suc k
shifted (suc a) zero = zero
shifted (suc a) (suc k) = suc (shifted a k)

pub get_elem?-insert_at {ℓ} :
    {A : Type ℓ} (a k : ℕ) (d : A) (ds : List A) {x : A}
    → get_elem? ds k ≡ some x
    → get_elem? (insert_at a d ds) (shifted a k) ≡ some x
get_elem?-insert_at zero k d ds h = h
get_elem?-insert_at (suc a) k d [] h = cc
get_elem?-insert_at (suc a) zero d (e ∷ ds) h = h
get_elem?-insert_at (suc a) (suc k) d (e ∷ ds) h = get_elem?-insert_at a k d ds h

pub get_elem?-drop_at :
    (a k : ℕ) (idx : List ℕ) {j : ℕ}
    → get_elem? idx (shifted a k) ≡ some j
    → get_elem? (drop_at a idx) k ≡ some j
get_elem?-drop_at zero k [] h = h
get_elem?-drop_at (suc a) k [] h = h
get_elem?-drop_at zero k (i ∷ idx) h = h
get_elem?-drop_at (suc a) zero (i ∷ idx) h = h
get_elem?-drop_at (suc a) (suc k) (i ∷ idx) h = get_elem?-drop_at a k idx h

pub InBounds-drop_at :
    (a : ℕ) (ns idx : List ℕ)
    → a ≤ length ns
    → InBounds (insert_at a 1 ns) idx
    → InBounds ns (drop_at a idx)
InBounds-drop_at zero ns (i ∷ idx) h b = b.1
InBounds-drop_at zero ns [] h b = absurd b
InBounds-drop_at (suc a) [] idx h b = absurd (omega arith)
InBounds-drop_at (suc a) (n ∷ ns) [] h b = absurd b
InBounds-drop_at (suc a) (n ∷ ns) (i ∷ idx) h b = (b.0, InBounds-drop_at a ns idx (omega arith) b.1)

pub InBounds-insert_at :
    (a : ℕ) (ns idx : List ℕ)
    → a ≤ length ns
    → InBounds ns idx
    → InBounds (insert_at a 1 ns) (insert_at a 0 idx)
InBounds-insert_at zero ns idx h b = (omega arith, b)
InBounds-insert_at (suc a) [] idx h b = absurd (omega arith)
InBounds-insert_at (suc a) (n ∷ ns) [] h b = absurd b
InBounds-insert_at (suc a) (n ∷ ns) (i ∷ idx) h b =
    (b.0, InBounds-insert_at a ns idx (omega arith) b.1)

-- The shapes of a broadcast: each extent stays, or is stretched from 1.
abbrev pub Stretches : List ℕ → List ℕ → Type 0
Stretches [] [] = Unit
Stretches (m ∷ ms) (n ∷ ns) = ((m ≡ n) ⊎ ((m ≡ 1) × (1 < n))) × Stretches ms ns
Stretches _ _ = ⊥

pub length-Stretches : (ms ns : List ℕ) → Stretches ms ns → length ms ≡ length ns
length-Stretches [] [] h = refl
length-Stretches (m ∷ ms) (n ∷ ns) h = ap suc (length-Stretches ms ns h.1)
length-Stretches [] (n ∷ ns) h = absurd h
length-Stretches (m ∷ ms) [] h = absurd h

pub InBounds-stretch :
    (ms ns idx : List ℕ) → Stretches ms ns → InBounds ns idx → InBounds ms (stretch ms idx)
InBounds-stretch [] [] [] s b = tt
InBounds-stretch (m ∷ ms) (n ∷ ns) (i ∷ idx) s b = (head, InBounds-stretch ms ns idx s.1 b.1)
  where
    head : (if m == 1 then 0 else i) < m
    head = ground arith
InBounds-stretch [] [] (i ∷ idx) s b = absurd b
InBounds-stretch (m ∷ ms) (n ∷ ns) [] s b = absurd b
InBounds-stretch [] (n ∷ ns) idx s b = absurd s
InBounds-stretch (m ∷ ms) [] idx s b = absurd s

pub get_elem?-insert_at_self {ℓ} :
    {A : Type ℓ} (a : ℕ) (d : A) (ds : List A)
    → a ≤ length ds
    → get_elem? (insert_at a d ds) a ≡ some d
get_elem?-insert_at_self zero d ds h = refl
get_elem?-insert_at_self (suc a) d [] h = absurd (omega arith)
get_elem?-insert_at_self (suc a) d (e ∷ ds) h = get_elem?-insert_at_self a d ds (omega arith)

pub map-insert_at {ℓ κ} :
    {A : Type ℓ} {B : Type κ} (f : A → B) (a : ℕ) (d : A) (ds : List A)
    → map f (insert_at a d ds) ≡ insert_at a (f d) (map f ds)
map-insert_at f zero d ds = refl
map-insert_at f (suc a) d [] = refl
map-insert_at f (suc a) d (e ∷ ds) = ap (λ r. f e ∷ r) (map-insert_at f a d ds)
