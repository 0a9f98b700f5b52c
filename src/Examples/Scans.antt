-- ===== src/Examples/Scans.antt =====
-- A vector dialect on functions of an index, and scans that add.
use spine_triton.Prelude.{
  ℕ, zero, suc, ◌+◌, ◌*◌, ◌==◌, ◌&&◌, Bool, true, false, if◌then◌else◌, List, [], ◌∷◌, ◌++◌, Option,
  none, some, map, length, get_elem?, replicate, All, ◌≡◌, ◌≢◌, refl, ap, ap₂, ◌∙◌, arith, ==_iff,
  Bool-cases, inl, inr,
}
use spine_triton.Scan.Region.{
  returns, operation, Block, Dialect, Yields, look_up, look_up_all, map_arguments, map_results,
  map_pair, lookup_mapped_value, accumulate,
}
use spine_triton.Scan.Value.{IsRegion}
use spine_triton.Scan.Value.Sound.{Gives, accumulate-region_value}
use spine_triton.Scan.Meaning.{
  Meaning, Indexing, lanes, product, row_major, coordinates, combine, evaluate, operand_elements,
}
use spine_triton.Scan.Accumulate.{[]-Fits}
use spine_triton.Scan.Combining.{CombinesBy, lookup_mapped_value_keeps_shape}
use spine_triton.Scan.Line.{lower_1d_input}
use spine_triton.Scan.Line.Rounds.{Row}
use spine_triton.Scan.Line.Sound.{lower_1d_input_sound}
use spine_triton.Scan.Prefix.{scanned}
use spine_triton.Scan.Dispatch.{ScanOp, match_and_rewrite}
use spine_triton.Scan.Whole.{IsScan, match_and_rewrite_sound}

record Vec : Type 0 where
  extents : List ℕ
  at : List ℕ → ℕ

abbrev sum : List ℕ → ℕ
sum [] = 0
sum (x ∷ xs) = x + sum xs

abbrev drop : ℕ → List ℕ → List ℕ
drop zero xs = xs
drop (suc n) [] = []
drop (suc n) (x ∷ xs) = drop n xs

abbrev starts_with : List ℕ → List ℕ → Bool
starts_with [] idx = true
starts_with (k ∷ pre) [] = false
starts_with (k ∷ pre) (j ∷ idx) = (k == j) && starts_with pre idx

abbrev head : List ℕ → ℕ
head [] = 0
head (k ∷ idx) = k

abbrev or_zero : Option ℕ → ℕ
or_zero none = 0
or_zero (some j) = j

abbrev or_false : Option Bool → Bool
or_false none = false
or_false (some c) = c

abbrev vec_create : ℕ → List Vec → ℕ → List ℕ → List Vec
vec_create name vs n s =
    replicate n (record { extents = s; at = λ idx. sum (map (λ v. v.at idx) vs) })

abbrev vectors : Dialect Vec
vectors = record {
  shape = λ v. v.extents;
  create = vec_create;
  broadcast = λ s id. record { extents = s; at = λ idx. id };
  zeros = λ s. record { extents = s; at = λ idx. 0 };
  shuffle = λ a b mask. record {
    extents = length mask ∷ [];
    at = λ idx. a.at (or_zero (get_elem? mask (head idx)) ∷ []);
  };
  select = λ mask a b. record {
    extents = b.extents;
    at = λ idx. if or_false (get_elem? mask (head idx)) then a.at idx else b.at idx;
  };
  extract = λ v at. record { extents = drop (length at) v.extents; at = λ idx. v.at (at ++ idx) };
  insert = λ x v at. record {
    extents = v.extents;
    at = λ idx. if starts_with at idx then x.at (drop (length at) idx) else v.at idx;
  };
  num_elements = λ v. product v.extents;
  compute_strides = row_major;
  delinearize = coordinates;
}

replicate-shapes :
    (n : ℕ) (v : Vec) (s : List ℕ) → v.extents ≡ s → All (λ v. v.extents ≡ s) (replicate n v)
replicate-shapes zero v s e = tt
replicate-shapes (suc n) v s e = (e, replicate-shapes n v s e)

length-replicate : (n k : ℕ) → length (replicate n k) ≡ n
length-replicate zero k = refl
length-replicate (suc n) k = ap suc (length-replicate n k)

map-replicate : (n : ℕ) (v : Vec) (g : Vec → ℕ) → map g (replicate n v) ≡ replicate n (g v)
map-replicate zero v g = refl
map-replicate (suc n) v g = ap (◌∷◌ (g v)) (map-replicate n v g)

drop-append : (xs ys rest : List ℕ) → length xs ≡ length ys → drop (length xs) (ys ++ rest) ≡ rest
drop-append [] [] rest h = refl
drop-append [] (y ∷ ys) rest h = absurd (omega arith)
drop-append (x ∷ xs) [] rest h = absurd (omega arith)
drop-append (x ∷ xs) (y ∷ ys) rest h = drop-append xs ys rest (omega arith)

starts_with-append : (xs rest : List ℕ) → starts_with xs (xs ++ rest) ≡ true
starts_with-append [] rest = refl
starts_with-append (x ∷ xs) rest = ground (arith, starts_with-append xs rest)

starts_with-other :
    (xs ys rest : List ℕ) → length xs ≡ length ys → xs ≢ ys → starts_with xs (ys ++ rest) ≡ false
starts_with-other [] [] rest h n = absurd (n refl)
starts_with-other [] (y ∷ ys) rest h n = absurd (omega arith)
starts_with-other (x ∷ xs) [] rest h n = absurd (omega arith)
starts_with-other (x ∷ xs) (y ∷ ys) rest h n = elim (Bool-cases (x == y)) [
  | inr e ↦ rw e refl
  | inl e ↦
      rw e (starts_with-other xs ys rest (omega arith) (λ q. n (ap₂ ◌∷◌ ((==_iff x y).0 e) q)))
]

vectors_meaning : Meaning vectors ℕ
vectors_meaning = record {
  lane = λ v idx. v.at idx;
  scalar = λ name es n. replicate n (sum es);
  outer = λ id. id;
  create_shapes = λ name vs n s. replicate-shapes n _ s refl;
  create_lanes = λ name vs n s a idx. map-replicate n _ (λ v. v.at idx);
  broadcast_shape = λ s id. refl;
  broadcast_lane = λ s id idx. refl;
  zeros_shape = λ s. refl;
  shuffle_shape = λ a b mask. refl;
  shuffle_lane = λ a b mask n k j h e l. ap (λ o. a.at (or_zero o ∷ [])) e;
  select_shape = λ mask a b. refl;
  select_lane = λ mask a b k c e. ap (λ o. if or_false o then a.at (k ∷ []) else b.at (k ∷ [])) e;
  extract_shape = λ v at extents rest h e. ap (drop (length at)) e ∙ drop-append at extents rest h;
  extract_lane = λ v at idx. refl;
  insert_shape = λ x v at. refl;
  insert_lane =
      λ x v at idx. rw (starts_with-append at idx) (ap (λ k. x.at k) (drop-append at at idx refl));
  insert_other = λ x v at other idx h n. rw (starts_with-other at other idx h n) refl;
}

vectors_indexing : Indexing vectors
vectors_indexing = record {
  num_elements_lem = λ v. refl;
  compute_strides_lem = λ s. refl;
  delinearize_lem = λ j s. refl;
}

-- A region with one addition.
abbrev adding : Block
adding = record {
  arguments = 0 ∷ 1 ∷ [];
  operations = operation 7 (0 ∷ 1 ∷ []) (2 ∷ []) ∷ returns (2 ∷ []) ∷ [];
}

abbrev add_heads : List ℕ → List ℕ → List ℕ
add_heads a b = (head a + (head b + 0)) ∷ []

adding-defined :
    (a b : List ℕ)
    → length a ≡ 1
    → length b ≡ 1
    → combine vectors_meaning adding a b ≡ some (add_heads a b)
unfolding combine evaluate vectors_meaning operand_elements map_arguments map_pair map_results
    look_up look_up_all
adding-defined [] b h k = absurd (omega arith)
adding-defined (x ∷ y ∷ a) b h k = absurd (omega arith)
adding-defined (x ∷ []) [] h k = absurd (omega arith)
adding-defined (x ∷ []) (y ∷ z ∷ b) h k = absurd (omega arith)
adding-defined (x ∷ []) (y ∷ []) h k = refl

adding-CombinesBy : CombinesBy vectors_meaning adding 1 add_heads
adding-CombinesBy = record {
  defined = adding-defined;
  sized = λ a b h k. refl;
  assoc = λ a b c h k l. ap (λ (x : ℕ). x ∷ []) (omega arith);
}

-- Rows of three elements, scanned from their ends.
abbrev rows : Vec
rows = record { extents = 2 ∷ 3 ∷ []; at = λ idx. head idx * 10 + head (drop 1 idx) }

abbrev along_rows : ScanOp
along_rows = record {
  axis = 1;
  reverse = true;
  rank = 2;
  region = adding;
  results = (2 ∷ 3 ∷ []) ∷ [];
}

match_and_rewrite_sound_example :
    Yields
      (IsScan vectors_indexing along_rows adding-CombinesBy (omega arith) 3 [] (2 ∷ []) (rows ∷ []))
      (match_and_rewrite vectors along_rows (some (rows ∷ [])) [])
match_and_rewrite_sound_example =
    match_and_rewrite_sound vectors_indexing along_rows adding-CombinesBy (omega arith) 3 []
      (2 ∷ []) (rows ∷ []) [] refl refl (omega arith) refl refl (refl, tt) (refl, tt)
      ([]-Fits vectors_meaning (3 ∷ []))

-- Running sums of one line of five elements.
abbrev line : Vec
line = record { extents = 5 ∷ []; at = λ idx. suc (head idx) }

lower_1d_input_sound_example :
    Yields
      (Row adding-CombinesBy 5
        (omega arith)
        (scanned add_heads false 5 (λ k. lanes vectors_meaning (k ∷ []) (line ∷ []))))
      (lower_1d_input vectors adding false (line ∷ []) [])
lower_1d_input_sound_example =
    lower_1d_input_sound adding-CombinesBy (omega arith) false 5 (line ∷ []) [] refl (refl, tt)
      ([]-Fits vectors_meaning (5 ∷ []))

-- A region for two accumulators: it adds the first of them, the second input and a value from
-- outside, and keeps the second accumulator.
abbrev mixing : Block
mixing = record {
  arguments = 0 ∷ 1 ∷ 2 ∷ 3 ∷ [];
  operations = operation 7 (0 ∷ 3 ∷ 9 ∷ []) (4 ∷ []) ∷ returns (4 ∷ 1 ∷ []) ∷ [];
}

mixing-IsRegion : IsRegion mixing 2 (0 ∷ 1 ∷ []) (2 ∷ 3 ∷ [])
mixing-IsRegion = record {
  made = refl;
  accs_width = refl;
  ins_width = refl;
  accs_distinct = ((refl, tt), (tt, tt));
  ins_distinct = ((refl, tt), (tt, tt));
  apart = ((refl, (refl, tt)), ((refl, (refl, tt)), tt));
  results_distinct = ((tt, tt), tt);
  own = (inl refl, (inr (inr (inl refl)), tt));
}

accumulate-region_value_example :
    Yields
      (Gives vectors_meaning
        (5 ∷ [])
        (0 ∷ 1 ∷ [])
        (2 ∷ 3 ∷ [])
        mixing
        (line ∷ line ∷ [])
        (line ∷ line ∷ []))
      (accumulate vectors mixing (line ∷ line ∷ []) (line ∷ line ∷ []) [])
unfolding vectors_meaning
accumulate-region_value_example =
    accumulate-region_value vectors_meaning (λ name es n. length-replicate n (sum es)) (5 ∷ [])
      mixing (0 ∷ 1 ∷ []) (2 ∷ 3 ∷ []) line line (line ∷ []) (line ∷ []) [] mixing-IsRegion refl
      (refl, (refl, tt)) (refl, (refl, tt)) ([]-Fits vectors_meaning (5 ∷ []))

-- Two scans, of vectors of 8 and of 16 elements, whose regions use the same outer value.
lookup_mapped_value_keeps_shape_example :
    (lookup_mapped_value vectors [] 9 (16 ∷ []) (lookup_mapped_value vectors [] 9 (8 ∷ []) []).1).0
    ≡ (lookup_mapped_value vectors [] 9 (8 ∷ []) []).0
unfolding look_up
lookup_mapped_value_keeps_shape_example =
    lookup_mapped_value_keeps_shape vectors [] [] [] 9 (8 ∷ []) (16 ∷ []) refl refl
