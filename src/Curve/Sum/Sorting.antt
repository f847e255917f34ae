-- ===== src/Curve/Sum/Sorting.antt =====
-- `sort_unstable` followed by `dedup` gives strictly rising times.
use synergistic_juno_contrac.Base.{
  ℕ, ◌+◌, ◌≤◌, ◌<◌, ◌≡◌, ◌≢◌, refl, List, [], ◌∷◌, arith, All, length,
}
use synergistic_juno_contrac.Curve.Combine.{insert_sorted, sort, dedup, dedup_from}

abbrev SortedFrom : ℕ → List ℕ → Type 0
SortedFrom low [] = Unit
SortedFrom low (x ∷ xs) = (low ≤ x) × SortedFrom x xs

abbrev pub StrictFrom : ℕ → List ℕ → Type 0
StrictFrom low [] = Unit
StrictFrom low (x ∷ xs) = (low < x) × StrictFrom x xs

SortedFrom-insert_sorted :
    (low a : ℕ) (xs : List ℕ) → low ≤ a → SortedFrom low xs → SortedFrom low (insert_sorted a xs)
unfolding insert_sorted
SortedFrom-insert_sorted low a [] h s = (h, tt)
SortedFrom-insert_sorted low a (x ∷ xs) h s = ground (arith, SortedFrom-insert_sorted x a xs, s)

SortedFrom-sort : (low : ℕ) (xs : List ℕ) → All (λ x. low ≤ x) xs → SortedFrom low (sort xs)
unfolding sort
SortedFrom-sort low [] h = tt
SortedFrom-sort low (x ∷ xs) h =
    SortedFrom-insert_sorted low x (sort xs) h.0 (SortedFrom-sort low xs h.1)

StrictFrom-dedup_from :
    (low : ℕ) (xs : List ℕ) → SortedFrom low xs → StrictFrom low (dedup_from low xs)
unfolding dedup_from
StrictFrom-dedup_from low [] s = tt
StrictFrom-dedup_from low (x ∷ xs) s = ground (arith, StrictFrom-dedup_from x xs s.1)

StrictFrom-dedup : (low : ℕ) (xs : List ℕ) → SortedFrom (low + 1) xs → StrictFrom low (dedup xs)
unfolding dedup
StrictFrom-dedup low [] s = tt
StrictFrom-dedup low (x ∷ xs) s = (omega arith, StrictFrom-dedup_from x xs s.1)

pub StrictFrom-dedup-sort :
    (low : ℕ) (xs : List ℕ) → All (λ x. low < x) xs → StrictFrom low (dedup (sort xs))
StrictFrom-dedup-sort low xs h =
    StrictFrom-dedup low (sort xs) (SortedFrom-sort (low + 1) xs (later low xs h))
  where
    later : (low : ℕ) (xs : List ℕ) → All (λ x. low < x) xs → All (λ x. low + 1 ≤ x) xs
    later low [] h = tt
    later low (x ∷ xs) h = (omega arith, later low xs h.1)

insert_sorted_nonempty : (a : ℕ) (xs : List ℕ) → dedup (insert_sorted a xs) ≢ []
unfolding insert_sorted dedup
insert_sorted_nonempty a [] e = cc
insert_sorted_nonempty a (x ∷ xs) e = ground arith

pub dedup-sort_nonempty : (a : ℕ) (xs : List ℕ) → dedup (sort (a ∷ xs)) ≢ []
unfolding sort
dedup-sort_nonempty a xs = insert_sorted_nonempty a (sort xs)

length-insert_sorted : (a : ℕ) (xs : List ℕ) → length (insert_sorted a xs) ≡ length xs + 1
unfolding insert_sorted
length-insert_sorted a [] = omega arith
length-insert_sorted a (x ∷ xs) = ground (arith, length-insert_sorted a xs)

length-sort : (xs : List ℕ) → length (sort xs) ≡ length xs
unfolding sort
length-sort [] = refl
length-sort (x ∷ xs) = omega (arith, length-insert_sorted x (sort xs), length-sort xs)

length-dedup_from : (last : ℕ) (xs : List ℕ) → length (dedup_from last xs) ≤ length xs
unfolding dedup_from
length-dedup_from last [] = omega arith
length-dedup_from last (x ∷ xs) = ground (arith, length-dedup_from x xs)

length-dedup : (xs : List ℕ) → length (dedup xs) ≤ length xs
unfolding dedup
length-dedup [] = omega arith
length-dedup (x ∷ xs) = omega (arith, length-dedup_from x xs)

pub length-dedup-sort : (xs : List ℕ) → length (dedup (sort xs)) ≤ length xs
length-dedup-sort xs = omega (arith, length-dedup (sort xs), length-sort xs)
