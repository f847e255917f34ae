-- ===== src/Vesting/Initial/Distinct.antt =====
-- `validate_accounts` of cw20-vesting accepts no address twice: sorting, dropping neighbours that
-- are equal, and comparing lengths finds every duplicate.
use synergistic_juno_contrac.Base.{
  suc, ◌≤◌, ◌≡◌, ◌≢◌, refl, Bool, true, false, List, [], ◌∷◌, All, length, ok, if◌then◌else◌, arith,
  sym, subst, Bool-cases, inl, inr,
}
use synergistic_juno_contrac.Base.Text.{
  Text, text_lt, text_lt_irrefl, text_lt_trans, text_eq_of_not_lt,
}
use synergistic_juno_contrac.Vesting.Creation.{InitBalance}
use synergistic_juno_contrac.Vesting.Creation.Accounts.{
  insert_text, sort_texts, dedup_behind, dedup_texts, addresses_of, validate_accounts,
}

abbrev pub DistinctTexts : List Text → Type 0
DistinctTexts [] = Unit
DistinctTexts (x ∷ xs) = All (λ y. x ≢ y) xs × DistinctTexts xs

-- No text is before its predecessor.
abbrev SortedFrom : Text → List Text → Type 0
SortedFrom low [] = Unit
SortedFrom low (x ∷ xs) = (text_lt x low ≡ false) × SortedFrom x xs

abbrev Sorted : List Text → Type 0
Sorted [] = Unit
Sorted (x ∷ xs) = SortedFrom x xs

-- Every text is after its predecessor.
abbrev StrictFrom : Text → List Text → Type 0
StrictFrom low [] = Unit
StrictFrom low (x ∷ xs) = (text_lt low x ≡ true) × StrictFrom x xs

text_lt_asym : (a b : Text) → text_lt a b ≡ true → text_lt b a ≡ false
text_lt_asym a b h = ground (arith, text_lt_trans a b a, text_lt_irrefl a)

SortedFrom-insert :
    (low x : Text) (xs : List Text)
    → text_lt x low ≡ false
    → SortedFrom low xs
    → SortedFrom low (insert_text x xs)
unfolding insert_text
SortedFrom-insert low x [] h s = (h, tt)
SortedFrom-insert low x (y ∷ ys) h s = ground (arith, text_lt_asym y x, SortedFrom-insert y x ys)

Sorted-insert : (x : Text) (xs : List Text) → Sorted xs → Sorted (insert_text x xs)
unfolding insert_text
Sorted-insert x [] s = tt
Sorted-insert x (y ∷ ys) s = ground (arith, text_lt_asym y x, SortedFrom-insert y x ys)

Sorted-sort : (xs : List Text) → Sorted (sort_texts xs)
unfolding sort_texts
Sorted-sort [] = tt
Sorted-sort (x ∷ xs) = Sorted-insert x (sort_texts xs) (Sorted-sort xs)

length-dedup_le : (x : Text) (xs : List Text) → length (dedup_behind x xs) ≤ length xs
unfolding dedup_behind
length-dedup_le x [] = omega arith
length-dedup_le x (y ∷ ys) = ground (arith, length-dedup_le x ys, length-dedup_le y ys)

-- If nothing is dropped, no neighbours are equal.
StrictFrom-dedup :
    (x : Text) (xs : List Text)
    → SortedFrom x xs
    → length (dedup_behind x xs) ≡ length xs
    → StrictFrom x xs
unfolding dedup_behind
StrictFrom-dedup x [] s e = tt
StrictFrom-dedup x (y ∷ ys) s e =
    ground (arith, length-dedup_le x ys, text_eq_of_not_lt x y, StrictFrom-dedup y ys s.1)

later_distinct :
    (low x : Text) (xs : List Text)
    → text_lt low x ≡ true
    → StrictFrom x xs
    → All (λ y. low ≢ y) (x ∷ xs)
later_distinct low x [] h s = (λ e. ground (arith, text_lt_irrefl low), tt)
later_distinct low x (y ∷ ys) h s = (
  λ e. ground (arith, text_lt_irrefl low),
  later_distinct low y ys (text_lt_trans low x y h s.0) s.1,
)

DistinctTexts-strict : (x : Text) (xs : List Text) → StrictFrom x xs → DistinctTexts (x ∷ xs)
DistinctTexts-strict x [] s = (tt, tt)
DistinctTexts-strict x (y ∷ ys) s = (later_distinct x y ys s.0 s.1, DistinctTexts-strict y ys s.1)

-- What holds of all elements of a sorted list holds of those that were sorted.
All-insert :
    (P : Text → Type 0) (x : Text) (xs : List Text) → All P (insert_text x xs) → P x × All P xs
unfolding insert_text
All-insert P x [] a = a
All-insert P x (y ∷ ys) a = ground (arith, All-insert P x ys)

behind :
    (x y : Text) (ys : List Text)
    → All (λ z. y ≢ z) (insert_text x ys)
    → DistinctTexts (x ∷ ys)
    → DistinctTexts (x ∷ y ∷ ys)
behind x y ys a d =
    let (ne, rest) = All-insert (λ z. y ≢ z) x ys a in ((λ e. ne (sym e), d.0), (rest, d.1))

DistinctTexts-insert :
    (x : Text) (xs : List Text) → DistinctTexts (insert_text x xs) → DistinctTexts (x ∷ xs)
unfolding insert_text
DistinctTexts-insert x [] d = d
DistinctTexts-insert x (y ∷ ys) d =
    let either : Bool → List Text = λ b. if b then y ∷ insert_text x ys else x ∷ y ∷ ys in
    elim (Bool-cases (text_lt y x)) [
      | inl e ↦
          let d' = subst (λ b. DistinctTexts (either b)) e d in
          behind x y ys d'.0 (DistinctTexts-insert x ys d'.1)
      | inr e ↦ subst (λ b. DistinctTexts (either b)) e d
    ]

All-sort : (P : Text → Type 0) (xs : List Text) → All P (sort_texts xs) → All P xs
unfolding sort_texts
All-sort P [] a = tt
All-sort P (x ∷ xs) a = let (p, rest) = All-insert P x (sort_texts xs) a in (p, All-sort P xs rest)

DistinctTexts-sort : (xs : List Text) → DistinctTexts (sort_texts xs) → DistinctTexts xs
unfolding sort_texts
DistinctTexts-sort [] d = tt
DistinctTexts-sort (x ∷ xs) d =
    let (fresh, rest) = DistinctTexts-insert x (sort_texts xs) d in
    (All-sort (λ y. x ≢ y) xs fresh, DistinctTexts-sort xs rest)

length-insert : (x : Text) (xs : List Text) → length (insert_text x xs) ≡ suc (length xs)
unfolding insert_text
length-insert x [] = refl
length-insert x (y ∷ ys) = ground (arith, length-insert x ys)

length-sort : (xs : List Text) → length (sort_texts xs) ≡ length xs
unfolding sort_texts
length-sort [] = refl
length-sort (x ∷ xs) = ground (arith, length-insert x (sort_texts xs), length-sort xs)

distinct-Sorted :
    (xs : List Text) → Sorted xs → length (dedup_texts xs) ≡ length xs → DistinctTexts xs
unfolding dedup_texts
distinct-Sorted [] s e = tt
distinct-Sorted (x ∷ xs) s e = DistinctTexts-strict x xs (StrictFrom-dedup x xs s (omega arith))

length-addresses : (rows : List InitBalance) → length (addresses_of rows) ≡ length rows
unfolding addresses_of
length-addresses [] = refl
length-addresses (row ∷ rows) = ground (arith, length-addresses rows)

-- Initial balances that are accepted name every address once.
pub validate_accounts-DistinctTexts :
    (rows : List InitBalance) → validate_accounts rows ≡ ok tt → DistinctTexts (addresses_of rows)
unfolding validate_accounts
validate_accounts-DistinctTexts rows h =
    let xs = addresses_of rows in
    DistinctTexts-sort xs (
      distinct-Sorted (sort_texts xs) (Sorted-sort xs)
        (ground (arith, length-sort xs, length-addresses rows)))
