-- ===== src/Group/Unique.antt =====
-- `validate_unique_members` of cw4-group finds every duplicate.
use synergistic_juno_contrac.Base.{
  ◌≡◌, ◌≢◌, true, false, List, [], ◌∷◌, ok, arith, All, >>=-eq-ok, subst,
}
use synergistic_juno_contrac.Base.Text.{
  Text, text_lt, text_lt_irrefl, text_lt_trans, text_eq_of_not_lt,
}
use synergistic_juno_contrac.Group.{Member}
use synergistic_juno_contrac.Group.Members.{
  insert_member, sort_members, check_neighbours, validate_unique_members,
}

-- No address is before its predecessor's.
abbrev SortedFrom : Text → List Member → Type 0
SortedFrom low [] = Unit
SortedFrom low (m ∷ ms) = (text_lt m.addr low ≡ false) × SortedFrom m.addr ms

abbrev Sorted : List Member → Type 0
Sorted [] = Unit
Sorted (m ∷ ms) = SortedFrom m.addr ms

-- Every address is after its predecessor's.
abbrev StrictFrom : Text → List Member → Type 0
StrictFrom low [] = Unit
StrictFrom low (m ∷ ms) = (text_lt low m.addr ≡ true) × StrictFrom m.addr ms

-- No address occurs twice.
abbrev pub DistinctAddrs : List Member → Type 0
DistinctAddrs [] = Unit
DistinctAddrs (m ∷ ms) = All (λ n. m.addr ≢ n.addr) ms × DistinctAddrs ms

text_lt_asym : (a b : Text) → text_lt a b ≡ true → text_lt b a ≡ false
text_lt_asym a b h = ground (arith, text_lt_trans a b a, text_lt_irrefl a)

SortedFrom-insert :
    (low : Text) (m : Member) (ms : List Member)
    → text_lt m.addr low ≡ false
    → SortedFrom low ms
    → SortedFrom low (insert_member m ms)
unfolding insert_member
SortedFrom-insert low m [] h s = (h, tt)
SortedFrom-insert low m (n ∷ ns) h s =
    ground (arith, text_lt_asym n.addr m.addr, SortedFrom-insert n.addr m ns)

Sorted-insert : (m : Member) (ms : List Member) → Sorted ms → Sorted (insert_member m ms)
unfolding insert_member
Sorted-insert m [] s = tt
Sorted-insert m (n ∷ ns) s =
    ground (arith, text_lt_asym n.addr m.addr, SortedFrom-insert n.addr m ns)

Sorted-sort : (ms : List Member) → Sorted (sort_members ms)
unfolding sort_members
Sorted-sort [] = tt
Sorted-sort (m ∷ ms) = Sorted-insert m (sort_members ms) (Sorted-sort ms)

StrictFrom-check :
    (m : Member) (ms : List Member)
    → SortedFrom m.addr ms
    → check_neighbours (m ∷ ms) ≡ ok tt
    → StrictFrom m.addr ms
unfolding check_neighbours
StrictFrom-check m [] s h = tt
StrictFrom-check m (n ∷ ns) s h =
    ground (arith, text_eq_of_not_lt m.addr n.addr, StrictFrom-check n ns s.1)

later_distinct :
    (low : Text) (m : Member) (ms : List Member)
    → text_lt low m.addr ≡ true
    → StrictFrom m.addr ms
    → All (λ n. low ≢ n.addr) (m ∷ ms)
later_distinct low m [] h s = (λ e. ground (arith, text_lt_irrefl low), tt)
later_distinct low m (n ∷ ns) h s = (
  λ e. ground (arith, text_lt_irrefl low),
  later_distinct low n ns (text_lt_trans low m.addr n.addr h s.0) s.1,
)

DistinctAddrs-strict :
    (m : Member) (ms : List Member) → StrictFrom m.addr ms → DistinctAddrs (m ∷ ms)
DistinctAddrs-strict m [] s = (tt, tt)
DistinctAddrs-strict m (n ∷ ns) s =
    (later_distinct m.addr n ns s.0 s.1, DistinctAddrs-strict n ns s.1)

checked_distinct : (ms : List Member) → Sorted ms → check_neighbours ms ≡ ok tt → DistinctAddrs ms
checked_distinct [] s h = tt
checked_distinct (m ∷ ms) s h = DistinctAddrs-strict m ms (StrictFrom-check m ms s h)

-- If `validate_unique_members` accepts a list of members, no address occurs twice in the list
-- that it leaves.
pub validate-DistinctAddrs :
    (ms sorted : List Member) → validate_unique_members ms ≡ ok sorted → DistinctAddrs sorted
unfolding validate_unique_members
validate-DistinctAddrs ms sorted h =
    let (u, checked, e) = >>=-eq-ok (check_neighbours (sort_members ms)) _ h in
    subst DistinctAddrs (cc e) (checked_distinct (sort_members ms) (Sorted-sort ms) checked)
