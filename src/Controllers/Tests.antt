-- ===== src/Controllers/Tests.antt =====
-- The controllers on small stores.
use synergistic_juno_contrac.Base.{
  ℕ, ◌+◌, ◌≡◌, refl, none, some, [], ◌∷◌, ok, leb, ◌==◌, if◌then◌else◌, arith,
}
use synergistic_juno_contrac.Base.Checked.{add_within}
use synergistic_juno_contrac.Controllers.Admin.{Store, get, is_admin, assert_admin}
use synergistic_juno_contrac.Controllers.Hooks.{
  HookStore, add_hook, remove_hook, remove_first, execute_add_hook, execute_remove_hook,
}
use synergistic_juno_contrac.Controllers.Claims.{
  Claims, claims_of, save, partition, over_cap, claim_tokens, claimed, immature,
  claim_tokens_conserves,
}

abbrev admins : Store
admins = some (some 1)

abbrev hooks : HookStore
hooks = some (4 ∷ 5 ∷ [])

add_runs : execute_add_hook admins 1 6 hooks ≡ ok (some (4 ∷ 5 ∷ 6 ∷ []))
unfolding execute_add_hook add_hook assert_admin is_admin get
add_runs = refl

remove_runs : execute_remove_hook admins 1 4 hooks ≡ ok (some (5 ∷ []))
unfolding execute_remove_hook remove_hook remove_first assert_admin is_admin get
remove_runs = refl

-- Claims that mature at a time.
abbrev claims : Claims ℕ
claims a =
    if a == 1
    then some (
        record { amount = 10; release_at = 3 }
        ∷ record { amount = 20; release_at = 9 }
        ∷ record { amount = 30; release_at = 4 }
        ∷ [])
    else none

abbrev all_paid : Claims ℕ
all_paid = save claims 1 (record { amount = 20; release_at = 9 } ∷ [])

abbrev some_paid : Claims ℕ
some_paid =
    save claims 1
      (record { amount = 20; release_at = 9 } ∷ record { amount = 30; release_at = 4 } ∷ [])

uncapped_runs : claim_tokens leb 5 1 none claims ≡ some (40, all_paid)
unfolding claim_tokens partition over_cap add_within
uncapped_runs = refl

capped_runs : claim_tokens leb 5 1 (some 35) claims ≡ some (10, some_paid)
unfolding claim_tokens partition over_cap add_within
capped_runs = refl

claim_tokens_conserves_example :
    (10 + claimed leb (claims_of some_paid 1) ≡ claimed leb (claims_of claims 1))
    × (immature leb 5 (claims_of some_paid 1) ≡ immature leb 5 (claims_of claims 1))
    × (some_paid 2 ≡ claims 2)
claim_tokens_conserves_example =
    claim_tokens_conserves leb 5 1 2 (some 35) claims some_paid 10 (λ e. omega arith) capped_runs
