-- ===== src/Base/Dict.antt =====
-- A storage `Map` with number keys whose values are amounts: an association list, with the sum
-- over all entries.
use Prim.Native.Nat.{ℕ, ◌+◌}
use mathlib.Core.Path.{◌≡◌, refl}
use mathlib.Core.Option.{Option, none, some}
use mathlib.Core.List.{List, [], ◌∷◌}
use native.Mathlib.Omega.{arith}
use mathlib.Core.Bool.{false}
use mathlib.Core.Logic.{◌⊎◌, inl, inr}
use synergistic_juno_contrac.Base.Tests.{◌==◌, if◌then◌else◌, Bool-cases}
use synergistic_juno_contrac.Base.Results.{get_or}

abbrev pub Dict {ℓ} : Type ℓ → Type ℓ
Dict V = List (ℕ × V)

module _ {ℓ} {V : Type ℓ} where
  -- `may_load`
  unfoldable pub lookup : ℕ → Dict V → Option V
  lookup k [] = none
  lookup k ((j, v) ∷ d) = if j == k then some v else lookup k d

  -- `save`
  unfoldable pub insert : ℕ → V → Dict V → Dict V
  insert k v [] = (k, v) ∷ []
  insert k v ((j, w) ∷ d) = if j == k then (k, v) ∷ d else (j, w) ∷ insert k v d

  -- `remove`
  unfoldable pub erase : ℕ → Dict V → Dict V
  erase k [] = []
  erase k ((j, w) ∷ d) = if j == k then erase k d else (j, w) ∷ erase k d

  pub lookup-insert :
      (k j : ℕ) (v : V) (d : Dict V)
      → lookup j (insert k v d) ≡ (if k == j then some v else lookup j d)
  unfolding lookup insert
  lookup-insert k j v [] = refl
  lookup-insert k j v ((i, w) ∷ d) = ground (arith, lookup-insert k j v d)

  pub lookup-erase :
      (k j : ℕ) (d : Dict V) → lookup j (erase k d) ≡ (if k == j then none else lookup j d)
  unfolding lookup erase
  lookup-erase k j [] = ground arith
  lookup-erase k j ((i, w) ∷ d) = ground (arith, lookup-erase k j d)

  -- An entry of a map after an insertion is the new one or an old one.
  pub insert-cases :
      (k j : ℕ) (v w : V) (d : Dict V)
      → lookup j (insert k v d) ≡ some w
      → ((k ≡ j) × (v ≡ w)) ⊎ (((k == j) ≡ false) × (lookup j d ≡ some w))
  insert-cases k j v w d e = elim (Bool-cases (k == j)) [
    | inl here ↦ inl (ground arith, ground (arith, lookup-insert k j v d))
    | inr there ↦ inr (there, ground (arith, lookup-insert k j v d))
  ]

  pub lookup-insert_same : (k : ℕ) (v : V) (d : Dict V) → lookup k (insert k v d) ≡ some v
  lookup-insert_same k v d = ground (arith, lookup-insert k k v d)

  pub lookup-insert_other :
      (k j : ℕ) (v : V) (d : Dict V) → (k == j) ≡ false → lookup j (insert k v d) ≡ lookup j d
  lookup-insert_other k j v d e = ground (arith, lookup-insert k j v d)

  -- No key is listed twice.
  abbrev pub Unique : Dict V → Type ℓ
  Unique [] = Unit
  Unique ((k, _) ∷ d) = (lookup k d ≡ none) × Unique d

  pub Unique-insert : (k : ℕ) (v : V) (d : Dict V) → Unique d → Unique (insert k v d)
  unfolding insert lookup
  Unique-insert k v [] u = (refl, tt)
  Unique-insert k v ((j, w) ∷ d) u = ground (arith, Unique-insert k v d u.1, lookup-insert k j v d)

  pub Unique-erase : (k : ℕ) (d : Dict V) → Unique d → Unique (erase k d)
  unfolding erase
  Unique-erase k [] u = tt
  Unique-erase k ((j, w) ∷ d) u = ground (arith, Unique-erase k d u.1, lookup-erase k j d)

  erase_absent : (k : ℕ) (d : Dict V) → lookup k d ≡ none → erase k d ≡ d
  unfolding erase lookup
  erase_absent k [] e = refl
  erase_absent k ((j, w) ∷ d) e = ground (arith, erase_absent k d)

-- The balance of a key: `may_load(..)?.unwrap_or_default()`.
abbrev pub amount_of : ℕ → Dict ℕ → ℕ
amount_of k d = get_or (lookup k d) 0

-- The sum of all entries.
unfoldable pub total : Dict ℕ → ℕ
total [] = 0
total ((_, v) ∷ d) = v + total d

-- Writing an entry moves the sum by the difference to the old amount.
pub total-insert : (k v : ℕ) (d : Dict ℕ) → total (insert k v d) + amount_of k d ≡ total d + v
unfolding total insert lookup
total-insert k v [] = ground arith
total-insert k v ((j, w) ∷ d) = ground (arith, total-insert k v d)

pub total-erase : (k : ℕ) (d : Dict ℕ) → Unique d → total (erase k d) + amount_of k d ≡ total d
unfolding total erase lookup
total-erase k [] u = refl
total-erase k ((j, w) ∷ d) u = ground (arith, total-erase k d u.1, erase_absent k d)
