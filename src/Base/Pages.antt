-- ===== src/Base/Pages.antt =====
-- Reads of a storage `Map` with number keys in ascending order, page by page.
use Prim.Native.Nat.{ℕ, zero, suc}
use mathlib.Core.Option.{Option, none, some}
use mathlib.Core.Bool.{Bool, true}
use mathlib.Core.List.{List, [], ◌∷◌}
use synergistic_juno_contrac.Base.Tests.{ltb, if◌then◌else◌}
use synergistic_juno_contrac.Base.Dict.{Dict}

module _ {ℓ} where
  unfoldable pub insert_key : {V : Type ℓ} → ℕ → V → Dict V → Dict V
  insert_key k v [] = (k, v) ∷ []
  insert_key k v ((j, w) ∷ d) =
      let rest = insert_key k v d in if ltb k j then (k, v) ∷ (j, w) ∷ d else (j, w) ∷ rest

  unfoldable pub ascending : {V : Type ℓ} → Dict V → Dict V
  unfolding insert_key
  ascending [] = []
  ascending ((k, v) ∷ d) = insert_key k v (ascending d)

  -- `take` of an iterator.
  unfoldable pub take : {A : Type ℓ} → ℕ → List A → List A
  take zero xs = []
  take (suc n) [] = []
  take (suc n) (x ∷ xs) = x ∷ take n xs

  abbrev pub is_after : Option ℕ → ℕ → Bool
  is_after none k = true
  is_after (some start) k = ltb start k

  -- The entries with keys above an exclusive bound.
  unfoldable pub after : {V : Type ℓ} → Option ℕ → Dict V → Dict V
  after start [] = []
  after start ((k, v) ∷ d) =
      let rest = after start d in if is_after start k then (k, v) ∷ rest else rest

  -- `range` from an exclusive bound, and `take`.
  unfoldable pub page : {V : Type ℓ} → Option ℕ → ℕ → Dict V → Dict V
  unfolding after ascending take
  page start limit d = take limit (after start (ascending d))
