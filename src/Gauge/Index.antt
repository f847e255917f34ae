-- ===== src/Gauge/Index.antt =====
-- The sorted index of contracts/synergistic_wynd_gauge/src/state.rs mirrors the tally.
use synergistic_juno_contrac.Base.{ℕ, ◌≤◌, Bool, ◌≡◌, refl, none, some, [], ◌∷◌, All, arith}
use synergistic_juno_contrac.Base.Dict.{
  Dict, lookup, insert, erase, Unique, lookup-insert, lookup-erase,
}
use synergistic_juno_contrac.Gauge.Counting.{remove_point, save_point}

-- An entry of the index with at most `p` points.
abbrev pub Below : ℕ → ℕ × ℕ → Type 0
Below p (_, q) = q ≤ p

-- The most points come first.
abbrev pub Descending : Dict ℕ → Type 0
Descending [] = Unit
Descending ((_, p) ∷ index) = All (Below p) index × Descending index

remove_point_absent :
    (p o : ℕ) (index : Dict ℕ) → lookup o index ≡ none → remove_point p o index ≡ index
unfolding remove_point lookup
remove_point_absent p o [] e = refl
remove_point_absent p o ((r, q) ∷ index) e = ground (arith, remove_point_absent p o index)

pub lookup-remove_point :
    (p o j : ℕ) (index : Dict ℕ)
    → Unique index
    → lookup o index ≡ some p
    → lookup j (remove_point p o index) ≡ lookup j (erase o index)
unfolding remove_point erase lookup
lookup-remove_point p o j [] u e = refl
lookup-remove_point p o j ((r, q) ∷ index) u e = ground (
  arith,
  lookup-remove_point p o j index u.1,
  remove_point_absent p o index,
  lookup-erase o j index,
)

pub Unique-remove_point :
    (p o : ℕ) (index : Dict ℕ)
    → Unique index
    → lookup o index ≡ some p
    → Unique (remove_point p o index)
unfolding remove_point lookup
Unique-remove_point p o [] u e = tt
Unique-remove_point p o ((r, q) ∷ index) u e = ground (
  arith,
  Unique-remove_point p o index u.1,
  remove_point_absent p o index,
  lookup-remove_point p o r index u.1,
  lookup-erase o r index,
)

All-remove_point :
    (b p o : ℕ) (index : Dict ℕ) → All (Below b) index → All (Below b) (remove_point p o index)
unfolding remove_point
All-remove_point b p o [] a = tt
All-remove_point b p o ((r, q) ∷ index) a = ground (arith, All-remove_point b p o index a.1)

pub Descending-remove_point :
    (p o : ℕ) (index : Dict ℕ) → Descending index → Descending (remove_point p o index)
unfolding remove_point
Descending-remove_point p o [] d = tt
Descending-remove_point p o ((r, q) ∷ index) d =
    ground (arith, Descending-remove_point p o index d.1, All-remove_point q p o index d.0)

module _ (name_lt : ℕ → ℕ → Bool) where
  pub lookup-save_point :
      (p o j : ℕ) (index : Dict ℕ)
      → lookup o index ≡ none
      → lookup j (save_point name_lt p o index) ≡ lookup j (insert o p index)
  unfolding save_point lookup insert
  lookup-save_point p o j [] e = refl
  lookup-save_point p o j ((r, q) ∷ index) e =
      ground (arith, lookup-save_point p o j index, lookup-insert o j p index)

  pub Unique-save_point :
      (p o : ℕ) (index : Dict ℕ)
      → lookup o index ≡ none
      → Unique index
      → Unique (save_point name_lt p o index)
  unfolding save_point lookup
  Unique-save_point p o [] e u = (refl, tt)
  Unique-save_point p o ((r, q) ∷ index) e u =
      ground (
        arith,
        Unique-save_point p o index,
        lookup-save_point p o r index,
        lookup-insert o r p index,
      )

  All-save_point :
      (b p o : ℕ) (index : Dict ℕ)
      → p ≤ b
      → All (Below b) index
      → All (Below b) (save_point name_lt p o index)
  unfolding save_point
  All-save_point b p o [] h a = (h, tt)
  All-save_point b p o ((r, q) ∷ index) h a = ground (arith, All-save_point b p o index h a.1)

  All-lower : (b c : ℕ) (index : Dict ℕ) → b ≤ c → All (Below b) index → All (Below c) index
  All-lower b c [] h a = tt
  All-lower b c ((r, q) ∷ index) h a = ground (arith, All-lower b c index h a.1)

  pub Descending-save_point :
      (p o : ℕ) (index : Dict ℕ) → Descending index → Descending (save_point name_lt p o index)
  unfolding save_point
  Descending-save_point p o [] d = (tt, tt)
  Descending-save_point p o ((r, q) ∷ index) d =
      ground (
        arith,
        Descending-save_point p o index d.1,
        All-save_point q p o index,
        All-lower q p index,
      )
