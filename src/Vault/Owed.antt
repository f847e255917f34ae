-- ===== src/Vault/Owed.antt =====
-- What the vault of contracts/bloop-vault owes, in the smallest parts of a token: the deposits, the
-- fees and the rewards that stakers have not been paid.
use native.Mathlib.Nat.{le_of_mul-le-mul_right, mul-le-mul_right, mul_assoc, mul_comm, add-mul}
use synergistic_juno_contrac.Base.{
  ℕ, ◌≡◌, ◌+◌, ◌*◌, ◌≤◌, ◌<◌, Option, none, some, [], ◌∷◌, get_or, arith, ok_or, Returns, returns,
  step, ok_or-eq-ok, finally, inl, inr, Option-cases, ap,
}
use synergistic_juno_contrac.Base.Checked.{checked_sub, checked_sub-eq-some}
use synergistic_juno_contrac.Base.Dict.{Dict, lookup, insert}
use synergistic_juno_contrac.Vault.{Decimals, aborted, StakingInfo}
use synergistic_juno_contrac.Vault.Amounts.{earned, fee_of, gain}

-- Decimals are multiples of a smallest part, and products and quotients are rounded down.
pub record FixedPoint {D : Type 0} (decimals : Decimals D) : Type 0 where
  pub atomics : D → ℕ
  pub unit : ℕ
  pub unit_positive : 0 < unit
  pub atomics_zero : atomics decimals.zero ≡ 0
  pub atomics_fifth : atomics decimals.fifth * 5 ≡ unit
  pub atomics_add : (a b c : D) → decimals.add a b ≡ some c → atomics c ≡ atomics a + atomics b
  pub atomics_sub : (a b c : D) → decimals.sub a b ≡ some c → atomics c + atomics b ≡ atomics a
  pub atomics_whole : (n : ℕ) (c : D) → decimals.whole n ≡ some c → atomics c ≡ n * unit
  pub atomics_mul :
      (a b c : D) → decimals.mul a b ≡ some c → atomics c * unit ≤ atomics a * atomics b
  pub atomics_div :
      (a b c : D) → decimals.div a b ≡ some c → atomics c * atomics b ≤ atomics a * unit
  pub atomics_floor : (a : D) → decimals.floor a * unit ≤ atomics a

-- The sum of a measure over the values of a map.
module _ {V : Type 0} (measure : V → ℕ) where
  unfoldable pub sum_of : Dict V → ℕ
  sum_of [] = 0
  sum_of ((_, v) ∷ d) = measure v + sum_of d

  abbrev pub measure_at : Option V → ℕ
  measure_at none = 0
  measure_at (some v) = measure v

  pub sum_of-insert :
      (k : ℕ) (v : V) (d : Dict V)
      → sum_of (insert k v d) + measure_at (lookup k d) ≡ sum_of d + measure v
  unfolding sum_of insert lookup
  sum_of-insert k v [] = omega arith
  sum_of-insert k v ((j, w) ∷ d) = ground (arith, sum_of-insert k v d)

-- A rounded product with a whole number is at most the product.
product_le : (x st m w u : ℕ) → 0 < u → m * u ≤ x * w → w ≡ st * u → m ≤ x * st
product_le x st m w u h g e =
    le_of_mul-le-mul_right {m = m} {n = x * st} {k = u}
      (omega (arith, g, mul_assoc x st u, ap (λ k. x * k) e)) h

module _ {D : Type 0} (decimals : Decimals D) (fixed : FixedPoint decimals) where
  abbrev pub parts : D → ℕ
  parts = fixed.atomics

  sub-le :
      (a b : D)
      → parts b ≤ parts a
      → parts (get_or (decimals.sub a b) decimals.zero) + parts b ≤ parts a
  sub-le a b h = elim (Option-cases (decimals.sub a b)) [
    | inl e ↦ rw (e) (omega (arith, h, fixed.atomics_zero))
    | inr (c, e) ↦ rw (e) (omega (arith, fixed.atomics_sub a b c e))
  ]

  mul-le :
      (a b : D) → parts (get_or (decimals.mul a b) decimals.zero) * fixed.unit ≤ parts a * parts b
  mul-le a b = elim (Option-cases (decimals.mul a b)) [
    | inl e ↦ rw (e) (rw (fixed.atomics_zero) (omega arith))
    | inr (c, e) ↦ rw (e) (fixed.atomics_mul a b c e)
  ]

  -- What a staker is paid is covered by the growth of the power since the stake was touched.
  pub earned-Returns :
      (power : D) (info : StakingInfo D)
      → parts info.power_diff ≤ parts power
      → Returns
          (λ p. p * fixed.unit + parts info.power_diff * info.stake ≤ parts power * info.stake)
          (earned decimals power info)
  earned-Returns power info h = step (ok_or (decimals.whole info.stake) aborted) λ w e.
      let x = get_or (decimals.sub power info.power_diff) decimals.zero in
      let m = get_or (decimals.mul x w) decimals.zero in
      let product : parts m ≤ parts x * info.stake =
        product_le (parts x) info.stake (parts m) (parts w) fixed.unit fixed.unit_positive
          (mul-le x w)
          (fixed.atomics_whole info.stake w (ok_or-eq-ok (decimals.whole info.stake) aborted e)) in
      returns (
        omega (
          arith,
          fixed.atomics_floor m,
          product,
          add-mul (parts x) (parts info.power_diff) info.stake,
          mul-le-mul_right info.stake (sub-le power info.power_diff h),
        ))

  -- A fee is at most the share of the amount.
  pub fee_of-Returns :
      (amount : ℕ) (fee : D)
      → Returns (λ p. p * fixed.unit ≤ amount * parts fee) (fee_of decimals amount fee)
  fee_of-Returns amount fee = step (ok_or (decimals.whole amount) aborted) λ w e.
      step (ok_or (decimals.mul w fee) aborted) λ m g. returns (
        omega (
          arith,
          fixed.atomics_floor m,
          mul_comm (parts fee) amount,
          product_le (parts fee) amount (parts m) (parts w) fixed.unit fixed.unit_positive
              (omega (
                arith,
                mul_comm (parts fee) (parts w),
                fixed.atomics_mul w fee m (ok_or-eq-ok (decimals.mul w fee) aborted g),
              ))
              (fixed.atomics_whole amount w (ok_or-eq-ok (decimals.whole amount) aborted e)),
        ))

  -- What all staked tokens gain together is at most the reward less the fees.
  pub gain-Returns :
      (amount t q staked : ℕ)
      → Returns
          (λ g. parts g * staked + (t + q) * fixed.unit ≤ amount * fixed.unit)
          (gain decimals amount t q staked)
  gain-Returns amount t q staked = step (ok_or (checked_sub amount t) aborted) λ rest rest_eq.
      step (ok_or (checked_sub rest q) aborted) λ shared shared_eq.
        step (ok_or (decimals.whole shared) aborted) λ a a_eq.
          step (ok_or (decimals.whole staked) aborted) λ b b_eq.
            finally (decimals.div a b) aborted λ c c_eq.
              let whole_a =
                fixed.atomics_whole shared a (ok_or-eq-ok (decimals.whole shared) aborted a_eq) in
              let whole_b =
                fixed.atomics_whole staked b (ok_or-eq-ok (decimals.whole staked) aborted b_eq) in
              let quotient : parts c * staked ≤ parts a =
                le_of_mul-le-mul_right {m = parts c * staked} {n = parts a} {k = fixed.unit}
                  (omega (
                    arith,
                    mul_assoc (parts c) staked fixed.unit,
                    ap (λ k. parts c * k) whole_b,
                    fixed.atomics_div a b c c_eq,
                  ))
                  fixed.unit_positive in
              omega (
                arith,
                quotient,
                whole_a,
                checked_sub-eq-some amount t (ok_or-eq-ok (checked_sub amount t) aborted rest_eq),
                checked_sub-eq-some rest q (ok_or-eq-ok (checked_sub rest q) aborted shared_eq),
                add-mul (shared + q) t fixed.unit,
                add-mul shared q fixed.unit,
                add-mul t q fixed.unit,
                ap (λ k. k * fixed.unit)
                    (checked_sub-eq-some amount t
                      (ok_or-eq-ok (checked_sub amount t) aborted rest_eq)),
                ap (λ k. k * fixed.unit)
                    (checked_sub-eq-some rest q
                      (ok_or-eq-ok (checked_sub rest q) aborted shared_eq)),
                add-mul rest t fixed.unit,
              )
