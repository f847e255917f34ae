-- ===== src/Base/Checked.antt =====
-- Arithmetic of the machine integers. The release profile sets `overflow-checks = true`, and
-- `Uint128` panics on overflow by itself, so an operation out of range aborts: `none`.
use Prim.Native.Nat.{ℕ, ◌+◌, ◌-◌, ◌*◌, ◌/◌, ◌^◌, ◌≤◌, ◌<◌}
use mathlib.Core.Path.{◌≡◌, refl, subst}
use mathlib.Core.Option.{Option, none, some}
use native.Mathlib.Omega.{arith}
use synergistic_juno_contrac.Base.Tests.{ltb, leb, ◌==◌, if◌then◌else◌}

abbrev pub u64_mod : ℕ
u64_mod = 2 ^ 64

abbrev pub u128_mod : ℕ
u128_mod = 2 ^ 128

-- The chain of operations that may panic.
infixl 5 ◌>>=◌
abbrev pub ◌>>=◌ {ℓ κ} : {A : Type ℓ} {B : Type κ} → Option A → (A → Option B) → Option B
none >>= f = none
some a >>= f = f a

-- If a value is returned, `P` holds of it.
pub data Gives {A : Type 0} (P : A → Type 0) : Option A → Type 0 where
  gives : {a : A} → P a → Gives P (some a)
  stops : Gives P none

module _ {A : Type 0} {P : A → Type 0} where
  -- One step of a chain, with the equation of its value.
  pub pass :
      {B : Type 0} (m : Option B) {f : B → Option A}
      → ((b : B) → m ≡ some b → Gives P (f b))
      → Gives P (m >>= f)
  pass none k = stops
  pass (some b) k = k b refl

  pub given : {r : Option A} → Gives P r → {a : A} → r ≡ some a → P a
  given (gives {a = a} p) e = subst P (cc) p
  given stops e = absurd (cc)

pub weaken :
    {A : Type 0} {P Q : A → Type 0} {r : Option A} → ((a : A) → P a → Q a) → Gives P r → Gives Q r
weaken k (gives {a = a} p) = gives (k a p)
weaken k stops = stops

unfoldable pub add_within : ℕ → ℕ → ℕ → Option ℕ
add_within m a b = if ltb (a + b) m then some (a + b) else none

unfoldable pub mul_within : ℕ → ℕ → ℕ → Option ℕ
mul_within m a b = if ltb (a * b) m then some (a * b) else none

-- `a + b`, `a * b` on `Uint128`
abbrev pub add128 : ℕ → ℕ → Option ℕ
add128 = add_within u128_mod

abbrev pub mul128 : ℕ → ℕ → Option ℕ
mul128 = mul_within u128_mod

-- `a + b`, `a * b` on `u64`
abbrev pub add64 : ℕ → ℕ → Option ℕ
add64 = add_within u64_mod

abbrev pub mul64 : ℕ → ℕ → Option ℕ
mul64 = mul_within u64_mod

-- `a - b` at any width, and `checked_sub`
unfoldable pub checked_sub : ℕ → ℕ → Option ℕ
checked_sub a b = if leb b a then some (a - b) else none

-- `a / b`
unfoldable pub checked_div : ℕ → ℕ → Option ℕ
checked_div a b = if b == 0 then none else some (a / b)

pub add_within_lem : (m a b : ℕ) → a + b < m → add_within m a b ≡ some (a + b)
unfolding add_within
add_within_lem m a b h = ground arith

pub mul_within_lem : (m a b : ℕ) → a * b < m → mul_within m a b ≡ some (a * b)
unfolding mul_within
mul_within_lem m a b h = ground arith

pub checked_sub_lem : (a b : ℕ) → b ≤ a → checked_sub a b ≡ some (a - b)
unfolding checked_sub
checked_sub_lem a b h = ground arith

pub checked_div_lem : (a b : ℕ) → 0 < b → checked_div a b ≡ some (a / b)
unfolding checked_div
checked_div_lem a b h = ground arith

-- A sum that is returned is the sum, and fits.
pub add_within-eq-some : (m a b : ℕ) {c : ℕ} → add_within m a b ≡ some c → (c ≡ a + b) × (c < m)
unfolding add_within
add_within-eq-some m a b h = ground arith

pub checked_sub-eq-some : (a b : ℕ) {c : ℕ} → checked_sub a b ≡ some c → (c + b ≡ a)
unfolding checked_sub
checked_sub-eq-some a b h = ground arith
