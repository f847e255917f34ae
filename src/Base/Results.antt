-- ===== src/Base/Results.antt =====
-- Rust's `Result`, with `?` as the bind of a `do` block. A transaction that returns an error or
-- panics is rolled back by the chain, so only a successful result carries a new state.
use mathlib.Core.Path.{◌≡◌, refl, subst}
use mathlib.Core.Bool.{Bool, true, false}
use mathlib.Core.Option.{Option, none, some}
use mathlib.Core.Logic.{◌⊎◌, inl, inr}
use synergistic_juno_contrac.Base.Tests.{if◌then◌else◌}

pub data Result {ℓ} (E : Type 0) (A : Type ℓ) : Type ℓ where
  ok : A → Result E A
  err : E → Result E A

-- `if !c { return Err(e) }`
abbrev pub ensure : {E : Type 0} → Bool → E → Result E (Unit {0})
ensure holds e = if holds then ok tt else err e

-- `if c { return Err(e) }`
abbrev pub reject_if : {E : Type 0} → Bool → E → Result E (Unit {0})
reject_if fails e = if fails then err e else ok tt

-- `ok_or(e)`, and the result of a computation that may panic.
abbrev pub ok_or {ℓ} : {E : Type 0} {A : Type ℓ} → Option A → E → Result E A
ok_or none e = err e
ok_or (some a) e = ok a

pub ok_or-eq-ok {ℓ} :
    {E : Type 0} {A : Type ℓ} {a : A} (o : Option A) (e : E) → ok_or o e ≡ ok a → o ≡ some a
ok_or-eq-ok none e h = absurd (cc)
ok_or-eq-ok (some b) e h = cc

-- `unwrap_or_default` on an unsigned integer is `get_or o 0`.
abbrev pub get_or {ℓ} : {A : Type ℓ} → Option A → A → A
get_or none d = d
get_or (some a) d = a

abbrev pub is_some {ℓ} : {A : Type ℓ} → Option A → Bool
is_some none = false
is_some (some _) = true

infixl 5 ◌>>=◌ ◌>>◌
-- `?`
abbrev pub ◌>>=◌ {ℓ κ} :
    {E : Type 0} {A : Type ℓ} {B : Type κ} → Result E A → (A → Result E B) → Result E B
err failure >>= next = err failure
ok value >>= next = next value

-- A check, and what follows it.
abbrev pub ◌>>◌ {ℓ} : {E : Type 0} {B : Type ℓ} → Result E (Unit {0}) → Result E B → Result E B
check >> next = check >>= λ _. next

-- Either way a computation ends, with the equation.
pub Result-cases {ℓ} :
    {E : Type 0} {A : Type ℓ} (r : Result E A) → ((a : A) × (r ≡ ok a)) ⊎ ((e : E) × (r ≡ err e))
Result-cases (ok a) = inl (a, refl)
Result-cases (err e) = inr (e, refl)

-- If a chain succeeds, so do its first step and what follows.
pub >>=-eq-ok {ℓ κ} :
    {E : Type 0} {A : Type ℓ} {B : Type κ} {last : B} (first : Result E A) (next : A → Result E B)
    → (first >>= next) ≡ ok last
    → (value : A) × (first ≡ ok value) × (next value ≡ ok last)
>>=-eq-ok (err failure) next returned_last = cc
>>=-eq-ok (ok value) next returned_last = (value, refl, returned_last)

-- If the result is a success, `P` holds of it.
pub data Returns {E : Type 0} {A : Type 0} (P : A → Type 0) : Result E A → Type 0 where
  returns : {a : A} → P a → Returns P (ok a)
  raises : {e : E} → Returns P (err e)

module _ {E : Type 0} {A : Type 0} {P : A → Type 0} where
  -- One step of a `do` block, with the equation of its success.
  pub step :
      {B : Type 0} (m : Result E B) {f : B → Result E A}
      → ((b : B) → m ≡ ok b → Returns P (f b))
      → Returns P (m >>= f)
  step (ok b) k = k b refl
  step (err e) k = raises

  -- One step whose result is known to satisfy `Q`.
  pub follow :
      {B : Type 0} {Q : B → Type 0} {m : Result E B} {f : B → Result E A}
      → Returns Q m
      → ((b : B) → Q b → Returns P (f b))
      → Returns P (m >>= f)
  follow (returns {a = b} q) k = k b q
  follow raises k = raises

  -- Both branches of a test.
  pub branch :
      (b : Bool) {x y : Result E A} → Returns P x → Returns P y → Returns P (if b then x else y)
  branch true p q = p
  branch false p q = q

  pub returned : {r : Result E A} → Returns P r → {a : A} → r ≡ ok a → P a
  returned (returns {a = a} p) e = subst P (cc) p
  returned raises e = absurd (cc)

pub implied :
    {E : Type 0} {A : Type 0} {P Q : A → Type 0} {r : Result E A}
    → ((a : A) → P a → Q a)
    → Returns P r
    → Returns Q r
implied k (returns {a = a} p) = returns (k a p)
implied k raises = raises

-- The last step of a chain, with the equation of its value.
pub finally :
    {E : Type 0} {A : Type 0} {P : A → Type 0} (o : Option A) (e : E)
    → ((a : A) → o ≡ some a → P a)
    → Returns P (ok_or o e)
finally none e k = raises
finally (some a) e k = returns (k a refl)
