-- ===== src/Distribution/Payouts.antt =====
-- The payouts of contracts/distribution over time.
use native.Mathlib.Nat.{mul_assoc, add-mul, mul-add, le_trans, div-mul-le_self, lt-div-mul-add}
use synergistic_juno_contrac.Base.{
  ℕ, ◌+◌, ◌-◌, ◌*◌, ◌≤◌, ◌<◌, ◌≡◌, ◌≢◌, List, [], ◌∷◌, ◌==◌, if◌then◌else◌, Result, ok, err, ok_or,
  reject_if, ◌>>=◌, arith, Result-cases, inl, inr, >>=-eq-ok, ap, ◌∙◌,
}
use synergistic_juno_contrac.Base.Checked.{
  add64, mul64, mul128, add_within, mul_within, checked_sub, checked_div,
}
use synergistic_juno_contrac.Distribution.{
  Config, Message, Error, aborted, epoch_not_complete, transfer, distribute_rewards, payments,
  execute_payout,
}

-- The amount that a list of messages transfers.
unfoldable pub transferred : List Message → ℕ
transferred [] = 0
transferred (transfer _ _ amount ∷ ms) = amount + transferred ms
transferred (distribute_rewards _ ∷ ms) = transferred ms

-- What a payout does: it covers whole epochs, at least one and as many as have passed, and pays
-- `payment` for each.
pub record PaidOut (time : ℕ) (cfg cfg' : Config) (ms : List Message) : Type 0 where
  pub epochs : ℕ
  pub due : epochs ≢ 0
  pub covered : cfg'.last_payment ≡ cfg.last_payment + epochs * cfg.epoch
  pub reached : cfg'.last_payment ≤ time
  pub remaining : time < cfg'.last_payment + cfg.epoch
  pub amount : transferred ms ≡ cfg.payment * epochs
  pub unchanged : cfg' ≡ record cfg { last_payment = cfg'.last_payment }

elapsed_lem :
    (time last epoch elapsed epochs : ℕ)
    → ok_or (checked_sub time last) aborted ≡ ok elapsed
    → ok_or (checked_div elapsed epoch) aborted ≡ ok epochs
    → (last + elapsed ≡ time) × (epochs * epoch ≤ elapsed) × (elapsed < epochs * epoch + epoch)
unfolding checked_sub checked_div
elapsed_lem time last epoch elapsed epochs e f = (
  ground arith,
  ground (arith, div-mul-le_self elapsed epoch),
  ground (arith, lt-div-mul-add {a = elapsed} {b = epoch}),
)

advanced_lem :
    (last epoch epochs span last' : ℕ)
    → ok_or (mul64 epochs epoch) aborted ≡ ok span
    → ok_or (add64 last span) aborted ≡ ok last'
    → (last' ≡ last + epochs * epoch) × (span ≡ epochs * epoch)
unfolding add_within mul_within
advanced_lem last epoch epochs span last' k l = (ground arith, ground arith)

-- The end of a payout.
paid_lem :
    (cfg : Config) (epochs last : ℕ) (cfg' : Config) (ms : List Message)
    → if◌then◌else◌ {A = Result Error (Config × List Message)}
        (cfg.payment == 0)
        (ok (record cfg { last_payment = last }, []))
        (ok_or (mul128 cfg.payment epochs) aborted >>= λ amount.
          ok (record cfg { last_payment = last }, payments cfg amount))
      ≡ ok (cfg', ms)
    → (cfg' ≡ record cfg { last_payment = last }) × (transferred ms ≡ cfg.payment * epochs)
unfolding mul_within transferred
paid_lem cfg epochs last cfg' ms h = (ground arith, ground arith)

-- A payout that succeeds covers as many whole epochs as have passed since the last one, at least
-- one, leaves less than an epoch open, and transfers the payment once for each.
pub execute_payout_lem :
    (time : ℕ) (cfg cfg' : Config) (ms : List Message)
    → execute_payout time cfg ≡ ok (cfg', ms)
    → PaidOut time cfg cfg' ms
unfolding execute_payout
execute_payout_lem time cfg cfg' ms h =
    let (elapsed, e, h1) = >>=-eq-ok (ok_or (checked_sub time cfg.last_payment) aborted) _ h in
    let (epochs, f, h2) = >>=-eq-ok (ok_or (checked_div elapsed cfg.epoch) aborted) _ h1 in
    let (u, g, h3) = >>=-eq-ok (reject_if (epochs == 0) epoch_not_complete) _ h2 in
    let (span, k, h4) = >>=-eq-ok (ok_or (mul64 epochs cfg.epoch) aborted) _ h3 in
    let (last, l, h5) = >>=-eq-ok (ok_or (add64 cfg.last_payment span) aborted) _ h4 in
    let (since, below, above) = elapsed_lem time cfg.last_payment cfg.epoch elapsed epochs e f in
    let (advanced, product) = advanced_lem cfg.last_payment cfg.epoch epochs span last k l in
    let (same, paid) = paid_lem cfg epochs last cfg' ms h5 in
    record {
      epochs = epochs;
      due = ground arith;
      covered = ap (λ c. c.last_payment) same ∙ advanced;
      reached = ground (arith, below);
      remaining = ground (arith, above);
      amount = paid;
      unchanged = cc;
    }

-- The payout calls at a list of times, and the sum of what they transfer; a call that fails changes nothing.
unfoldable pub run_payouts : List ℕ → Config → ℕ × Config
run_payouts [] cfg = (0, cfg)
run_payouts (time ∷ times) cfg = elim (execute_payout time cfg) [
  | ok (cfg', ms) ↦ let (sum, last) = run_payouts times cfg' in (transferred ms + sum, last)
  | err e ↦ run_payouts times cfg
]

paid_once :
    (time : ℕ) (cfg cfg' : Config) (ms : List Message)
    → execute_payout time cfg ≡ ok (cfg', ms)
    → (transferred ms * cfg.epoch ≡ cfg.payment * (cfg'.last_payment - cfg.last_payment))
      × (cfg.last_payment ≤ cfg'.last_payment)
      × (cfg'.epoch ≡ cfg.epoch)
      × (cfg'.payment ≡ cfg.payment)
paid_once time cfg cfg' ms h =
    let p = execute_payout_lem time cfg cfg' ms h in
    (
      grind (arith, p.amount, p.covered, mul_assoc),
      ground (arith, p.covered),
      ap (λ c. c.epoch) p.unchanged,
      ap (λ c. c.payment) p.unchanged,
    )

-- Two stretches of time that meet, each paid exactly.
joined :
    (epoch payment paid rest first last final : ℕ)
    → paid * epoch ≡ payment * (last - first)
    → first ≤ last
    → rest * epoch ≡ payment * (final - last)
    → last ≤ final
    → (paid + rest) * epoch ≡ payment * (final - first)
joined epoch payment paid rest first last final a b c d =
    let split : final - first ≡ (last - first) + (final - last) = omega arith in
    rw (split, add-mul paid rest epoch, mul-add payment (last - first) (final - last), a, c)

-- However often and whenever payouts are called, the sum of the transfers is the payment per
-- epoch for exactly the time that the last payment has advanced.
pub run_payouts_lem :
    (times : List ℕ) (cfg : Config)
    → ((run_payouts times cfg).0 * cfg.epoch
        ≡ cfg.payment * ((run_payouts times cfg).1.last_payment - cfg.last_payment))
      × (cfg.last_payment ≤ (run_payouts times cfg).1.last_payment)
unfolding run_payouts
run_payouts_lem [] cfg = (grind arith, omega arith)
run_payouts_lem (time ∷ times) cfg = elim (Result-cases (execute_payout time cfg)) [
  | inl ((cfg', ms), e) ↦
      let (paid, later, same_epoch, same_payment) = paid_once time cfg cfg' ms e in
      let (sum, further) = run_payouts_lem times cfg' in
      rw (run_payouts, e)
        (
          joined cfg.epoch cfg.payment (transferred ms) (run_payouts times cfg').0 cfg.last_payment
              cfg'.last_payment (run_payouts times cfg').1.last_payment paid later (cc) further,
          le_trans later further,
        )
  | inr (x, e) ↦ rw (run_payouts, e) (run_payouts_lem times cfg)
]
