-- ===== src/Distribution/Tests.antt =====
-- Payouts of 7 tokens every 10 seconds, started at time 100.
use synergistic_juno_contrac.Base.{◌*◌, ◌-◌, ◌≤◌, ◌≡◌, refl, [], ◌∷◌, ok}
use synergistic_juno_contrac.Base.Checked.{add_within, mul_within, checked_sub, checked_div}
use synergistic_juno_contrac.Distribution.{Config, payments, execute_payout}
use synergistic_juno_contrac.Distribution.Payouts.{
  PaidOut, execute_payout_lem, run_payouts, run_payouts_lem,
}

abbrev config : Config
config = record {
  cw20_contract = 1;
  epoch = 10;
  payment = 7;
  recipient = 2;
  admin = 3;
  last_payment = 100;
}

payout_runs :
    execute_payout 125 config ≡ ok (record config { last_payment = 120 }, payments config 14)
unfolding execute_payout add_within mul_within checked_sub checked_div
payout_runs = refl

execute_payout_lem_example :
    PaidOut 125 config (record config { last_payment = 120 }) (payments config 14)
execute_payout_lem_example =
    execute_payout_lem 125 config (record config { last_payment = 120 }) (payments config 14)
      payout_runs

run_payouts_lem_example :
    ((run_payouts (105 ∷ 125 ∷ 131 ∷ []) config).0 * 10
      ≡ 7 * ((run_payouts (105 ∷ 125 ∷ 131 ∷ []) config).1.last_payment - 100))
    × (100 ≤ (run_payouts (105 ∷ 125 ∷ 131 ∷ []) config).1.last_payment)
run_payouts_lem_example = run_payouts_lem (105 ∷ 125 ∷ 131 ∷ []) config
