-- ===== src/Distribution.antt =====
-- contracts/distribution: a contract that pays a fixed amount of a cw20 token per epoch to a
-- recipient. This module models src/contract.rs and src/state.rs. Amounts and times are checked
-- machine integers: an operation out of range aborts the transaction.
pub mod Payouts
mod Tests
use synergistic_juno_contrac.Base.{
  ℕ, ◌+◌, ◌*◌, Bool, Option, none, some, List, [], ◌∷◌, ◌==◌, if◌then◌else◌, Result, ok, err, ◌>>=◌,
  ◌>>◌, ensure, reject_if, ok_or, get_or,
}
use synergistic_juno_contrac.Base.Text.{Text}
use synergistic_juno_contrac.Base.Checked.{add64, mul64, mul128, checked_sub, checked_div}

-- `Std` stands for an address that is not valid; `aborted` is no variant of the source: it
-- stands for a panic.
pub data Error : Type 0 where
  std unauthorized epoch_not_complete aborted : Error

pub record Config : Type 0 where
  pub cw20_contract : ℕ
  pub epoch : ℕ
  pub payment : ℕ
  pub recipient : ℕ
  pub admin : ℕ
  pub last_payment : ℕ

pub record InstantiateMsg : Type 0 where
  pub cw20_contract : Text
  pub epoch : ℕ
  pub payment : ℕ
  pub recipient : Text
  pub admin : Text

pub data ExecuteMsg : Type 0 where
  update_config : Option Text → Option ℕ → Option ℕ → Option Text → Option Text → ExecuteMsg
  payout : ExecuteMsg

-- The messages that a payout sends: a cw20 transfer to a recipient, addressed to the token, and
-- the request to distribute it, addressed to the recipient.
pub data Message : Type 0 where
  transfer : ℕ → ℕ → ℕ → Message
  distribute_rewards : ℕ → Message

-- `addr_validate` is the chain's.
module _ (addr_validate : Text → Option ℕ) where
  unfoldable pub instantiate : ℕ → InstantiateMsg → Result Error Config
  instantiate time msg = do
    cw20_contract ← ok_or (addr_validate msg.cw20_contract) std
    recipient ← ok_or (addr_validate msg.recipient) std
    admin ← ok_or (addr_validate msg.admin) std
    ok (record {
      cw20_contract = cw20_contract;
      epoch = msg.epoch;
      payment = msg.payment;
      recipient = recipient;
      admin = admin;
      last_payment = time;
    })

  -- An optional address of a message replaces the old one.
  unfoldable pub replaced : Option Text → ℕ → Result Error ℕ
  replaced none old = ok old
  replaced (some text) old = ok_or (addr_validate text) std

  unfoldable pub execute_update_config :
      ℕ
      → Option Text
      → Option ℕ
      → Option ℕ
      → Option Text
      → Option Text
      → Config
      → Result Error Config
  unfolding replaced
  execute_update_config sender cw20_contract epoch payment recipient admin config = do
    ensure (sender == config.admin) unauthorized
    token ← replaced cw20_contract config.cw20_contract
    rcpt ← replaced recipient config.recipient
    owner ← replaced admin config.admin
    ok (record config {
      cw20_contract = token;
      epoch = get_or epoch config.epoch;
      payment = get_or payment config.payment;
      recipient = rcpt;
      admin = owner;
    })

-- The messages of a payout of `amount`.
abbrev pub payments : Config → ℕ → List Message
payments cfg amount =
    transfer cfg.cw20_contract cfg.recipient amount ∷ distribute_rewards cfg.recipient ∷ []

unfoldable pub execute_payout : ℕ → Config → Result Error (Config × List Message)
execute_payout time cfg = do
  elapsed ← ok_or (checked_sub time cfg.last_payment) aborted
  epochs ← ok_or (checked_div elapsed cfg.epoch) aborted
  reject_if (epochs == 0) epoch_not_complete
  span ← ok_or (mul64 epochs cfg.epoch) aborted
  last ← ok_or (add64 cfg.last_payment span) aborted
  let paid : Config = record cfg { last_payment = last }
  if cfg.payment == 0
      then ok (paid, [])
      else (do amount ← ok_or (mul128 cfg.payment epochs) aborted; ok (paid, payments cfg amount))

unfoldable pub execute :
    (Text → Option ℕ) → ℕ → ℕ → ExecuteMsg → Config → Result Error (Config × List Message)
execute addr_validate time sender (update_config cw20_contract epoch payment recipient admin) cfg =
    execute_update_config addr_validate sender cw20_contract epoch payment recipient admin cfg
    >>= λ c. ok (c, [])
execute addr_validate time sender payout cfg = execute_payout time cfg
