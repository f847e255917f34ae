-- ===== src/Vault/Handlers.antt =====
-- The messages of contracts/bloop-vault/src/contract.rs. `execute_stake`, the withdrawals and
-- `execute_unstake` first look at the rewards that the staking contract still holds: if there are
-- any, the vault notes the wanted action, calls the converter, and completes the action when the
-- rewards arrive (`execute_distribute_rewards`).
use synergistic_juno_contrac.Base.{
  ℕ, Bool, Option, none, some, List, [], ◌∷◌, ltb, leb, ◌==◌, if◌then◌else◌, max, Result, ok, err,
  ◌>>=◌, ◌>>◌, ensure, ok_or, get_or, is_some, ◌||◌,
}
use synergistic_juno_contrac.Base.Checked.{add128}
use synergistic_juno_contrac.Controllers.Admin.{AdminError, Store, set, execute_update_admin}
use synergistic_juno_contrac.Vault.{
  Decimals, Error, std, aborted, unauthorized, no_data, invalid_asset, invalid_amount,
  no_withdrawable, invalid_action, invalid_fee, invalid_distributor, admin_error, RewardAction,
  no_action, reward, stake, unstake, treasury_withdraw, syne_staking_reward_withdraw, State,
  InstantiateMsg, Cw20HookMsg, stake_hook, distribute_rewards_hook, Cw20ReceiveMsg, ConfigChange,
  ExecuteMsg, update_admin, update_config, receive, withdraw_rewards, withdraw_treasury_rewards,
  withdraw_syne_staking_rewards, unstake_msg, distribute_rewards, Sent, transfer, withdraw_from,
  Outside,
}
use synergistic_juno_contrac.Vault.Amounts.{
  info_of, update_total_rewards, update_rewards, add_stake, remove_stake, update_treasury_amounts,
  update_syne_staking_amounts,
}

-- `addr_validate`, and `maybe_addr`.
abbrev pub addr_validate : Outside → ℕ → Result Error ℕ
addr_validate outside text = if outside.is_valid text then ok text else err std

abbrev pub maybe_addr : Outside → Option ℕ → Result Error (Option ℕ)
maybe_addr outside none = ok none
maybe_addr outside (some text) = do addr ← addr_validate outside text; ok (some addr)

abbrev pub from_admin : Result AdminError Store → Result Error Store
from_admin (ok store) = ok store
from_admin (err e) = err (admin_error e)

-- An optional new value over the old one.
abbrev pub replaced : Option ℕ → Option ℕ → Option ℕ
replaced none old = old
replaced (some new) old = some new

module _ {D : Type 0} (decimals : Decimals D) (outside : Outside) where
  unfoldable pub instantiate : ℕ → InstantiateMsg → Result Error (State D)
  instantiate sender msg = do
    admin ← addr_validate outside msg.admin
    token ← addr_validate outside msg.token
    staking ← addr_validate outside msg.loop_protocol_staking
    ok (record {
      admin = set (some admin) none;
      config = record {
        admin = admin;
        token = token;
        bloop_converter_and_staker = sender;
        min_bond = max msg.min_bond 1;
        loop_protocol_staking = staking;
        treasury_wallet = none;
        treasury_withdrawer = none;
        syne_staking_reward_distributor = none;
        treasury_fee = decimals.fifth;
        syne_staking_fee = decimals.zero;
        total_fee_cap = decimals.three_tenths;
        treasury_fee_limit = decimals.twentieth;
        duration = 12;
      };
      total_staked = record {
        staked = 0;
        pending_treasury_rewards = 0;
        pending_syne_staking_rewards = 0;
        power = decimals.zero;
      };
      stakes = [];
      reward_action = none;
    })

  abbrev pub checked_fee : Option D → D → D → Result Error D
  checked_fee none old limit = ok old
  checked_fee (some fee) old limit = if decimals.above fee limit then ok fee else err invalid_fee

  abbrev pub any_change : ConfigChange D → Bool
  any_change c =
      is_some c.min_bond
      || is_some c.treasury_wallet
      || is_some c.treasury_withdrawer
      || is_some c.syne_staking_reward_distributor
      || is_some c.treasury_fee
      || is_some c.syne_staking_fee

  -- The changed configuration is checked, but it is not written to the storage.
  unfoldable pub execute_update_config : ℕ → ConfigChange D → State D → Result Error (State D)
  execute_update_config sender c s = do
    ensure (sender == s.config.admin) unauthorized
    wallet ← maybe_addr outside c.treasury_wallet
    withdrawer ← maybe_addr outside c.treasury_withdrawer
    distributor ← maybe_addr outside c.syne_staking_reward_distributor
    treasury_fee ← checked_fee c.treasury_fee s.config.treasury_fee s.config.treasury_fee_limit
    fees ←
        ok_or (decimals.add treasury_fee (get_or c.syne_staking_fee s.config.syne_staking_fee))
          aborted
    ensure (decimals.at_most fees s.config.total_fee_cap) invalid_fee
    ensure (any_change c) no_data
    ok s

  abbrev pub withdrawable_amount : State D → Result Error ℕ
  withdrawable_amount s = do
    settled ← outside.user_reward s.config.loop_protocol_staking s.config.bloop_converter_and_staker
    pending ←
        outside.pending_reward s.config.loop_protocol_staking s.config.bloop_converter_and_staker
    ok_or (add128 settled pending) aborted

  -- Notes the action and calls the converter, unless another action waits.
  abbrev pub begin_from :
      RewardAction → Result Error RewardAction → State D → Result Error (State D × List Sent)
  begin_from no_action new s = do
    action ← new
    ok (
      record s { reward_action = some action },
      withdraw_from s.config.bloop_converter_and_staker ∷ [],
    )
  begin_from _ new s = err invalid_action

  abbrev pub begin_action : Result Error RewardAction → State D → Result Error (State D × List Sent)
  begin_action action s = begin_from (get_or s.reward_action no_action) action s

  -- A transfer of a positive amount.
  abbrev pub pay_positive : ℕ → ℕ → ℕ → List Sent
  pay_positive token recipient amount =
      if ltb 0 amount then transfer token recipient amount ∷ [] else []

  abbrev pub finish_reward : ℕ → State D → Result Error (State D × List Sent)
  finish_reward address s = do
    (t, amount) ← update_rewards decimals address s
    ok (t, pay_positive s.config.token address amount)

  abbrev pub finish_stake : ℕ → ℕ → State D → Result Error (State D × List Sent)
  finish_stake address amount s = do
    (t, reward_amount) ← add_stake decimals address amount s
    ok (t, pay_positive s.config.token address reward_amount)

  abbrev pub finish_unstake : ℕ → ℕ → State D → Result Error (State D × List Sent)
  finish_unstake address amount s = do
    (t, pending) ← remove_stake decimals address amount s
    ok (t, transfer s.config.token address amount ∷ pay_positive s.config.token address pending)

  abbrev pub finish_treasury : ℕ → Option ℕ → State D → Result Error (State D × List Sent)
  finish_treasury sender amount s = do
    (t, treasury_amount) ← update_treasury_amounts sender amount s
    wallet ← ok_or s.config.treasury_wallet aborted
    ok (t, transfer s.config.token wallet treasury_amount ∷ [])

  abbrev pub finish_syne_staking : ℕ → Option ℕ → State D → Result Error (State D × List Sent)
  finish_syne_staking sender amount s = do
    (t, staking_amount) ← update_syne_staking_amounts sender amount s
    distributor ← ok_or s.config.syne_staking_reward_distributor invalid_distributor
    ok (t, transfer s.config.token distributor staking_amount ∷ [])

  -- The `match` on the action that waited.
  abbrev pub finish : RewardAction → ℕ → State D → Result Error (State D × List Sent)
  finish no_action sender s = ok (s, [])
  finish (reward address) sender s = finish_reward address s
  finish (stake address amount) sender s = finish_stake address amount s
  finish (unstake address amount) sender s = finish_unstake address amount s
  finish (treasury_withdraw amount) sender s = finish_treasury sender amount s
  finish (syne_staking_reward_withdraw amount) sender s = finish_syne_staking sender amount s

  abbrev pub chosen : Option ℕ → RewardAction → RewardAction
  chosen none waiting = waiting
  chosen (some address) waiting = reward address

  unfoldable pub execute_distribute_rewards :
      ℕ → Option ℕ → ℕ → State D → Result Error (State D × List Sent)
  execute_distribute_rewards sender address amount s = do
    t ← update_total_rewards decimals amount s
    (u, sent) ← finish (chosen address (get_or s.reward_action no_action)) sender t
    ok (record u { reward_action = some no_action }, sent)

  abbrev pub add_now : ℕ → ℕ → State D → Result Error (State D × List Sent)
  add_now sender amount s = do address ← addr_validate outside sender; finish_stake address amount s

  unfoldable pub execute_stake : ℕ → ℕ → State D → Result Error (State D × List Sent)
  execute_stake sender amount s = do
    withdrawable ← withdrawable_amount s
    if ltb 0 withdrawable
        then begin_action (do address ← addr_validate outside sender; ok (stake address amount)) s
        else add_now sender amount s

  abbrev pub reward_now : ℕ → State D → Result Error (State D × List Sent)
  reward_now text s = do
    address ← addr_validate outside text
    (t, amount) ← update_rewards decimals address s
    ok (t, transfer s.config.token address amount ∷ [])

  unfoldable pub execute_withdraw_rewards : ℕ → State D → Result Error (State D × List Sent)
  execute_withdraw_rewards text s = do
    withdrawable ← withdrawable_amount s
    if ltb 0 withdrawable
        then begin_action (do address ← addr_validate outside text; ok (reward address)) s
        else reward_now text s

  abbrev pub treasury_now : ℕ → Option ℕ → State D → Result Error (State D × List Sent)
  treasury_now sender amount s = do
    (t, treasury_amount) ← update_treasury_amounts sender amount s
    ensure (ltb 0 treasury_amount) no_withdrawable
    wallet ← ok_or s.config.treasury_wallet aborted
    ok (t, transfer s.config.token wallet treasury_amount ∷ [])

  unfoldable pub execute_withdraw_treasury_rewards :
      ℕ → Option ℕ → State D → Result Error (State D × List Sent)
  execute_withdraw_treasury_rewards sender amount s = do
    withdrawer ← ok_or s.config.treasury_withdrawer aborted
    ensure (sender == withdrawer) unauthorized
    withdrawable ← withdrawable_amount s
    if ltb 0 withdrawable
        then begin_action (ok (treasury_withdraw amount)) s
        else treasury_now sender amount s

  abbrev pub syne_staking_now : ℕ → Option ℕ → State D → Result Error (State D × List Sent)
  syne_staking_now sender amount s = do
    (t, staking_amount) ← update_syne_staking_amounts sender amount s
    ensure (ltb 0 staking_amount) no_withdrawable
    distributor ← ok_or s.config.syne_staking_reward_distributor invalid_distributor
    ok (t, transfer s.config.token distributor staking_amount ∷ [])

  unfoldable pub execute_withdraw_syne_staking_rewards :
      ℕ → Option ℕ → State D → Result Error (State D × List Sent)
  execute_withdraw_syne_staking_rewards sender amount s = do
    withdrawable ← withdrawable_amount s
    if ltb 0 withdrawable
        then begin_action (ok (syne_staking_reward_withdraw amount)) s
        else syne_staking_now sender amount s

  unfoldable pub execute_unstake : ℕ → ℕ → State D → Result Error (State D × List Sent)
  execute_unstake sender amount s = do
    ensure (ltb 0 amount) invalid_amount
    ensure (leb amount (info_of decimals sender s).stake) invalid_amount
    withdrawable ← withdrawable_amount s
    if ltb 0 withdrawable
        then begin_action (ok (unstake sender amount)) s
        else finish_unstake sender amount s

  unfoldable pub execute_distribute_user_rewards : ℕ → State D → Result Error (State D × List Sent)
  execute_distribute_user_rewards address s = finish_reward address s

  abbrev pub receive_hook : Cw20HookMsg → ℕ → ℕ → ℕ → State D → Result Error (State D × List Sent)
  receive_hook stake_hook sender from amount s = execute_stake from amount s
  receive_hook (distribute_rewards_hook address) sender from amount s =
      execute_distribute_rewards sender address amount s

  unfoldable pub execute_receive_cw20 :
      ℕ → Cw20ReceiveMsg → State D → Result Error (State D × List Sent)
  execute_receive_cw20 sender wrapper s = do
    ensure (sender == s.config.token) invalid_asset
    receive_hook wrapper.msg sender wrapper.sender wrapper.amount s

  unfoldable pub execute : ℕ → ExecuteMsg D → State D → Result Error (State D × List Sent)
  execute sender (update_admin text) s = do
    new_admin ← maybe_addr outside text
    store ← from_admin (execute_update_admin sender new_admin s.admin)
    ok (record s { admin = store }, [])
  execute sender (update_config c) s = do t ← execute_update_config sender c s; ok (t, [])
  execute sender (receive wrapper) s = execute_receive_cw20 sender wrapper s
  execute sender (withdraw_rewards address) s = execute_withdraw_rewards address s
  execute sender (withdraw_treasury_rewards amount) s =
      execute_withdraw_treasury_rewards sender amount s
  execute sender (withdraw_syne_staking_rewards amount) s =
      execute_withdraw_syne_staking_rewards sender amount s
  execute sender (unstake_msg amount) s = execute_unstake sender amount s
  execute sender (distribute_rewards address) s = execute_distribute_user_rewards address s
