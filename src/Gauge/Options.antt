-- ===== src/Gauge/Options.antt =====
-- contracts/synergistic_wynd_gauge/src/contract.rs: gauges are created, and options added and removed.
use synergistic_juno_contrac.Base.{
  ℕ, Bool, false, Option, none, some, List, [], ◌∷◌, ◌==◌, if◌then◌else◌, Result, ok, ◌>>=◌, ◌>>◌,
  ok_or, get_or, is_some, ensure, reject_if,
}
use synergistic_juno_contrac.Base.Checked.{add64}
use synergistic_juno_contrac.Base.Text.{Text}
use synergistic_juno_contrac.Base.Dict.{lookup, insert}
use synergistic_juno_contrac.Gauge.{
  Error, std, not_found, aborted, unauthorized, gauge_cannot_create, no_voting_power,
  option_does_not_exists, option_already_exists, option_invalid_by_adapter, Gauge, Tally, State,
}
use synergistic_juno_contrac.Gauge.Counting.{update_tally, remove_tally}
use synergistic_juno_contrac.Gauge.Selection.{tally_of}
use synergistic_juno_contrac.Gauge.Epochs.{Querier, GaugeResponse, save_gauge}

pub record GaugeConfig : Type 0 where
  pub title : Text
  pub wynd_gauge_id : ℕ
  pub epoch_pending_size : ℕ

pub record InstantiateMsg : Type 0 where
  pub voting_powers : Text
  pub owner : Text
  pub wynd_staker : Text
  pub gauges : Option (List GaugeConfig)

module _ {D : Type 0} where
  -- The gauge that `attach_gauge` builds from the answer of the other gauge contract.
  abbrev pub new_gauge : GaugeConfig → ℕ → GaugeResponse D → Gauge D
  new_gauge options adapter wynd_gauge = record {
    title = options.title;
    adapter = adapter;
    epoch = wynd_gauge.epoch_size;
    min_percent_selected = wynd_gauge.min_percent_selected;
    max_options_selected = wynd_gauge.max_options_selected;
    max_available_percentage = wynd_gauge.max_available_percentage;
    is_stopped = false;
    next_epoch = wynd_gauge.next_epoch;
    last_executed_set = none;
    reset = none;
    epoch_pending_size = options.epoch_pending_size;
    wynd_gauge_id = options.wynd_gauge_id;
  }

  -- `fetch_last_id`
  unfoldable pub fetch_last_id : State D → Result Error (ℕ × State D)
  fetch_last_id s = do
    next ← ok_or (add64 (get_or s.last_id 0) 1) aborted
    ok (get_or s.last_id 0, record s { last_id = some next })

  abbrev pub save_tally : ℕ → Tally → State D → State D
  save_tally gauge_id t s = record s { tallies = insert gauge_id t s.tallies }

  -- `TALLY.has`
  abbrev pub has_option : ℕ → ℕ → State D → Bool
  has_option gauge_id option s = is_some (lookup option ((tally_of gauge_id s).points))

  unfoldable pub remove_option : ℕ → ℕ → ℕ → State D → Result Error (State D)
  remove_option sender gauge_id option s = do
    ensure (has_option gauge_id option s) (option_does_not_exists option gauge_id)
    ensure (sender == s.config.owner) unauthorized
    t ← ok_or (remove_tally option (tally_of gauge_id s)) aborted
    ok (save_tally gauge_id t s)

module _ {D Duration : Type 0} (name_lt : ℕ → ℕ → Bool) (querier : Querier D Duration) where
  -- The block under `if check_option`.
  unfoldable pub check_new_option : ℕ → ℕ → ℕ → State D → Result Error (Unit {0})
  check_new_option sender gauge_id option s = do
    g ← ok_or (lookup gauge_id s.gauges) not_found
    valid ←
        ok_or (querier.check_option g.adapter option) (option_invalid_by_adapter option gauge_id)
    ensure valid (option_invalid_by_adapter option gauge_id)
    voting_power ← ok_or (querier.voting_power_at_height s.config.voting_powers sender) std
    reject_if (voting_power == 0) (no_voting_power sender)

  unfoldable pub add_option : ℕ → ℕ → ℕ → Bool → State D → Result Error (State D)
  add_option sender gauge_id option check_option s = do
    let checked = check_new_option sender gauge_id option s
    reject_if (has_option gauge_id option s) (option_already_exists option gauge_id)
    if check_option then checked else ok tt
    t ← ok_or (update_tally name_lt option 0 0 (tally_of gauge_id s)) aborted
    ok (save_tally gauge_id t s)

  -- The loop over the options of the adapter.
  unfoldable pub add_options : ℕ → ℕ → List ℕ → State D → Result Error (State D)
  add_options sender gauge_id [] s = ok s
  add_options sender gauge_id (option ∷ options) s = do
    next ← add_option sender gauge_id option false s
    add_options sender gauge_id options next

  unfoldable pub attach_gauge : GaugeConfig → State D → Result Error (State D)
  attach_gauge options s = do
    wynd_gauge ← ok_or (querier.wynd_gauge_by_id s.config.wynd_gauge options.wynd_gauge_id) aborted
    reject_if wynd_gauge.is_stopped (gauge_cannot_create options.wynd_gauge_id)
    adapter ← ok_or (querier.addr_validate wynd_gauge.adapter) std
    let gauge = new_gauge options adapter wynd_gauge
    (last_id, s1) ← fetch_last_id s
    adapter_options ← ok_or (querier.all_options wynd_gauge.adapter) std
    s2 ← add_options adapter last_id adapter_options (save_gauge last_id gauge s1)
    ok (record s2 { last_epoch = insert last_id 0 s2.last_epoch })

  unfoldable pub create_gauge : ℕ → GaugeConfig → State D → Result Error (State D)
  create_gauge sender options s = do
    ensure (sender == s.config.owner) unauthorized
    attach_gauge options s

  unfoldable pub attach_gauges : List GaugeConfig → State D → Result Error (State D)
  attach_gauges [] s = ok s
  attach_gauges (g ∷ gs) s = do next ← attach_gauge g s; attach_gauges gs next

  -- `wynd` is the text of the address of the other gauge contract, which the source has fixed.
  unfoldable pub instantiate : Text → ℕ → InstantiateMsg → Result Error (State D)
  instantiate wynd sender msg = do
    voting_powers ← ok_or (querier.addr_validate msg.voting_powers) std
    owner ← ok_or (querier.addr_validate msg.owner) std
    wynd_staker ← ok_or (querier.addr_validate msg.wynd_staker) std
    wynd_gauge ← ok_or (querier.addr_validate wynd) std
    let fresh : State D = record {
      config = record {
        voting_powers = voting_powers;
        owner = owner;
        dao_core = sender;
        wynd_gauge = wynd_gauge;
        wynd_staker = wynd_staker;
      };
      gauges = [];
      last_id = none;
      last_epoch = [];
      vote_history = [];
      votes = [];
      tallies = [];
    }
    attach_gauges (get_or msg.gauges []) fresh
